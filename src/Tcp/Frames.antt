-- ===== src/Tcp/Frames.antt =====
-- tcp_io_parser.rs: frames that are written and read.
use touchhouse.Prelude.{
  ℕ, ◌+◌, ◌%◌, ◌^◌, ◌≤◌, ◌<◌, ◌≡◌, refl, ap, ◌∙◌, Bool, some, List, [], ◌++◌, length, take, drop,
  length-append, take-append, drop-append, ltb_no, leb_no, arith,
}
use mathlib.Core.Path.{subst}
use touchhouse.Outcome.{ok}
use touchhouse.Tcp.{to_le, from_le, decode, encode}

from_le-to_le : (n : ℕ) → n < 2 ^ 64 → from_le (to_le 8 (n % 2 ^ 64)) ≡ n
from_le-to_le n h = omega arith

decode_frame :
    (can_reserve : ℕ → Bool) (header body : List ℕ) (n : ℕ)
    → length header ≡ 8
    → from_le header ≡ n
    → n + 8 < 2 ^ 64
    → n ≤ length body
    → decode can_reserve (header ++ body) ≡ ok (some (take n body), drop n body)
unfolding decode
decode_frame can_reserve header body n l f h le =
    let t : take 8 (header ++ body) ≡ header =
      subst (λ k. take k (header ++ body) ≡ header) l (take-append header body) in
    let d : drop 8 (header ++ body) ≡ body =
      subst (λ k. drop k (header ++ body) ≡ body) l (drop-append header body) in
    let whole : length (header ++ body) ≡ 8 + length body =
      length-append header body ∙ ap (λ k. k + length body) l in
    rw
      (
        whole,
        t,
        d,
        f,
        ltb_no (8 + length body) 8 (omega arith),
        leb_no (2 ^ 64) (8 + n) (omega arith),
        ltb_no (8 + length body) (8 + n) (omega arith),
        ltb_no (length body) n le,
      )
      refl

-- A frame that `encode` puts in an empty buffer, whatever follows it, is decoded to its body, and
-- what follows is left, for a body whose size and the header's together are below 2^64.
pub decode-encode :
    (can_reserve : ℕ → Bool) (body rest : List ℕ)
    → length body + 8 < 2 ^ 64
    → decode can_reserve (encode body [] ++ rest) ≡ ok (some body, rest)
unfolding encode
decode-encode can_reserve body rest h =
    decode_frame can_reserve (to_le 8 (length body % 2 ^ 64)) (body ++ rest) (length body) refl
      (from_le-to_le (length body) (omega (arith, h))) h (omega (arith, length-append body rest))
    ∙ rw (take-append body rest, drop-append body rest) refl
