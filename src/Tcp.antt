-- ===== src/Tcp.antt =====
-- tcp_io_parser.rs: the frames of the protocol, an 8-byte little-endian size and a body. What the
-- crates `rmp_serde` and the UTF-8 decoding make of a body is left out.
pub mod Frames
use touchhouse.Prelude.{
  ℕ, zero, suc, ◌+◌, ◌-◌, ◌*◌, ◌/◌, ◌%◌, ◌^◌, Bool, Option, none, some, List, [], ◌∷◌, ◌++◌, length,
  take, drop, leb, ltb, if◌then◌else◌,
}
use touchhouse.Outcome.{Result, ok, panics}

abbrev pub header_size : ℕ
header_size = 8

-- `to_le_bytes` and `from_le_bytes`, of so many bytes.
abbrev pub to_le : ℕ → ℕ → List ℕ
to_le zero n = []
to_le (suc w) n = n % 256 ∷ to_le w (n / 256)

abbrev pub from_le : List ℕ → ℕ
from_le [] = 0
from_le (b ∷ bs) = b + 256 * from_le bs

-- `decode`: the body of the first frame where all of it is there, and what is left of the buffer.
-- The sum of the sizes is checked to have 64 bits, and `reserve` panics where `can_reserve` says
-- that the buffer cannot have room for so many more bytes.
unfoldable pub decode : (ℕ → Bool) → List ℕ → Result (Option (List ℕ) × List ℕ)
decode can_reserve buf =
    if ltb (length buf) header_size
    then ok (none, buf)
    else let body_size : ℕ = from_le (take 8 buf) in
      if leb (2 ^ 64) (header_size + body_size)
      then panics
      else if ltb (length buf) (header_size + body_size)
      then (if can_reserve (header_size + body_size - length buf) then ok (none, buf) else panics)
      else if ltb (length (drop 8 buf)) body_size
      then panics
      else ok (some (take body_size (drop 8 buf)), drop body_size (drop 8 buf))

-- `encode` of a body that is serialized.
unfoldable pub encode : List ℕ → List ℕ → List ℕ
encode body buf = buf ++ (to_le 8 (length body % 2 ^ 64) ++ body)
