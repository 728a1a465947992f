-- ===== src/Server.antt =====
-- lib.rs: `handle_connection`, and the permits of `accept_conn` (`init_conn_semaphore`). The stream
-- of frames is the list of what `transport.next()` hands over until it ends, and whether the n-th
-- `send` succeeds is an argument. What carries out a command is one as well.
pub mod Answers
pub mod Counted
use touchhouse.Prelude.{
  ℕ, suc, ◌+◌, ◌≡◌, String, Bool, true, false, List, [], ◌∷◌, ◌++◌, str_eq, if◌then◌else◌,
}
use touchhouse.Outcome.{Result, ok, err, panics, hangs, internal, send_response}

-- A command, or the text of the error that `Parser` found.
pub data Item : Type 0 where
  command : String → Item
  undecoded : String → Item

pub data Response (A : Type 0) : Type 0 where
  refused : String → Response A
  answered : Result A → Response A

module _ {S A : Type 0} (execute : S → String → S × Result A) where
  -- What a connection leaves: the state, what was sent, and how it ended.
  abbrev pub Ended : Type 0
  Ended = S × List (Response A) × Result (Unit {0})

  abbrev pub also_sent : Response A → Ended → Ended
  also_sent r rest = (rest.0, r ∷ rest.1, rest.2)

  -- `transport.send`, the n-th: what follows it is read only where it succeeds.
  abbrev pub after_send : Bool → S → Response A → Ended → Ended
  after_send true s r rest = also_sent r rest
  after_send false s r rest = (s, [], err send_response)

  -- A panic of the thread that runs the command is an error; a command that does not end keeps the
  -- connection waiting.
  unfoldable pub answer : Bool → S → Result A → Ended → Ended
  answer sends s hangs rest = (s, [], hangs)
  answer sends s (ok a) rest = after_send sends s (answered (ok a)) rest
  answer sends s (err e) rest = after_send sends s (answered (err e)) rest
  answer sends s panics rest = after_send sends s (answered (err internal)) rest

  -- The loop, after `n` sends.
  unfoldable pub handle_from : (ℕ → Bool) → ℕ → List Item → S → Ended
  unfolding answer
  handle_from sends n [] s = (s, [], ok tt)
  handle_from sends n (undecoded text ∷ items) s =
      after_send (sends n) s (refused text) (handle_from sends (suc n) items s)
  handle_from sends n (command text ∷ items) s =
      let done : S × Result A = execute s text in
      let rest : Ended = handle_from sends (suc n) items done.0 in
      if str_eq text "exit" then (s, [], ok tt) else answer (sends n) done.0 done.1 rest

  unfoldable pub handle_connection : (ℕ → Bool) → List Item → S → Ended
  unfolding handle_from
  handle_connection sends items s = handle_from sends 0 items s

-- The permits that are free, whether the accepting loop holds one, and the connections that do.
pub record Permits : Type 0 where
  pub free : ℕ
  pub waiting : ℕ
  pub connected : ℕ

unfoldable pub init_conn_semaphore : ℕ → Permits
init_conn_semaphore max_connections = record { free = max_connections; waiting = 0; connected = 0 }

-- `accept_conn`: a permit is acquired, and then a connection accepted or not. A connection gives its
-- permit back when it ends, also by a panic.
pub data Step : Permits → Permits → Type 0 where
  acquire :
      {p : Permits} (n : ℕ)
      → p.free ≡ suc n
      → p.waiting ≡ 0
      → Step p record p { free = n; waiting = 1 }
  accepted :
      {p : Permits} → p.waiting ≡ 1 → Step p record p { waiting = 0; connected = p.connected + 1 }
  not_accepted : {p : Permits} → p.waiting ≡ 1 → Step p record p { free = p.free + 1; waiting = 0 }
  closed :
      {p : Permits} (n : ℕ)
      → p.connected ≡ suc n
      → Step p record p { free = p.free + 1; connected = n }

pub data Reach (start : Permits) : Permits → Type 0 where
  here : Reach start start
  next : {p q : Permits} → Reach start p → Step p q → Reach start q
