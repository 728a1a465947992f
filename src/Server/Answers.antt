-- ===== src/Server/Answers.antt =====
-- lib.rs: what a connection is answered.
use touchhouse.Prelude.{
  ℕ, suc, ◌+◌, ◌≡◌, refl, ap, String, Bool, true, false, List, [], ◌∷◌, ◌++◌, length, str_eq,
  Bool-cases, inl, inr, if◌then◌else◌, arith,
}
use mathlib.Core.Path.{subst}
use touchhouse.Outcome.{Result, ok, err, panics, hangs, internal, send_response}
use touchhouse.Server.{
  Item, command, undecoded, Response, refused, answered, Ended, after_send, answer, handle_from,
  handle_connection,
}

module _ {S A : Type 0} (execute : S → String → S × Result A) where
  -- The answer to a command, and what follows it. A command that does not end is not answered.
  abbrev and_then : Result A → List (Response A) → List (Response A)
  and_then (ok a) rest = answered (ok a) ∷ rest
  and_then (err e) rest = answered (err e) ∷ rest
  and_then panics rest = answered (err internal) ∷ rest
  and_then hangs rest = []

  -- One answer to each item up to `exit`, each command carried out on what the one before it left.
  pub answers : List Item → S → List (Response A)
  answers [] s = []
  answers (undecoded text ∷ items) s = refused text ∷ answers items s
  answers (command text ∷ items) s =
      let done : S × Result A = execute s text in
      let rest : List (Response A) = answers items done.0 in
      if str_eq text "exit" then [] else and_then done.1 rest

  -- How a connection ends, `rest` being the answers that were not sent: with all sent, or by the
  -- failure to send the first of them.
  abbrev pub IsClosed : (ℕ → Bool) → ℕ → List (Response A) → Result (Unit {0}) → Type 0
  IsClosed sends n rest (ok u) = rest ≡ []
  IsClosed sends n rest hangs = rest ≡ []
  IsClosed sends n rest panics = ⊥
  IsClosed sends n [] (err e) = ⊥
  IsClosed sends n (r ∷ rest) (err e) = (e ≡ send_response) × (sends n ≡ false)

  abbrev pub HasSent : (ℕ → Bool) → ℕ → List (Response A) → Ended execute → Type 0
  HasSent sends n all out =
      (rest : List (Response A)) × (all ≡ out.1 ++ rest)
      × IsClosed sends (n + length out.1) rest out.2

  HasSent-after_send :
      (sends : ℕ → Bool) (n : ℕ) (b : Bool) (s : S) (r : Response A) (all : List (Response A))
      (out : Ended execute)
      → sends n ≡ b
      → HasSent sends (suc n) all out
      → HasSent sends n (r ∷ all) (after_send execute b s r out)
  HasSent-after_send sends n true s r all out e (rest, same, closed) =
      let shift : suc n + length out.1 ≡ n + suc (length out.1) = omega arith in
      (rest, ap (λ l. r ∷ l) same, subst (λ k. IsClosed sends k rest out.2) shift closed)
  HasSent-after_send sends n false s r all out e h =
      let zero_more : n ≡ n + 0 = omega arith in
      (r ∷ all, refl, (refl, subst (λ k. sends k ≡ false) zero_more e))

  HasSent-answer :
      (sends : ℕ → Bool) (n : ℕ) (s : S) (r : Result A) (all : List (Response A))
      (out : Ended execute)
      → HasSent sends (suc n) all out
      → HasSent sends n (and_then r all) (answer execute (sends n) s r out)
  unfolding answer
  HasSent-answer sends n s (ok a) all out h =
      HasSent-after_send sends n (sends n) s (answered (ok a)) all out refl h
  HasSent-answer sends n s (err e) all out h =
      HasSent-after_send sends n (sends n) s (answered (err e)) all out refl h
  HasSent-answer sends n s panics all out h =
      HasSent-after_send sends n (sends n) s (answered (err internal)) all out refl h
  HasSent-answer sends n s hangs all out h = ([], refl, refl)

  from_HasSent :
      (sends : ℕ → Bool) (n : ℕ) (items : List Item) (s : S)
      → HasSent sends n (answers items s) (handle_from execute sends n items s)
  unfolding answers handle_from
  from_HasSent sends n [] s = ([], refl, refl)
  from_HasSent sends n (undecoded text ∷ items) s =
      HasSent-after_send sends n (sends n) s (refused text) (answers items s)
        (handle_from execute sends (suc n) items s) refl (from_HasSent sends (suc n) items s)
  from_HasSent sends n (command text ∷ items) s = elim (Bool-cases (str_eq text "exit")) [
    | inl e ↦ rw (e, answers, handle_from) ([], refl, refl)
    | inr e ↦
        rw (e, answers, handle_from)
          (HasSent-answer sends n (execute s text).0 (execute s text).1
            (answers items (execute s text).0)
            (handle_from execute sends (suc n) items (execute s text).0)
            (from_HasSent sends (suc n) items (execute s text).0))
  ]

  -- A connection sends, in order, one answer to each item up to `exit` or a command that does not
  -- end, each command being carried out on the state that the one before it left, and a panic
  -- answered with an error. It sends all of them, or ends with SendResponse at the first whose
  -- sending fails.
  pub handle_connection-HasSent :
      (sends : ℕ → Bool) (items : List Item) (s : S)
      → HasSent sends 0 (answers items s) (handle_connection execute sends items s)
  unfolding handle_connection
  handle_connection-HasSent sends items s = from_HasSent sends 0 items s
