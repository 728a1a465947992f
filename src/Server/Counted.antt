-- ===== src/Server/Counted.antt =====
-- lib.rs: how many connections there are at a time.
use touchhouse.Prelude.{ℕ, ◌+◌, ◌≡◌, ◌≤◌, ◌<◌, ◌⊎◌, inl, inr, Bool-cases, ltb, ltb→lt, arith}
use touchhouse.Server.{
  Permits, init_conn_semaphore, Step, acquire, accepted, not_accepted, closed, Reach, here, next,
}

-- Every permit is free, held by the accepting loop or by a connection.
abbrev AllCounted : ℕ → Permits → Type 0
AllCounted max p = p.free + p.waiting + p.connected ≡ max

Step-AllCounted : {p q : Permits} (max : ℕ) → Step p q → AllCounted max p → AllCounted max q
Step-AllCounted max (acquire n e w) h = omega arith
Step-AllCounted max (accepted w) h = omega arith
Step-AllCounted max (not_accepted w) h = omega arith
Step-AllCounted max (closed n e) h = omega arith

Reach-AllCounted : (max : ℕ) {p : Permits} → Reach (init_conn_semaphore max) p → AllCounted max p
unfolding init_conn_semaphore
Reach-AllCounted max here = omega arith
Reach-AllCounted max (next r st) = Step-AllCounted max st (Reach-AllCounted max r)

full : (max : ℕ) (p : Permits) → AllCounted max p → (p.connected ≡ max) ⊎ (0 < p.free + p.waiting)
full max p h = elim (Bool-cases (ltb 0 (p.free + p.waiting))) [
  | inl e ↦ inr (ltb→lt 0 (p.free + p.waiting) e)
  | inr e ↦ inl (ground arith)
]

-- However connections come and go, there are never more than the semaphore was made for, and
-- where there are fewer, a permit is free or held by the loop that accepts.
pub Reach-connected :
    {p : Permits} (max : ℕ)
    → Reach (init_conn_semaphore max) p
    → (p.connected ≤ max) × ((p.connected ≡ max) ⊎ (0 < p.free + p.waiting))
Reach-connected max r = let h = Reach-AllCounted max r in (omega arith, full max _ h)
