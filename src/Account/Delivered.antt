-- ===== src/Account/Delivered.antt =====
-- On successful registrations: what they commit, and what they hand to the sender.
use blabby.Prelude.{
  ℕ, zero, suc, ◌-◌, List, ◌∷◌, Option, none, some, Bool, true, false, Result, ok, err, ◌≡◌, refl,
  sym, subst, arith,
}
use blabby.Text.{Bytes}
use blabby.Auth.Password.{Crypto}
use blabby.Account.World.{Delivery, World, Error, Action, within_tx}
use blabby.Account.Registration.{
  RegistrationPolicy, RegisterParams, register_op, register, Verdict, after_race, after_collision,
  verdict, follow, turn, turns, run_with_registration_retry, deliver, send,
}
use blabby.Account.Triples.{Post}
use blabby.Account.Landing.{within_tx-Landed}
use blabby.Account.Issued.{Any}
use blabby.Account.Issuing.{Delivers, Registered, register_op-Delivers}

-- A result that the loop returns is that of one of its transactions.
abbrev Ran : {A : Type 0} → Action A → A → World → Type 0
Ran op a w' = (w : World) × ((within_tx op w).0 ≡ ok a) × (w' ≡ (within_tx op w).1)

follow-Ran :
    {A : Type 0} (again : Bool → ℕ → Action A) (retried : Bool) (left : ℕ) (op : Action A)
    (w : World) (a : A)
    → ((b : Bool) (l : ℕ) (w' : World) → (again b l w').0 ≡ ok a → Ran op a (again b l w').1)
    → (v : Verdict) → (follow again retried left (within_tx op w) v).0 ≡ ok a
    → Ran op a (follow again retried left (within_tx op w) v).1
follow-Ran again retried left op w a h Verdict.return e = (w, e, refl)
follow-Ran again retried left op w a h after_race e = h true left (within_tx op w).1 e
follow-Ran again retried left op w a h after_collision e = h retried (left - 1) (within_tx op w).1 e

turns-Ran :
    {A : Type 0} (fuel : ℕ) (retried : Bool) (left : ℕ) (op : Action A) (w : World) (a : A)
    → (turns fuel retried left op w).0 ≡ ok a
    → Ran op a (turns fuel retried left op w).1
unfolding turns turn
turns-Ran zero retried left op w a e = (w, e, refl)
turns-Ran (suc fuel) retried left op w a e =
    follow-Ran (λ b l. turns fuel b l op) retried left op w a
      (λ b l w' e'. turns-Ran fuel b l op w' a e') (verdict retried left (within_tx op w).0) e

module _ (crypto : Crypto) (policy : RegistrationPolicy) where
  -- What the transaction of a registration has committed.
  op-Delivers :
      (params : RegisterParams) (answer : Bytes × Option Delivery) (w : World)
      → (within_tx (register_op crypto policy params) w).0 ≡ ok answer
      → Delivers crypto policy params.mail_address answer
          (within_tx (register_op crypto policy params) w).1.committed
  op-Delivers params answer w e =
      let op = register_op crypto policy params in
      let (w', same, run, c, t, n) = within_tx-Landed op w answer e in
      subst (Delivers crypto policy params.mail_address answer) (sym c)
        (ended (op w') run (register_op-Delivers crypto policy params w'))
    where
      ended :
          (r : Result Error (Bytes × Option Delivery) × World)
          → r.0 ≡ ok answer
          → Post Any (Registered crypto policy params.mail_address) r
          → Delivers crypto policy params.mail_address answer r.1.tables
      ended (ok b, w) e h =
          subst (λ b. Delivers crypto policy params.mail_address b w.tables) (ground arith) h
      ended (err x, w) e h = absurd (ground arith)

  -- The PIN on top of the outbox.
  abbrev pub Sent : Bytes → Bytes → World → Type 0
  Sent mail code w =
      (d : Delivery) × ((rest : List Delivery) × (w.outbox ≡ d ∷ rest))
      × Delivers crypto policy mail (code, some d) w.committed

  deliver-Sent :
      (mail code : Bytes) (r : Result Error (Bytes × Option Delivery) × World)
      → ((answer : Bytes × Option Delivery)
          → r.0 ≡ ok answer
          → Delivers crypto policy mail answer r.1.committed)
      → (deliver r).0 ≡ ok code
      → Sent mail code (deliver r).1
  unfolding send
  deliver-Sent mail code (ok (c, some d), w) h e = (
    d,
    (w.outbox, refl),
    subst (λ c. Delivers crypto policy mail (c, some d) w.committed) (ground arith)
        (h (c, some d) refl),
  )
  deliver-Sent mail code (ok (c, none), w) h e = absurd (h (c, none) refl)
  deliver-Sent mail code (err x, w) h e = absurd (ground arith)

-- A registration that returns the code `code` has handed a PIN for the address to the sender, and has
-- committed a pending account with that code, the one that the address leads to, whose challenge holds
-- a bcrypt hash of that PIN, has no failed attempt and expires `pin_ttl` after it was sent.
pub register-Sent :
    (crypto : Crypto) (policy : RegistrationPolicy) (params : RegisterParams) (w : World)
    (code : Bytes)
    → (register crypto policy params w).0 ≡ ok code
    → Sent crypto policy params.mail_address code (register crypto policy params w).1
unfolding register run_with_registration_retry
register-Sent crypto policy params w code e =
    deliver-Sent crypto policy params.mail_address code r
      (λ answer run.
        let (w', ran, same) = ran_of answer run in
        rw same (op-Delivers crypto policy params answer w' ran))
      e
  where
    r : Result Error (Bytes × Option Delivery) × World
    r =
        turns (suc policy.collision_retries) false policy.collision_retries
          (register_op crypto policy params) w

    ran_of :
        (answer : Bytes × Option Delivery)
        → r.0 ≡ ok answer
        → Ran (register_op crypto policy params) answer r.1
    ran_of answer =
        turns-Ran (suc policy.collision_retries) false policy.collision_retries
          (register_op crypto policy params) w answer
