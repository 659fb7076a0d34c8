-- ===== src/WorkerLease/Deadline.antt =====
-- `Next` never moves the deadline of its generator.
use Prim.Native.Nat.{Ordering}
use blabby.Prelude.{
  ℕ, ◌+◌, List, [], ◌∷◌, Option, none, some, ltb, Result, ok, err, ◌≡◌, refl, arith, ℤ, pos, negsuc,
  subst, if◌then◌else◌, Bool, true, false,
}
use blabby.Snowflake.{
  Generator, Error, Outcome, next, resolve, same_millis, after_spin, mint, spin_next_millis,
  compare_last, millis_since_epoch, clock_regression, max_sequence,
}

abbrev Keeps : Generator → Option (Outcome × List ℕ) → Type 0
Keeps g none = Unit
Keeps g (some ((r, g'), rest)) = g'.lease_deadline ≡ g.lease_deadline

module _ (g : Generator) where
  mint-keeps : (m seq : ℕ) → (mint g m seq).1.lease_deadline ≡ g.lease_deadline
  unfolding mint
  mint-keeps m seq = ground arith

  after_spin-Keeps : (spun : Option (Result Error ℕ × List ℕ)) → Keeps g (after_spin g spun)
  unfolding after_spin
  after_spin-Keeps none = tt
  after_spin-Keeps (some (ok m, tape)) = mint-keeps m 0
  after_spin-Keeps (some (err e, tape)) = refl

  if-Keeps :
      (t : Bool) (x y : Option (Outcome × List ℕ))
      → Keeps g x
      → Keeps g y
      → Keeps g (if t then x else y)
  if-Keeps true x y h k = h
  if-Keeps false x y h k = k

  same_millis-Keeps : (m : ℕ) (tape : List ℕ) → Keeps g (same_millis g m tape)
  unfolding same_millis
  same_millis-Keeps m tape =
      if-Keeps (ltb max_sequence (g.sequence + 1)) _ (some (mint g m (g.sequence + 1), tape))
        (after_spin-Keeps (spin_next_millis g m tape)) (mint-keeps m (g.sequence + 1))

  resolve-Keeps : (t : ℤ) (tape : List ℕ) → Keeps g (resolve g t tape)
  unfolding resolve
  resolve-Keeps (negsuc m) tape = refl
  resolve-Keeps (pos m) tape =
      elim (compare_last m g.last_millis)
        as (λ c. Keeps g (elim c [
          | Ordering.lt ↦ some ((err clock_regression, g), tape)
          | Ordering.eq ↦ same_millis g m tape
          | Ordering.gt ↦ some (mint g m 0, tape)
        ])) [
          | Ordering.lt ↦ refl
          | Ordering.eq ↦ same_millis-Keeps m tape
          | Ordering.gt ↦ mint-keeps m 0
        ]

  next-Keeps : (tape : List ℕ) → Keeps g (next g tape)
  unfolding next
  next-Keeps [] = tt
  next-Keeps (now ∷ tape) =
      if-Keeps (ltb now g.lease_deadline) _ _ (resolve-Keeps (millis_since_epoch g.epoch now) tape)
        refl

  pub next-deadline :
      (g' : Generator) (r : Result Error ℕ) (tape rest : List ℕ)
      → next g tape ≡ some ((r, g'), rest)
      → g'.lease_deadline ≡ g.lease_deadline
  next-deadline g' r tape rest e = subst (Keeps g) e (next-Keeps tape)
