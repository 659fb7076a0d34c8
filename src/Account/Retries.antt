-- ===== src/Account/Retries.antt =====
-- On the retries of a registration: which outcomes are retried, and how often.
use blabby.Prelude.{
  ℕ, zero, suc, ◌+◌, ◌-◌, ◌≤◌, List, [], ◌∷◌, Bool, true, false, Result, ok, err, ◌≡◌, refl, sym,
  ap, ◌∙◌, arith, ◌⊎◌, inl, inr, All,
}
use blabby.Account.World.{World, Error, Action, within_tx, mail_race, code_collision}
use blabby.Account.Registration.{verdict, follow, turn, turns, run_with_registration_retry}

-- The transaction of `op` fails with these errors, in this order, from the first state to the second.
abbrev pub Fails : {A : Type 0} → Action A → List Error → World → World → Type 0
Fails op [] w v = w ≡ v
Fails op (e ∷ es) w v = ((within_tx op w).0 ≡ err e) × Fails op es (within_tx op w).1 v

abbrev pub races : List Error → ℕ
races [] = 0
races (mail_race ∷ es) = 1 + races es
races (e ∷ es) = races es

abbrev pub collisions : List Error → ℕ
collisions [] = 0
collisions (code_collision ∷ es) = 1 + collisions es
collisions (e ∷ es) = collisions es

abbrev pub IsRetryable : Error → Type 0
IsRetryable e = (e ≡ mail_race) ⊎ (e ≡ code_collision)

-- One run of the loop that may retry `race` races and `left` collisions: the failures that it retried, and
-- the state in which it ran the transaction whose outcome it returns.
pub record Retried {A : Type 0} (op : Action A) (race left : ℕ) (w : World)
    (result : Result Error A × World) : Type 0 where
  pub failures : List Error
  pub last : World
  pub failed : Fails op failures w last
  pub retryable : All IsRetryable failures
  pub returned : result ≡ within_tx op last
  pub one_race : races failures ≤ race
  pub few_collisions : collisions failures ≤ left
  pub race_spent : (within_tx op last).0 ≡ err mail_race → races failures ≡ race
  pub collisions_spent : (within_tx op last).0 ≡ err code_collision → collisions failures ≡ left

abbrev may_race : Bool → ℕ
may_race true = 0
may_race false = 1

module _ {A : Type 0} (op : Action A) where
  -- The outcome is returned at once.
  at_once :
      (race left : ℕ) (w : World) (r : Result Error A × World)
      → within_tx op w ≡ r
      → (r.0 ≡ err mail_race → 0 ≡ race)
      → (r.0 ≡ err code_collision → 0 ≡ left)
      → Retried op race left w r
  at_once race left w r e no_race no_collision = record {
    failures = [];
    last = w;
    failed = refl;
    retryable = tt;
    returned = sym e;
    one_race = omega arith;
    few_collisions = omega arith;
    race_spent = λ h. no_race (ap (λ x. x.0) (sym e) ∙ h);
    collisions_spent = λ h. no_collision (ap (λ x. x.0) (sym e) ∙ h);
  }

  -- A race, and what follows it.
  race_first :
      (left : ℕ) (w v : World) (result : Result Error A × World)
      → within_tx op w ≡ (err mail_race, v)
      → Retried op 0 left v result
      → Retried op 1 left w result
  race_first left w v result e r = record {
    failures = mail_race ∷ r.failures;
    last = r.last;
    failed = rw e (refl, r.failed);
    retryable = (inl refl, r.retryable);
    returned = r.returned;
    one_race = let h = r.one_race in omega (arith, h);
    few_collisions = r.few_collisions;
    race_spent = λ h. let k = r.race_spent h in omega (arith, k);
    collisions_spent = r.collisions_spent;
  }

  -- A collision, and what follows it.
  collision_first :
      (race left : ℕ) (w v : World) (result : Result Error A × World)
      → within_tx op w ≡ (err code_collision, v)
      → Retried op race (suc left - 1) v result
      → Retried op race (suc left) w result
  collision_first race left w v result e r = record {
    failures = code_collision ∷ r.failures;
    last = r.last;
    failed = rw e (refl, r.failed);
    retryable = (inr refl, r.retryable);
    returned = r.returned;
    one_race = r.one_race;
    few_collisions = let h = r.few_collisions in omega (arith, h);
    race_spent = r.race_spent;
    collisions_spent = λ h. let k = r.collisions_spent h in omega (arith, k);
  }

  -- What follows one turn, if `again` does what is left to do.
  followed :
      (again : Bool → ℕ → Action A) (retried : Bool) (left : ℕ) (w : World)
      → ((b : Bool) (l : ℕ) (v : World)
          → 1 + (may_race b + l) ≤ may_race retried + left
          → Retried op (may_race b) l v (again b l v))
      → (r : Result Error A × World) → within_tx op w ≡ r
      → Retried op
          (may_race retried)
          left
          w
          (follow again retried left r (verdict retried left r.0))
  unfolding verdict
  followed again true left w h (err mail_race, v) e =
      at_once 0 left w _ e (λ k. refl) (λ k. absurd (ground arith))
  followed again false left w h (err mail_race, v) e =
      race_first left w v _ e (h true left v (omega arith))
  followed again retried zero w h (err code_collision, v) e =
      at_once _ 0 w _ e (λ k. absurd (ground arith)) (λ k. refl)
  followed again retried (suc left) w h (err code_collision, v) e =
      collision_first _ left w v _ e (h retried (suc left - 1) v (omega arith))
  followed again retried left w h (ok a, v) e =
      at_once _ left w _ e (λ k. absurd (ground arith)) (λ k. absurd (ground arith))
  followed again retried left w h (err x, v) e =
      at_once _ left w _ e (λ k. absurd (ground arith)) (λ k. absurd (ground arith))

  turns-Retried :
      (fuel : ℕ) (retried : Bool) (left : ℕ) (w : World)
      → may_race retried + left ≤ fuel
      → Retried op (may_race retried) left w (turns fuel retried left op w)
  unfolding turns turn
  turns-Retried zero true zero w h = at_once 0 0 w _ refl (λ k. refl) (λ k. refl)
  turns-Retried zero true (suc left) w h = absurd (omega arith)
  turns-Retried zero false left w h = absurd (omega arith)
  turns-Retried (suc fuel) retried left w h =
      followed (λ b l. turns fuel b l op) retried left w
        (λ b l v less. turns-Retried fuel b l v (omega (arith, less))) (within_tx op w) refl

-- The loop returns the outcome of a transaction before which only races and collisions failed: at most one
-- race, and at most as many collisions as the policy allows. It returns a race only after it has retried one,
-- and a collision only after it has retried as many as the policy allows.
pub run_with_registration_retry-Retried :
    {A : Type 0} (collision_retries : ℕ) (op : Action A) (w : World)
    → Retried op 1 collision_retries w (run_with_registration_retry collision_retries op w)
unfolding run_with_registration_retry
run_with_registration_retry-Retried collision_retries op w =
    turns-Retried op (suc collision_retries) false collision_retries w (omega arith)
