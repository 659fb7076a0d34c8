-- ===== src/Snowflake/Fencing.antt =====
-- Fail-closed minting: what the lease deadline guarantees of `Next`.
use Prim.Native.Nat.{Ordering}
use blabby.Prelude.{
  ℕ, ◌+◌, ◌/◌, ◌^◌, ◌≤◌, ◌<◌, ◌≡◌, List, [], ◌∷◌, ◌++◌, Option, none, some, arith, Result, ok, err,
  refl, ltb, ℤ, pos, negsuc, Bool-cases, inl, inr, Memᴰ, subst, sym, true, false, Bool, ◌⊎◌,
  if◌then◌else◌,
}
use blabby.Snowflake.{
  Generator, Error, Outcome, clock_regression, compare_last, lease_expired, next, resolve,
  same_millis, after_spin, mint, spin_next_millis, millis_since_epoch, later_than, max_sequence,
}
use blabby.Snowflake.Order.{IsValid}
use blabby.Snowflake.Layout.{compose-fields}

-- A reading of the tape that is before the deadline and shows the millisecond `m`.
pub record Witness (g : Generator) (tape : List ℕ) (m : ℕ) : Type 0 where
  pub reading : ℕ
  pub on_tape : Memᴰ reading tape
  pub before_deadline : reading < g.lease_deadline
  pub shows : millis_since_epoch g.epoch reading ≡ pos m

abbrev Witnessed : Generator → List ℕ → Option (Outcome × List ℕ) → Type 0
Witnessed g tape (some ((ok id, g'), rest)) = Witness g tape (id / 2 ^ 22)
Witnessed g tape _ = Unit

module _ {g : Generator} {tape : List ℕ} where
  Witness-tail : {m : ℕ} (now : ℕ) → Witness g tape m → Witness g (now ∷ tape) m
  Witness-tail now w = record {
    reading = w.reading;
    on_tape = Memᴰ.tail w.on_tape;
    before_deadline = w.before_deadline;
    shows = w.shows;
  }

  Witness-head :
      {m now : ℕ}
      → now < g.lease_deadline
      → millis_since_epoch g.epoch now ≡ pos m
      → Witness g (now ∷ tape) m
  Witness-head {now = now} h e = record {
    reading = now;
    on_tape = Memᴰ.head refl;
    before_deadline = h;
    shows = e;
  }

Witnessed-ok :
    (g g' : Generator) (tape rest : List ℕ) (r : Result Error ℕ) (m : ℕ)
    → ((id : ℕ) → r ≡ ok id → id / 2 ^ 22 ≡ m)
    → Witness g tape m
    → Witnessed g tape (some ((r, g'), rest))
Witnessed-ok g g' tape rest (ok id) m h w = subst (Witness g tape) (sym (h id refl)) w
Witnessed-ok g g' tape rest (err e) m h w = tt

module _ (g : Generator) (v : IsValid g) where
  mint-Witnessed :
      (tape rest : List ℕ) (m seq : ℕ)
      → seq ≤ max_sequence
      → Witness g tape m
      → Witnessed g tape (some (mint g m seq, rest))
  mint-Witnessed tape rest m seq hs w =
      Witnessed-ok g (mint g m seq).1 tape rest (mint g m seq).0 m (λ id e. field id e) w
    where
      field : (id : ℕ) → (mint g m seq).0 ≡ ok id → id / 2 ^ 22 ≡ m
      field id e = unfold mint in ground (arith, compose-fields m g.worker_id seq)

  spin-inv :
      (after now : ℕ) (tape : List ℕ) (m : ℕ) (rest : List ℕ)
      → spin_next_millis g after (now ∷ tape) ≡ some (ok m, rest)
      → ((now < g.lease_deadline) × (millis_since_epoch g.epoch now ≡ pos m))
        ⊎ (spin_next_millis g after tape ≡ some (ok m, rest))
  unfolding spin_next_millis
  spin-inv after now tape m rest h = ground arith

  spin-Witness :
      (after : ℕ) (tape : List ℕ) {m : ℕ} {rest : List ℕ}
      → spin_next_millis g after tape ≡ some (ok m, rest)
      → Witness g tape m
  unfolding spin_next_millis
  spin-Witness after [] h = cc
  spin-Witness after (now ∷ tape) {m = m} {rest = rest} h =
      elim (spin-inv after now tape m rest h) [
        | inl here ↦ Witness-head here.0 here.1
        | inr later ↦ Witness-tail now (spin-Witness after tape later)
      ]

  after_spin-Witnessed :
      (tape : List ℕ) (spun : Option (Result Error ℕ × List ℕ))
      → ((m : ℕ) (rest : List ℕ) → spun ≡ some (ok m, rest) → Witness g tape m)
      → Witnessed g tape (after_spin g spun)
  unfolding after_spin
  after_spin-Witnessed tape none h = tt
  after_spin-Witnessed tape (some (ok m, rest)) h =
      mint-Witnessed tape rest m 0 (omega arith) (h m rest refl)
  after_spin-Witnessed tape (some (err e, rest)) h = tt

  resolve-Witnessed :
      (now : ℕ) (tape : List ℕ) (t : ℤ)
      → now < g.lease_deadline
      → millis_since_epoch g.epoch now ≡ t
      → Witnessed g (now ∷ tape) (resolve g t tape)
  unfolding resolve
  resolve-Witnessed now tape (negsuc m) h e = tt
  resolve-Witnessed now tape (pos m) h e =
      elim (compare_last m g.last_millis)
        as (λ o. Witnessed g (now ∷ tape) (elim o [
          | Ordering.lt ↦ some ((err clock_regression, g), tape)
          | Ordering.eq ↦ same_millis g m tape
          | Ordering.gt ↦ some (mint g m 0, tape)
        ])) [
          | Ordering.lt ↦ tt
          | Ordering.eq ↦ same
          | Ordering.gt ↦ mint-Witnessed (now ∷ tape) tape m 0 (omega arith) (Witness-head h e)
        ]
    where
      same : Witnessed g (now ∷ tape) (same_millis g m tape)
      same =
          unfold same_millis in
          elim (Bool-cases (ltb max_sequence (g.sequence + 1))) [
            | inl full ↦ rw full (
                after_spin-Witnessed (now ∷ tape) (spin_next_millis g m tape)
                  (λ k rest p. Witness-tail now (spin-Witness m tape p)))
            | inr room ↦ rw room (
                mint-Witnessed (now ∷ tape) tape m (g.sequence + 1) (ground arith)
                  (Witness-head h e))
          ]

  next-Witnessed : (tape : List ℕ) → Witnessed g tape (next g tape)
  unfolding next
  next-Witnessed [] = tt
  next-Witnessed (now ∷ tape) = elim (Bool-cases (ltb now g.lease_deadline)) [
    | inl held ↦
        rw held (resolve-Witnessed now tape (millis_since_epoch g.epoch now) (ground arith) refl)
    | inr lapsed ↦ rw lapsed tt
  ]

-- An id is minted only under the lease: its timestamp field is the millisecond that one of the
-- clock's readings shows, and that reading is before the deadline.
pub minted_under_lease :
    (g g' : Generator) (tape rest : List ℕ) (id : ℕ)
    → IsValid g
    → next g tape ≡ some ((ok id, g'), rest)
    → Witness g tape (id / 2 ^ 22)
minted_under_lease g g' tape rest id v e = subst (Witnessed g tape) e (next-Witnessed g v tape)

-- At or past the deadline, `Next` fails with `lease_expired`, whatever the state, and changes
-- nothing.
pub next_past_deadline :
    (g : Generator) (now : ℕ) (tape : List ℕ)
    → g.lease_deadline ≤ now
    → next g (now ∷ tape) ≡ some ((err lease_expired, g), tape)
unfolding next
next_past_deadline g now tape h = ground arith

-- Two tests in front of a call that returns.
choose :
    {A : Type 0} (held passed : Bool) (now late : A) {spun : Option A} (r : A)
    → spun ≡ some r
    → (s : A) × ((if held then (if passed then some now else spun) else some late) ≡ some s)
choose true true now late r e = (now, refl)
choose true false now late r e = (r, e)
choose false passed now late r e = (late, refl)

-- A clock that reaches the deadline ends every call, also one that waits for the next millisecond.
module _ (g : Generator) where
  spin-returns :
      (after : ℕ) (before tape : List ℕ) (now : ℕ)
      → g.lease_deadline ≤ now
      → (r : Result Error ℕ × List ℕ) × (spin_next_millis g after (before ++ now ∷ tape) ≡ some r)
  unfolding spin_next_millis
  spin-returns after [] tape now h = ((err lease_expired, tape), ground arith)
  spin-returns after (b ∷ before) tape now h =
      let (r, e) = spin-returns after before tape now h in
      choose (ltb b g.lease_deadline) (later_than after (millis_since_epoch g.epoch b)) _ _ r e

  after_spin-returns :
      (spun : Option (Result Error ℕ × List ℕ)) (r : Result Error ℕ × List ℕ)
      → spun ≡ some r
      → (o : Outcome × List ℕ) × (after_spin g spun ≡ some o)
  unfolding after_spin
  after_spin-returns none r e = cc
  after_spin-returns (some (ok m, rest)) r e = ((mint g m 0, rest), refl)
  after_spin-returns (some (err x, rest)) r e = (((err x, g), rest), refl)

  same_millis-returns :
      (m : ℕ) (before tape : List ℕ) (now : ℕ)
      → g.lease_deadline ≤ now
      → (o : Outcome × List ℕ) × (same_millis g m (before ++ now ∷ tape) ≡ some o)
  unfolding same_millis
  same_millis-returns m before tape now h =
      let (r, e) = spin-returns m before tape now h in
      elim (Bool-cases (ltb max_sequence (g.sequence + 1))) [
        | inl full ↦ rw full (after_spin-returns (spin_next_millis g m (before ++ now ∷ tape)) r e)
        | inr room ↦ rw room ((mint g m (g.sequence + 1), before ++ now ∷ tape), refl)
      ]

  resolve-returns :
      (t : ℤ) (before tape : List ℕ) (now : ℕ)
      → g.lease_deadline ≤ now
      → (o : Outcome × List ℕ) × (resolve g t (before ++ now ∷ tape) ≡ some o)
  unfolding resolve
  resolve-returns (negsuc m) before tape now h = (_, refl)
  resolve-returns (pos m) before tape now h =
      elim (compare_last m g.last_millis)
        as (λ c.
          (o : Outcome × List ℕ) × ((elim c [
            | Ordering.lt ↦ some ((err clock_regression, g), before ++ now ∷ tape)
            | Ordering.eq ↦ same_millis g m (before ++ now ∷ tape)
            | Ordering.gt ↦ some (mint g m 0, before ++ now ∷ tape)
          ])
            ≡ some o)) [
              | Ordering.lt ↦ (_, refl)
              | Ordering.eq ↦ same_millis-returns m before tape now h
              | Ordering.gt ↦ (_, refl)
            ]

  -- `Next` returns, with an id or an error, as soon as the clock reaches the deadline: a wait for
  -- the next millisecond cannot outlive the lease.
  pub next-returns :
      (before tape : List ℕ) (now : ℕ)
      → g.lease_deadline ≤ now
      → (o : Outcome × List ℕ) × (next g (before ++ now ∷ tape) ≡ some o)
  unfolding next
  next-returns [] tape now h = (_, next_past_deadline g now tape h)
  next-returns (b ∷ before) tape now h = elim (Bool-cases (ltb b g.lease_deadline)) [
    | inl held ↦ rw held (resolve-returns (millis_since_epoch g.epoch b) before tape now h)
    | inr lapsed ↦ rw lapsed (_, refl)
  ]
