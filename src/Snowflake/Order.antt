-- ===== src/Snowflake/Order.antt =====
-- The invariant of a generator, and the order of the ids that it mints.
use blabby.Prelude.{
  subst, ℕ, ◌+◌, ◌≤◌, ◌<◌, ◌/◌, ◌%◌, ◌^◌, ◌≡◌, ◌⊎◌, inl, inr, List, [], ◌∷◌, Option, none, some,
  arith, ltb, ℤ, pos, negsuc, Result, ok, err, refl, ap, ◌∙◌, sym, Bool-cases,
}
use Prim.Native.Nat.{compare, Ordering}
use blabby.Snowflake.Layout.{compose-sum, compose-fields}
use blabby.Snowflake.{
  clock_regression, Generator, Error, Outcome, compose, mint, after_spin, same_millis, resolve,
  next, spin_next_millis, millis_since_epoch, max_timestamp, max_worker_id, max_sequence,
}

abbrev LastFits : ℤ → Type 0
LastFits (pos m) = m ≤ max_timestamp
LastFits (negsuc m) = Unit {0}

pub record IsValid (g : Generator) : Type 0 where
  pub worker_fits : g.worker_id ≤ max_worker_id
  pub sequence_fits : g.sequence ≤ max_sequence
  pub last_fits : LastFits g.last_millis

-- The id that was minted last, or 0.
abbrev id_of_last : ℤ → ℕ → ℕ → ℕ
id_of_last (negsuc m) worker seq = 0
id_of_last (pos m) worker seq = compose m worker seq

abbrev pub last_id : Generator → ℕ
last_id g = id_of_last g.last_millis g.worker_id g.sequence

-- What one call of `next` leaves behind.
pub record Minted (g : Generator) (id : ℕ) (g' : Generator) : Type 0 where
  pub valid : IsValid g'
  pub above : last_id g < id
  pub recorded : last_id g' ≡ id
  pub fits : id < 2 ^ 63
  pub worker : g'.worker_id ≡ g.worker_id
  pub field : id / 2 ^ 12 % 2 ^ 10 ≡ g.worker_id

abbrev pub Steps : Generator → Result Error ℕ → Generator → Type 0
Steps g (ok id) g' = Minted g id g'
Steps g (err e) g' = g' ≡ g

-- What a call of `next` leaves behind, if it returns.
abbrev pub Leaves : Generator → Option (Outcome × List ℕ) → Type 0
Leaves g none = Unit
Leaves g (some (o, rest)) = Steps g o.0 o.1

compare-cases :
    (a b : ℕ)
    → ((a < b) × (compare a b ≡ Ordering.lt))
      ⊎ ((a ≡ b) × (compare a b ≡ Ordering.eq))
      ⊎ ((b < a) × (compare a b ≡ Ordering.gt))
compare-cases a b = go (compare a b) refl
  where
    go :
        (o : Ordering)
        → compare a b ≡ o
        → ((a < b) × (compare a b ≡ Ordering.lt))
          ⊎ ((a ≡ b) × (compare a b ≡ Ordering.eq))
          ⊎ ((b < a) × (compare a b ≡ Ordering.gt))
    go Ordering.lt e = inl (ground arith, e)
    go Ordering.eq e = inr (inl (ground arith, e))
    go Ordering.gt e = inr (inr (ground arith, e))

module _ (g : Generator) (v : IsValid g) where
  mint-Steps :
      (millis seq : ℕ)
      → seq ≤ max_sequence
      → (last_id g < compose millis g.worker_id seq) ⊎ (last_id g ≡ 0)
      → Steps g (mint g millis seq).0 (mint g millis seq).1
  unfolding mint
  mint-Steps millis seq hs newer = ground (arith, compose-fields millis g.worker_id seq)

  spin-above :
      (after : ℕ) (tape : List ℕ) {m : ℕ} {rest : List ℕ}
      → spin_next_millis g after tape ≡ some (ok m, rest)
      → after < m
  unfolding spin_next_millis
  spin-above after [] h = cc
  spin-above after (now ∷ tape) {m = m} {rest = rest} h =
      ground (arith, spin-above after tape {m = m} {rest = rest})

  later_mint-Leaves :
      (last millis : ℕ) (rest : List ℕ)
      → g.last_millis ≡ pos last
      → last < millis
      → Leaves g (some (mint g millis 0, rest))
  later_mint-Leaves last millis rest e lt = mint-Steps millis 0 (omega arith) (
      inl (
        rw e (
          ground
            (arith, v, compose-sum last g.worker_id g.sequence, compose-sum millis g.worker_id 0))))

  after_spin-Leaves :
      (last : ℕ) (spun : Option (Result Error ℕ × List ℕ))
      → g.last_millis ≡ pos last
      → ((m : ℕ) (rest : List ℕ) → spun ≡ some (ok m, rest) → last < m)
      → Leaves g (after_spin g spun)
  unfolding after_spin
  after_spin-Leaves last none e above = tt
  after_spin-Leaves last (some (ok m, rest)) e above =
      later_mint-Leaves last m rest e (above m rest refl)
  after_spin-Leaves last (some (err x, rest)) e above = refl

  same_millis-Leaves :
      (millis : ℕ) (tape : List ℕ)
      → g.last_millis ≡ pos millis
      → Leaves g (same_millis g millis tape)
  unfolding same_millis
  same_millis-Leaves millis tape e = elim (Bool-cases (ltb max_sequence (g.sequence + 1))) [
    | inl full ↦ rw full (
        after_spin-Leaves millis (spin_next_millis g millis tape) e
          (λ m rest h. spin-above millis tape h))
    | inr room ↦ rw room (
        mint-Steps millis (g.sequence + 1) (ground arith) (
          inl (
            rw e (
              ground (
                arith,
                compose-sum millis g.worker_id g.sequence,
                compose-sum millis g.worker_id (g.sequence + 1),
              )))))
  ]

  resolve-Leaves : (now : ℤ) (tape : List ℕ) → Leaves g (resolve g now tape)
  unfolding resolve
  resolve-Leaves (negsuc m) tape = refl
  resolve-Leaves (pos millis) tape = go g.last_millis refl
    where
      first :
          (n : ℕ)
          → g.last_millis ≡ negsuc n
          → resolve g (pos millis) tape ≡ some (mint g millis 0, tape)
      first n e = ground arith

      regressed :
          (last : ℕ)
          → g.last_millis ≡ pos last
          → compare millis last ≡ Ordering.lt
          → resolve g (pos millis) tape ≡ some ((err clock_regression, g), tape)
      regressed last e c = ground arith

      same :
          (last : ℕ)
          → g.last_millis ≡ pos last
          → compare millis last ≡ Ordering.eq
          → resolve g (pos millis) tape ≡ same_millis g millis tape
      same last e c = ground arith

      fresh :
          (last : ℕ)
          → g.last_millis ≡ pos last
          → compare millis last ≡ Ordering.gt
          → resolve g (pos millis) tape ≡ some (mint g millis 0, tape)
      fresh last e c = ground arith

      go : (last : ℤ) → g.last_millis ≡ last → Leaves g (resolve g (pos millis) tape)
      go (negsuc n) e =
          subst (Leaves g) (sym (first n e))
            (mint-Steps millis 0 (omega arith) (inr (ground arith)))
      go (pos last) e = elim (compare-cases millis last) [
        | inl less ↦ subst (Leaves g) (sym (regressed last e less.1)) refl
        | inr (inl even) ↦
            subst (Leaves g) (sym (same last e even.1))
              (same_millis-Leaves millis tape (e ∙ ap pos (sym even.0)))
        | inr (inr more) ↦
            subst (Leaves g) (sym (fresh last e more.1))
              (later_mint-Leaves last millis tape e more.0)
      ]

  -- Every call of `next` that returns either fails and leaves the generator as it was, or mints an
  -- id that is positive, fits 63 bits, carries the worker id in its field, and is greater than the
  -- id that was minted before it.
  pub next-Leaves : (tape : List ℕ) → Leaves g (next g tape)
  unfolding next
  next-Leaves [] = tt
  next-Leaves (now ∷ tape) = elim (Bool-cases (ltb now g.lease_deadline)) [
    | inl held ↦ rw held (resolve-Leaves (millis_since_epoch g.epoch now) tape)
    | inr lapsed ↦ rw lapsed
  ]
