-- ===== src/Account/Triples.antt =====
-- What an action makes of the tables: rules for proving that a transaction keeps a property of them.
use blabby.Prelude.{List, [], ◌∷◌, Bool, true, false, Result, ok, err, ◌≡◌, refl, arith}
use blabby.Account.World.{
  Tables, World, Error, Action, continue, ◌>>=◌, pure, statement, end_tx, within_tx, finish_commit,
  read_clock, commit, answered_commit,
}

-- The committed tables and those that the transaction sees.
abbrev pub Assertion : Type 1
Assertion = Tables → Tables → Type 0

abbrev pub At : Assertion → World → Type 0
At P w = P w.committed w.tables

abbrev pub Same : World → World → Type 0
Same w w' = (w'.committed ≡ w.committed) × (w'.tables ≡ w.tables)

-- The action reads its environment, and leaves the tables alone.
abbrev pub Reads : {A : Type 0} → Action A → Type 0
Reads m = (w : World) → Same w (m w).1

-- A statement fails, if it is due to, or it runs.
pub statement-split :
    {A : Type 0} (P : Result Error A × World → Type 0) (run : Action A) (w : World)
    → ((rest : List Bool)
        → w.faults ≡ true ∷ rest
        → P (err Error.database, record w { faults = rest }))
    → ((rest : List Bool) → P (run (record w { faults = rest })))
    → P (statement run w)
unfolding statement
statement-split P run w failed ran = go w.faults refl
  where
    go :
        (faults : List Bool)
        → w.faults ≡ faults
        → P (elim faults [
          | [] ↦ run w
          | fails ∷ rest ↦ elim fails [
            | true ↦ (err Error.database, record w { faults = rest })
            | false ↦ run (record w { faults = rest })
          ]
        ])
    go [] e = ran w.faults
    go (true ∷ rest) e = failed rest e
    go (false ∷ rest) e = ran rest

pub statement-cases :
    {A : Type 0} (P : Result Error A × World → Type 0) (run : Action A) (w : World)
    → ((rest : List Bool) → P (err Error.database, record w { faults = rest }))
    → ((rest : List Bool) → P (run (record w { faults = rest })))
    → P (statement run w)
statement-cases P run w failed ran = statement-split P run w (λ rest e. failed rest) ran

pub statement-Reads : {A : Type 0} (m : Action A) → Reads m → Reads (statement m)
statement-Reads m h w =
    statement-cases (λ r. Same w r.1) m w (λ rest. (refl, refl))
      (λ rest. h (record w { faults = rest }))

pub pure-Reads : {A : Type 0} (a : A) → Reads (pure a)
pure-Reads a w = (refl, refl)

module _ (Inv : Tables → Type 0) where
  abbrev pub Both : Assertion
  Both committed tables = Inv committed × Inv tables

  abbrev pub Post : {A : Type 0} → (A → Assertion) → Result Error A × World → Type 0
  Post Q (ok a, w) = At (Q a) w
  Post Q (err e, w) = Inv w.committed

  -- From `P`, the action ends in `Q`, or fails with the committed tables still right.
  abbrev pub Triple : {A : Type 0} → Assertion → (A → Assertion) → Action A → Type 0
  Triple P Q m = (w : World) → At P w → Post Q (m w)

  pub Post-continue :
      {A B : Type 0} (Q : A → Assertion) (R : B → Assertion) (f : A → Action B)
      (r : Result Error A × World)
      → Post Q r
      → ((a : A) → Triple (Q a) R (f a))
      → Post R (continue r.0 f r.1)
  Post-continue Q R f (ok a, w) h g = g a w h
  Post-continue Q R f (err e, w) h g = h

  pub Triple-bind :
      {A B : Type 0} (P : Assertion) (Q : A → Assertion) (R : B → Assertion) (m : Action A)
      (f : A → Action B)
      → Triple P Q m
      → ((a : A) → Triple (Q a) R (f a))
      → Triple P R (m >>= f)
  Triple-bind P Q R m f h g w p = Post-continue Q R f (m w) (h w p) g

  reads-Post :
      {A : Type 0} (P : Assertion) (w : World) (r : Result Error A × World)
      → ((c t : Tables) → P c t → Inv c)
      → Same w r.1
      → At P w
      → Post (λ _. P) r
  reads-Post P w (ok a, w') safe (c, t) p = rw (c, t) p
  reads-Post P w (err e, w') safe (c, t) p = rw c (safe w.committed w.tables p)

  -- A reading before the rest.
  pub Triple-Reads :
      {A B : Type 0} (P : Assertion) (R : B → Assertion) (m : Action A) (f : A → Action B)
      → ((c t : Tables) → P c t → Inv c)
      → Reads m
      → ((a : A) → Triple P R (f a))
      → Triple P R (m >>= f)
  Triple-Reads P R m f safe h g w p =
      Post-continue (λ _. P) R f (m w) (reads-Post P w (m w) safe (h w) p) g

  pub Triple-statement :
      {A : Type 0} (P : Assertion) (Q : A → Assertion) (run : Action A)
      → ((c t : Tables) → P c t → Inv c)
      → Triple P Q run
      → Triple P Q (statement run)
  Triple-statement P Q run safe h w p =
      statement-cases (Post Q) run w (λ rest. safe w.committed w.tables p)
        (λ rest. h (record w { faults = rest }) p)

  committed-Post :
      {A : Type 0} (a : A) (w : World) → At Both w → Post (λ _. Both) (statement (commit a) w)
  committed-Post a = Triple-statement Both (λ _. Both) (commit a) (λ c t h. h.0) (λ w h. (h.1, h.1))

  answered-Post :
      {A : Type 0} (a : A) (w : World) → At Both w → Post (λ _. Both) (answered_commit a w)
  unfolding answered_commit
  answered-Post a w h =
      Post-continue (λ _. Both) (λ _. Both) (λ b. statement (pure b)) _ (committed-Post a w h)
        (λ b. Triple-statement Both (λ _. Both) (pure b) (λ c t h. h.0) (λ w h. h))

  finish_commit-Both :
      {A : Type 0} (r : Result Error A × World) → Post (λ _. Both) r → At Both (finish_commit r).1
  finish_commit-Both (ok a, w) h = h
  finish_commit-Both (err e, w) h = (h, h)

  end_tx-Both :
      {A : Type 0} (r : Result Error A × World) → Post (λ _. Both) r → At Both (end_tx r).1
  unfolding end_tx
  end_tx-Both (err e, w) h = (h, h)
  end_tx-Both (ok a, w) h = finish_commit-Both (answered_commit a w) (answered-Post a w h)

  begun-Both :
      {A : Type 0} (body : Action A) (r : Result Error (Unit {0}) × World)
      → Triple Both (λ _. Both) body
      → At Both r.1
      → At Both (continue r.0 (λ _ w. end_tx (body w)) r.1).1
  begun-Both body (ok _, w) h both = end_tx-Both (body w) (h w both)
  begun-Both body (err e, w) h both = both

  -- A transaction whose body keeps the property keeps it, however it ends.
  pub within_tx-Both :
      {A : Type 0} (body : Action A) (w : World)
      → Triple Both (λ _. Both) body
      → At Both w
      → At Both (within_tx body w).1
  unfolding within_tx
  within_tx-Both body w h both =
      begun-Both body (statement (pure tt) w) h
        (same (statement-Reads (pure tt) (pure-Reads tt) w) both)
    where
      same :
          Same w (statement (pure {A = Unit {0}} tt) w).1
          → At Both w
          → At Both (statement (pure {A = Unit {0}} tt) w).1
      same (c, t) p = rw (c, t) p

pub read_clock-Reads : Reads read_clock
unfolding read_clock
read_clock-Reads w = ground arith
