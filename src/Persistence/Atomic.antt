-- ===== src/Persistence/Atomic.antt =====
-- What a transaction leaves in each of its outcomes, the lost answer of a commit among them.
use blabby.Prelude.{List, [], ◌∷◌, Bool, true, false, Result, ok, err, ◌≡◌, ◌⊎◌, inl, inr, refl}
use blabby.Room.Ports.{StoreError, database}
use blabby.Persistence.Rows.{Row}
use blabby.Persistence.Sql.{
  Db, Sql, EventRow, statement, end_tx, within_tx, finish_commit, pure, continue,
}

-- Both tables hold what they held.
abbrev pub SameTables : Db → Db → Type 0
SameTables before after = (after.rows ≡ before.rows) × (after.events ≡ before.events)

-- What a call has done to the two tables, if it has done it.
abbrev pub Done : Type 0 → Type 1
Done A = A → List Row → List EventRow → Type 0

-- All or nothing: a call that succeeds has done it; one that fails with `database` has left both tables
-- alone, or has done all of it; and any other failure has left both alone.
abbrev pub IsAtomic : {A : Type 0} → Done A → Db → Result StoreError A × Db → Type 0
IsAtomic done db (ok a, after) = done a after.rows after.events
IsAtomic {A = A} done db (err database, after) =
    SameTables db after ⊎ ((a : A) × done a after.rows after.events)
IsAtomic done db (err e, after) = SameTables db after

statement-cases :
    {A : Type 0} (P : Result StoreError A × Db → Type 0) (run : Sql A) (db : Db)
    → ((rest : List Bool) → P (err database, record db { faults = rest }))
    → ((rest : List Bool) → P (run (record db { faults = rest })))
    → P (statement run db)
unfolding statement
statement-cases P run db failed ran = go db.faults
  where
    go :
        (faults : List Bool)
        → P (elim faults [
          | [] ↦ run db
          | fails ∷ rest ↦ elim fails [
            | true ↦ (err database, record db { faults = rest })
            | false ↦ run (record db { faults = rest })
          ]
        ])
    go [] = ran db.faults
    go (true ∷ rest) = failed rest
    go (false ∷ rest) = ran rest

module _ {A : Type 0} (done : Done A) (db : Db) where
  failed-IsAtomic :
      (e : StoreError) (after : Db) → SameTables db after → IsAtomic done db (err e, after)
  failed-IsAtomic database after same = inl same
  failed-IsAtomic e after same = same

  end_tx-IsAtomic :
      (before : Db) (r : Result StoreError A × Db)
      → SameTables db before
      → ((a : A) → r.0 ≡ ok a → done a r.1.rows r.1.events)
      → IsAtomic done db (end_tx before r)
  unfolding end_tx
  end_tx-IsAtomic before (err e, d) same h = failed-IsAtomic e _ same
  end_tx-IsAtomic before (ok a, d) same h =
      statement-cases (λ r. IsAtomic done db (finish_commit before a r)) (pure tt) d
        (λ rest. inl same)
        (λ rest.
          statement-cases (IsAtomic done db) (pure a) (record d { faults = rest })
            (λ rest. inr (a, h a refl)) (λ rest. h a refl))

  pub within_tx-IsAtomic :
      (body : Sql A)
      → ((rest : List Bool) (a : A)
          → (body (record db { faults = rest })).0 ≡ ok a
          → done a
              (body (record db { faults = rest })).1.rows
              (body (record db { faults = rest })).1.events)
      → IsAtomic done db (within_tx body db)
  unfolding within_tx
  within_tx-IsAtomic body h =
      statement-cases (λ r. IsAtomic done db (continue r.0 (λ _ d. end_tx d (body d)) r.1))
        (pure tt) db (λ rest. inl (refl, refl))
        (λ rest.
          end_tx-IsAtomic (record db { faults = rest }) (body (record db { faults = rest }))
            (refl, refl) (h rest))
