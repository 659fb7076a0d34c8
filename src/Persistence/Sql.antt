-- ===== src/Persistence/Sql.antt =====
-- The database as statements see it, transactions, and the source of event ids.
use blabby.Prelude.{ℕ, List, [], ◌∷◌, Option, none, some, Bool, true, false, Result, ok, err, ℤ}
use blabby.Text.{Bytes}
use blabby.Id.{new_id}
use blabby.Id
use blabby.Room.Ports.{StoreError, database}
use blabby.Persistence.Rows.{Row}

-- The labels of the `event_type` enum that this model writes.
pub data EventKind : Type 0 where
  message_posted member_joined member_left : EventKind

-- `payload` is the text or the display name that the JSON payload carries.
pub record EventRow : Type 0 where
  pub id : ℕ
  pub room : ℕ
  pub kind : EventKind
  pub user : ℕ
  pub occurred_at : ℕ
  pub payload : Bytes

-- `mints` holds what the coming calls of `EventIDSource.Next` return, `none` for an error; `now` is
-- the database's clock.
pub record Db : Type 0 where
  pub rows : List Row
  pub events : List EventRow
  pub now : ℕ
  pub mints : List (Option ℤ)
  pub faults : List Bool

abbrev pub Sql : Type 0 → Type 0
Sql A = Db → Result StoreError A × Db

abbrev pub continue : {A B : Type 0} → Result StoreError A → (A → Sql B) → Sql B
continue (ok a) f db = f a db
continue (err e) f db = (err e, db)

infixl 5 ◌>>=◌ ◌>>◌
abbrev pub ◌>>=◌ : {A B : Type 0} → Sql A → (A → Sql B) → Sql B
◌>>=◌ m f db = let (r, db') = m db in continue r f db'

abbrev pub ◌>>◌ : {B : Type 0} → Sql (Unit {0}) → Sql B → Sql B
m >> k = m >>= λ _. k

abbrev pub pure : {A : Type 0} → A → Sql A
pure a db = (ok a, db)

abbrev pub raise : {A : Type 0} → StoreError → Sql A
raise e db = (err e, db)

-- One statement, which runs unless it is due to fail.
unfoldable pub statement : {A : Type 0} → Sql A → Sql A
statement run db = elim db.faults [
  | [] ↦ run db
  | fails ∷ rest ↦ elim fails [
    | true ↦ (err database, record db { faults = rest })
    | false ↦ run (record db { faults = rest })
  ]
]

abbrev pub rollback : Db → Db → Db
rollback before after = record after { rows = before.rows; events = before.events }

-- The answer to a commit, which may be lost once the commit has been done.
abbrev pub finish_commit :
    {A : Type 0} → Db → A → Result StoreError (Unit {0}) × Db → Result StoreError A × Db
finish_commit before a (ok _, db) = statement (pure a) db
finish_commit before a (err e, db) = (err e, rollback before db)

-- The end of `WithinTx`: commit, or roll back and pass the error on.
unfoldable pub end_tx : {A : Type 0} → Db → Result StoreError A × Db → Result StoreError A × Db
unfolding statement
end_tx before (ok a, db) = finish_commit before a (statement (pure tt) db)
end_tx before (err e, db) = (err e, rollback before db)

-- `WithinTx`
unfoldable pub within_tx : {A : Type 0} → Sql A → Sql A
unfolding end_tx
within_tx body = do statement (pure tt); λ db. end_tx db (body db)

abbrev to_store_error : {A : Type 0} → Result Id.Error A → Result StoreError A
to_store_error (ok a) = ok a
to_store_error (err e) = err database

-- `EventIDSource.Next`, and `id.NewEventID` of its value.
unfoldable pub mint_event_id : Sql ℕ
mint_event_id db = elim db.mints [
  | [] ↦ (err database, db)
  | next ∷ rest ↦ elim next [
    | none ↦ (err database, record db { mints = rest })
    | some v ↦ (to_store_error (new_id v), record db { mints = rest })
  ]
]
