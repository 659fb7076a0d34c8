-- ===== src/Persistence/Effects.antt =====
-- What the statements and a transaction leave of the rows and of the timeline.
use blabby.Prelude.{
  ℕ, List, some, Result, ok, err, ◌≡◌, ◌≢◌, ◌↔◌, ◌⊎◌, subst, refl, sym, arith, inl, inr, ap, ◌∙◌,
}
use blabby.Domain.Membership.{MembershipRole, owner, admin}
use blabby.Room.Ports.{StoreError}
use blabby.Persistence.Rows.{
  Row, find_role, set_role, find_role-delete_row, find_role-set_role, find_role-append, OwnedBy,
}
use blabby.Persistence.Sql.{
  Db, Sql, EventKind, statement, end_tx, within_tx, mint_event_id, pure, ◌>>=◌, continue,
}
use blabby.Persistence.Repo.{add, remove, get_role, update_role, move_owner, append_event}

-- What a transaction may leave behind: the rows that were there, or those of its body.
pub end_tx-rows :
    {A : Type 0} (before : Db) (r : Result StoreError A × Db)
    → ((end_tx before r).1.rows ≡ before.rows) ⊎ ((end_tx before r).1.rows ≡ r.1.rows)
unfolding end_tx statement
end_tx-rows before r = ground arith

-- The rows after a transaction: those before it, or those of its body, run on the same rows.
unfoldable pub Settles : {A : Type 0} → Sql A → List Row → List Row → Type 0
Settles body rows rows' =
    (rows' ≡ rows) ⊎ ((db : Db) × (db.rows ≡ rows) × (rows' ≡ (body db).1.rows))

pub begun-rows :
    {A : Type 0} (body : Sql A) (rows : List Row) (r : Result StoreError (Unit {0}) × Db)
    → r.1.rows ≡ rows
    → Settles body rows (continue r.0 (λ _ db. end_tx db (body db)) r.1).1.rows
unfolding Settles
begun-rows body rows (err e, db) same = inl same
begun-rows body rows (ok _, db) same = elim (end_tx-rows db (body db)) [
  | inl before ↦ inl (before ∙ same)
  | inr after ↦ inr (db, same, after)
]

pub begin-rows : (db : Db) → (statement (pure tt) db).1.rows ≡ db.rows
unfolding statement
begin-rows db = ground arith

pub within_tx-rows :
    {A : Type 0} (body : Sql A) (db : Db) → Settles body db.rows (within_tx body db).1.rows
unfolding within_tx
within_tx-rows body db = begun-rows body db.rows (statement (pure tt) db) (begin-rows db)

unfoldable pub Keeps : {A : Type 0} → (List Row → Type 0) → Sql A → Type 0
Keeps P m = (db : Db) → P db.rows → P (m db).1.rows

pub within_tx-Keeps :
    {A : Type 0} (P : List Row → Type 0) (body : Sql A) → Keeps P body → Keeps P (within_tx body)
unfolding Keeps Settles
within_tx-Keeps P body keeps db p = elim (within_tx-rows body db) [
  | inl same ↦ subst P (sym same) p
  | inr (db', before, after) ↦ subst P (sym after) (keeps db' (subst P (sym before) p))
]

-- The owners of the rooms are the same in both.
unfoldable pub SameOwners : List Row → List Row → Type 0
SameOwners rows rows' =
    (r v : ℕ) → (find_role r v rows' ≡ some owner) ↔ (find_role r v rows ≡ some owner)

pub same-SameOwners : {rows rows' : List Row} → rows' ≡ rows → SameOwners rows rows'
unfolding SameOwners
same-SameOwners same r v =
    ((λ h. ap (find_role r v) (sym same) ∙ h), (λ h. ap (find_role r v) same ∙ h))

pub from-SameOwners :
    {rows rows' : List Row} (after : List Row)
    → rows' ≡ rows
    → SameOwners rows' after
    → SameOwners rows after
from-SameOwners after same kept = subst (λ rows. SameOwners rows after) same kept

pub add-rows :
    (room u : ℕ) (role : MembershipRole) (db : Db)
    → role ≢ owner
    → SameOwners db.rows (add room u role db).1.rows
unfolding add statement SameOwners
add-rows room u role db plain r v =
    ground (arith, find_role-append (record { room = room; user = u; role = role }) r v db.rows)

pub remove-rows : (room u : ℕ) (db : Db) → SameOwners db.rows (remove room u db).1.rows
unfolding remove statement SameOwners
remove-rows room u db r v = ground (arith, find_role-delete_row room u r v db.rows)

pub append_event-rows :
    (room : ℕ) (kind : EventKind) (user : ℕ) (payload : List ℕ) (db : Db)
    → (append_event room kind user payload db).1.rows ≡ db.rows
unfolding append_event mint_event_id statement
append_event-rows room kind user payload db = ground arith

pub get_role-rows : (room u : ℕ) (db : Db) → (get_role room u db).1.rows ≡ db.rows
unfolding get_role statement
get_role-rows room u db = ground arith

pub get_role-reads :
    (room u : ℕ) (role : MembershipRole) (db : Db)
    → (get_role room u db).0 ≡ ok role
    → find_role room u db.rows ≡ some role
unfolding get_role statement
get_role-reads room u role db h = ground arith

pub update_role-rows :
    (room u : ℕ) (role old : MembershipRole) (db : Db)
    → role ≢ owner
    → old ≢ owner
    → find_role room u db.rows ≡ some old
    → SameOwners db.rows (update_role room u role db).1.rows
unfolding update_role statement SameOwners
update_role-rows room u role old db plain was_plain was r v =
    ground (arith, find_role-set_role room u role r v db.rows)

-- What holds after a role is read: by the failures, and by the role that the row has.
pub get_role-bind :
    {A : Type 0} (Q : Result StoreError A × Db → Type 0) (room u : ℕ) (f : MembershipRole → Sql A)
    (db : Db)
    → ((e : StoreError) (db' : Db) → db'.rows ≡ db.rows → Q (err e, db'))
    → ((role : MembershipRole) (db' : Db)
        → db'.rows ≡ db.rows
        → find_role room u db.rows ≡ some role
        → Q (f role db'))
    → Q ((get_role room u >>= f) db)
get_role-bind Q room u f db failed read = go (get_role room u db) refl
  where
    go :
        (r : Result StoreError MembershipRole × Db)
        → get_role room u db ≡ r
        → Q (continue r.0 f r.1)
    go (err e, db') h = failed e db' (ap (λ x. x.1.rows) (sym h) ∙ get_role-rows room u db)
    go (ok role, db') h =
        read role db' (ap (λ x. x.1.rows) (sym h) ∙ get_role-rows room u db)
          (get_role-reads room u role db (ap (λ x. x.0) h))

-- The transfer of a room by its owner.
pub move_owner-rows :
    (room from to : ℕ) (db : Db)
    → (move_owner room from to db).0 ≡ ok tt
    → from ≢ to
    → OwnedBy room from db.rows
    → OwnedBy room to (move_owner room from to db).1.rows
unfolding move_owner statement
move_owner-rows room from to db done differ owned = record {
  owns = ground (
    arith,
    find_role-set_role room to owner room to (set_role room from admin db.rows),
    find_role-set_role room from admin room to db.rows,
  );
  alone = λ v h. ground (
    arith,
    owned.alone v,
    find_role-set_role room to owner room v (set_role room from admin db.rows),
    find_role-set_role room from admin room v db.rows,
  );
}

pub end_tx-done :
    {A : Type 0} (before : Db) (r : Result StoreError A × Db) (a : A)
    → (end_tx before r).0 ≡ ok a
    → (r.0 ≡ ok a) × ((end_tx before r).1.rows ≡ r.1.rows)
unfolding end_tx statement
end_tx-done before r a h = ground arith

-- A transaction that succeeds has run its body on the same rows, and leaves what that left.
pub record Committed {A : Type 0} (body : Sql A) (db : Db) (a : A) (after : Db) : Type 0 where
  pub start : Db
  pub same : start.rows ≡ db.rows
  pub done : (body start).0 ≡ ok a
  pub left : after.rows ≡ (body start).1.rows

pub within_tx-Committed :
    {A : Type 0} (body : Sql A) (db : Db) (a : A)
    → (within_tx body db).0 ≡ ok a
    → Committed body db a (within_tx body db).1
within_tx-Committed body db a h = unfold within_tx in go (statement (pure tt) db) (begin-rows db) h
  where
    go :
        (r : Result StoreError (Unit {0}) × Db)
        → r.1.rows ≡ db.rows
        → (continue r.0 (λ _ db. end_tx db (body db)) r.1).0 ≡ ok a
        → Committed body db a (continue r.0 (λ _ db. end_tx db (body db)) r.1).1
    go (err e, db') same h = absurd (ground arith)
    go (ok _, db') same h =
        let (done, left) = end_tx-done db' (body db') a h in
        record { start = db'; same = same; done = done; left = left }
