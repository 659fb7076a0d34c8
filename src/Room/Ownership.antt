-- ===== src/Room/Ownership.antt =====
-- What the production store does to the rows of a room: who owns it.
use blabby.Prelude.{
  ℕ, List, some, Result, ok, err, ◌==◌, if◌then◌else◌, ◌≡◌, subst, refl, sym, arith, ==_iff,
  Bool-cases, inl, inr, ap, ◌∙◌,
}
use blabby.Domain.Membership.{
  MembershipRole, owner, member, can_set_role, can_set_role_iff, can_transfer_ownership,
}
use blabby.Domain.Refs.{UserRef}
use blabby.Room.Ports.{Event, StoreError, role_permission_denied}
use blabby.Persistence.Rows.{Row, find_role, OwnedBy}
use blabby.Persistence.Sql.{Db, Sql, EventKind, member_joined, member_left, raise, ◌>>◌, continue}
use blabby.Persistence.Repo.{add, remove, update_role, append_event}
use blabby.Room.Store.{
  record_transition, record_join, record_leave, change_role, record_role_change, hand_over,
  check_and_hand_over, record_ownership_transfer,
}
use blabby.Persistence.Effects.{
  Keeps, within_tx-Keeps, SameOwners, same-SameOwners, from-SameOwners, add-rows, remove-rows,
  append_event-rows, update_role-rows, get_role-bind, move_owner-rows, within_tx-Committed,
}

set_checked-rows :
    (room target : ℕ) (actor_role target_role role : MembershipRole) (db : Db)
    → find_role room target db.rows ≡ some target_role
    → SameOwners db.rows
        ((if can_set_role actor_role target_role role
            then update_role room target role
            else raise role_permission_denied)
          db).1.rows
set_checked-rows room target actor_role target_role role db was =
    elim (Bool-cases (can_set_role actor_role target_role role)) [
      | inl allowed ↦
          let (high, was_plain, plain) = (can_set_role_iff actor_role target_role role).0 allowed in
          rw allowed (update_role-rows room target role target_role db plain was_plain was)
      | inr denied ↦ rw denied (same-SameOwners refl)
    ]

change_role-rows :
    (room actor target : ℕ) (role : MembershipRole) (db : Db)
    → SameOwners db.rows (change_role room actor target role db).1.rows
unfolding change_role
change_role-rows room actor target role db =
    get_role-bind (λ x. SameOwners db.rows x.1.rows) room actor _ db
      (λ e db1 same. same-SameOwners same)
      (λ actor_role db1 same1 _.
        get_role-bind (λ x. SameOwners db.rows x.1.rows) room target _ db1
          (λ e db2 same2. same-SameOwners (same2 ∙ same1))
          (λ target_role db2 same2 was. from-SameOwners _ (same2 ∙ same1) (
            set_checked-rows room target actor_role target_role role db2
              (ap (find_role room target) same2 ∙ was))))

-- A result that, where it is one, leaves `to` as the owner.
Hands : ℕ → ℕ → Result StoreError (Unit {0}) × Db → Type 0
Hands room to x = x.0 ≡ ok tt → OwnedBy room to x.1.rows

use_Hands :
    (room to : ℕ) (x : Result StoreError (Unit {0}) × Db)
    → Hands room to x
    → x.0 ≡ ok tt
    → OwnedBy room to x.1.rows
unfolding Hands
use_Hands room to x hands = hands

hand_over-Hands :
    (room from to : ℕ) (db : Db)
    → OwnedBy room from db.rows
    → Hands room to (hand_over room from to db)
unfolding hand_over
hand_over-Hands room from to db owned = elim (Bool-cases (from == to)) [
  | inl same ↦
      rw same
        (unfold Hands in λ _. subst (λ u. OwnedBy room u db.rows) ((==_iff from to).0 same) owned)
  | inr differ ↦ rw differ (
      get_role-bind (Hands room to) room to _ db
        (λ e db1 same. unfold Hands in λ h. absurd (ground arith))
        (λ role db1 same _.
          unfold Hands in
          λ done.
            move_owner-rows room from to db1 done (ground arith)
              (subst (OwnedBy room from) (sym same) owned)))
]

check_owner :
    (room actor to : ℕ) (role : MembershipRole) (db : Db)
    → ((if can_transfer_ownership role
          then hand_over room actor to
          else raise role_permission_denied)
        db).0
      ≡ ok tt
    → role ≡ owner
unfolding can_transfer_ownership
check_owner room actor to role db h = ground arith

checked-Hands :
    (room actor to : ℕ) (role : MembershipRole) (db : Db)
    → OwnedBy room actor db.rows
    → Hands room to (
        (if can_transfer_ownership role
            then hand_over room actor to
            else raise role_permission_denied)
          db)
unfolding can_transfer_ownership
checked-Hands room actor to owner db owned = hand_over-Hands room actor to db owned
checked-Hands room actor to _ db owned = unfold Hands in λ h. absurd (ground arith)

-- The actor of a transfer that goes through is the owner.
transfer-Hands :
    (room o actor to : ℕ) (db : Db)
    → OwnedBy room o db.rows
    → (check_and_hand_over room actor to db).0 ≡ ok tt
    → (actor ≡ o) × OwnedBy room to (check_and_hand_over room actor to db).1.rows
unfolding check_and_hand_over
transfer-Hands room o actor to db owned =
    get_role-bind (λ x. x.0 ≡ ok tt → (actor ≡ o) × OwnedBy room to x.1.rows) room actor _ db
      (λ e db1 same h. absurd (ground arith))
      (λ role db1 same was h.
        let is_owner_role = check_owner room actor to role db1 h in
        let is_o = owned.alone actor (was ∙ ap some is_owner_role) in
        let held =
          subst (λ u. OwnedBy room u db1.rows) (sym is_o)
            (subst (OwnedBy room o) (sym same) owned) in
        (is_o, use_Hands room to _ (checked-Hands room actor to role db1 held) h))

-- A transfer that the store reports as done was asked for by the room's owner, and has made the
-- named user its owner and only owner.
pub transfer_hands_over :
    (room o actor to : ℕ) (db : Db)
    → OwnedBy room o db.rows
    → (record_ownership_transfer room actor to db).0 ≡ ok tt
    → (actor ≡ o) × OwnedBy room to (record_ownership_transfer room actor to db).1.rows
unfolding record_ownership_transfer
transfer_hands_over room o actor to db owned h =
    let c = within_tx-Committed (check_and_hand_over room actor to) db tt h in
    let (is_o, handed) =
      transfer-Hands room o actor to c.start (subst (OwnedBy room o) (sym c.same) owned) c.done in
    (is_o, subst (OwnedBy room to) (sym c.left) handed)

SameOwners-OwnedBy :
    {rows rows' : List Row} (room o : ℕ)
    → SameOwners rows rows'
    → OwnedBy room o rows
    → OwnedBy room o rows'
unfolding SameOwners
SameOwners-OwnedBy room o kept owned = record {
  owns = (kept room o).1 owned.owns;
  alone = λ v h. owned.alone v ((kept room v).0 h);
}

appended-OwnedBy :
    (room o : ℕ) (append : Sql Event) (r : Result StoreError (Unit {0}) × Db)
    → ((db : Db) → (append db).1.rows ≡ db.rows)
    → OwnedBy room o r.1.rows
    → OwnedBy room o (continue r.0 (λ _. append) r.1).1.rows
appended-OwnedBy room o append (err e, db) plain owned = owned
appended-OwnedBy room o append (ok _, db) plain owned =
    subst (OwnedBy room o) (sym (plain db)) owned

transition-OwnedBy :
    (room o r : ℕ) (actor : UserRef) (kind : EventKind) (mutate : Sql (Unit {0}))
    → ((db : Db) → SameOwners db.rows (mutate db).1.rows)
    → (db : Db) → OwnedBy room o db.rows
    → OwnedBy room o (record_transition r actor kind mutate db).1.rows
unfolding record_transition Keeps
transition-OwnedBy room o r actor kind mutate kept =
    within_tx-Keeps (OwnedBy room o) (mutate >> append_event r kind actor.id actor.name)
      (λ db owned.
        appended-OwnedBy room o (append_event r kind actor.id actor.name) (mutate db)
          (append_event-rows r kind actor.id actor.name)
          (SameOwners-OwnedBy room o (kept db) owned))

-- Whatever becomes of a join, a leave or a change of a role, in this room or another: who owned
-- the room before owns it afterwards, alone.
pub owner_kept :
    (room o : ℕ) (db : Db) (r : ℕ) (actor : UserRef) (by target : ℕ) (role : MembershipRole)
    → OwnedBy room o db.rows
    → OwnedBy room o (record_join r actor db).1.rows
      × OwnedBy room o (record_leave r actor db).1.rows
      × OwnedBy room o (record_role_change r by target role db).1.rows
unfolding record_join record_leave record_role_change Keeps
owner_kept room o db r actor by target role owned = (
  transition-OwnedBy room o r actor member_joined (add r actor.id member)
      (λ d. add-rows r actor.id member d (λ e. ground arith)) db owned,
  transition-OwnedBy room o r actor member_left (remove r actor.id) (λ d. remove-rows r actor.id d)
      db owned,
  within_tx-Keeps (OwnedBy room o) (change_role r by target role)
      (λ d. SameOwners-OwnedBy room o (change_role-rows r by target role d)) db owned,
)
