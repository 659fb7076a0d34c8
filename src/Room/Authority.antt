-- ===== src/Room/Authority.antt =====
-- Who may change a role or hand over a room: what the handlers of roles.go let through.
use blabby.Prelude.{
  ℕ, List, none, some, true, String, ok, if◌then◌else◌, ◌≡◌, ◌≢◌, sym, ap, ◌∙◌, arith, subst,
  Bool-cases, inl, inr,
}
use blabby.Text.{Bytes}
use blabby.Id.{parse_id}
use blabby.Domain.Membership.{
  MembershipRole, owner, member, can_set_role, can_set_role_iff, parse_membership_role,
}
use blabby.Domain.Refs.{UserRef, RoomRef}
use blabby.Wire.{UserRefPb, parse_user_ref}
use blabby.Persistence.Rows.{Row, find_role, OwnedBy}
use blabby.Persistence.Sql.{Db, raise}
use blabby.Persistence.Repo.{update_role}
use blabby.Persistence.Effects.{within_tx-Committed, get_role-bind}
use blabby.Room.State.{RoomState}
use blabby.Room.Ports.{role_permission_denied}
use blabby.Room.Grain.{Env}
use blabby.Room.Store.{change_role, record_role_change, record_ownership_transfer, membership_store}
use blabby.Room.Ownership.{transfer_hands_over}
use blabby.Room.Roles
use blabby.Room.Roles.{
  set_member_role, set_role_as, finish_set_role, transfer_as, finish_transfer, requested_role,
}

-- The rows let `by` give `target` the role: `by` is the owner or an admin, and `target` is not the owner.
pub record Authorised (room by target : ℕ) (role : MembershipRole) (rows : List Row) : Type 0 where
  pub actor_role : MembershipRole
  pub target_role : MembershipRole
  pub actor_has : find_role room by rows ≡ some actor_role
  pub target_has : find_role room target rows ≡ some target_role
  pub ranks : actor_role ≢ member
  pub target_plain : target_role ≢ owner
  pub role_plain : role ≢ owner

set_checked-allowed :
    (room target : ℕ) (actor_role target_role role : MembershipRole) (db : Db)
    → ((if can_set_role actor_role target_role role
          then update_role room target role
          else raise role_permission_denied)
        db).0
      ≡ ok tt
    → can_set_role actor_role target_role role ≡ true
set_checked-allowed room target actor_role target_role role db h =
    elim (Bool-cases (can_set_role actor_role target_role role)) [
      | inl allowed ↦ allowed
      | inr denied ↦ (let h' = rw denied at h in absurd (ground arith))
    ]

change_role-Authorised :
    (room by target : ℕ) (role : MembershipRole) (db : Db)
    → (change_role room by target role db).0 ≡ ok tt
    → Authorised room by target role db.rows
unfolding change_role
change_role-Authorised room by target role db =
    get_role-bind (λ x. x.0 ≡ ok tt → Authorised room by target role db.rows) room by _ db
      (λ e db1 same h. absurd (ground arith))
      (λ actor_role db1 same1 has.
        get_role-bind (λ x. x.0 ≡ ok tt → Authorised room by target role db.rows) room target _ db1
          (λ e db2 same2 h. absurd (ground arith))
          (λ target_role db2 same2 was h.
            let (ranks, was_plain, plain) =
              (can_set_role_iff actor_role target_role role).0
                (set_checked-allowed room target actor_role target_role role db2 h) in
            record {
              actor_role = actor_role;
              target_role = target_role;
              actor_has = has;
              target_has = ap (find_role room target) (sym same1) ∙ was;
              ranks = ranks;
              target_plain = was_plain;
              role_plain = plain;
            }))

record_role_change-Authorised :
    (room by target : ℕ) (role : MembershipRole) (db : Db)
    → (record_role_change room by target role db).0 ≡ ok tt
    → Authorised room by target role db.rows
unfolding record_role_change
record_role_change-Authorised room by target role db h =
    let c = within_tx-Committed (change_role room by target role) db tt h in
    subst (Authorised room by target role) c.same
      (change_role-Authorised room by target role c.start c.done)

module _ (env : Env Db) (s : RoomState) (db : Db) (room : RoomRef) (actor : UserRef)
    (user : UserRefPb) where
  -- Over the production store, a `SetMemberRole` that is answered without an error was asked for by
  -- the owner or an admin, for a target that is not the owner, and did not give the owner's role.
  pub set_member_role-Authorised :
      (target : Bytes) (raw : String) (t : ℕ) (role : MembershipRole)
      → env.membership ≡ some membership_store
      → s.ref ≡ some room
      → parse_user_ref env.nfc user ≡ ok actor
      → parse_id target ≡ ok t
      → parse_membership_role raw ≡ some role
      → (set_member_role env s db user target raw).0 ≡ none
      → Authorised room.id actor.id t role db.rows
  unfolding set_member_role
  set_member_role-Authorised target raw t role production loaded parsed named asked h =
      record_role_change-Authorised room.id actor.id t role db (ground arith)

  -- Over the production store, a `TransferOwnership` that is answered without an error was asked for
  -- by the room's owner, and has made the named user its owner and only owner.
  pub transfer_authorised :
      (target : Bytes) (o t : ℕ)
      → env.membership ≡ some membership_store
      → s.ref ≡ some room
      → parse_user_ref env.nfc user ≡ ok actor
      → parse_id target ≡ ok t
      → OwnedBy room.id o db.rows
      → (Roles.transfer_ownership env s db user target).0 ≡ none
      → (actor.id ≡ o) × OwnedBy room.id t (Roles.transfer_ownership env s db user target).1.rows
  unfolding Roles.transfer_ownership
  transfer_authorised target o t production loaded parsed named owned h =
      let done : (record_ownership_transfer room.id actor.id t db).0 ≡ ok tt = ground arith in
      let left : (Roles.transfer_ownership env s db user target).1
          ≡ (record_ownership_transfer room.id actor.id t db).1 =
        ground arith in
      let (is_o, handed) = transfer_hands_over room.id o actor.id t db owned done in
      (is_o, subst (λ d. OwnedBy room.id t d.rows) (sym left) handed)
