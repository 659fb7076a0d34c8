-- ===== src/Room/Delivery.antt =====
-- What an accepted command does: to the roster, and to whom it is announced.
use blabby.Prelude.{
  sym, Option-cases, ℕ, List, [], ◌∷◌, none, some, false, ◌==◌, ◌≡◌, arith, refl, Result, ok, err,
  if◌then◌else◌, Bool-cases, inl, inr, ap, ◌∙◌,
}
use blabby.Text.{Bytes}
use blabby.Id.{parse_id}
use blabby.Map.{elem}
use blabby.Map.Laws.{lookup-insert, lookup-delete, Distinct, insert-Distinct, delete-Distinct}
use blabby.Map.Sorted.{Ascending, elem-sort-keys, sort-keys-Ascending}
use blabby.Domain.Refs.{UserRef, RoomRef}
use blabby.Wire.{UserRefPb, parse_user_ref}
use blabby.Room.State.{
  RoomState, is_member, member_ref, member_ids, add_member, remove_member, refresh_member,
  record_message,
}
use blabby.Room.Ports.{Event, StoreError, Job, notify, joined, left, build_event, RoomEvent}
use blabby.Room.Grain.{
  Env, join, finish_join, leave, finish_leave, post_message, record_join, record_leave,
}

-- A list of recipients: in ascending order without repetition, and the members of `s` exactly.
pub record AreMembers (s : RoomState) (recipients : List ℕ) : Type 0 where
  pub ascending : Ascending recipients
  pub complete : (u : ℕ) → elem u recipients ≡ is_member s u

pub member_ids-AreMembers : (s : RoomState) → Distinct s.members → AreMembers s (member_ids s)
unfolding member_ids
member_ids-AreMembers s d = record {
  ascending = sort-keys-Ascending s.members d;
  complete = λ u. elem-sort-keys u s.members;
}

module _ {S : Type 0} (env : Env S) (s : RoomState) (db : S) where
  join-Distinct :
      (user : UserRefPb) → Distinct s.members → Distinct (join env s db user).state.members
  unfolding join add_member
  join-Distinct user d = grind (arith, insert-Distinct)

  leave-Distinct :
      (user : Bytes) → Distinct s.members → Distinct (leave env s db user).state.members
  unfolding leave remove_member
  leave-Distinct user d = grind (arith, delete-Distinct)

  post-Distinct :
      (user : UserRefPb) (raw : Bytes)
      → Distinct s.members
      → Distinct (post_message env s db user raw).state.members
  unfolding post_message refresh_member record_message
  post-Distinct user raw d = grind (arith, insert-Distinct)

module _ {S : Type 0} (env : Env S) (s : RoomState) (db : S) where
  -- A command keeps the roster free of repetition, whichever command it is and however it ends.
  pub commands-Distinct :
      (user : UserRefPb) (leaver raw : Bytes)
      → Distinct s.members
      → Distinct (join env s db user).state.members
        × Distinct (leave env s db leaver).state.members
        × Distinct (post_message env s db user raw).state.members
  commands-Distinct user leaver raw d = (
    join-Distinct env s db user d,
    leave-Distinct env s db leaver d,
    post-Distinct env s db user raw d,
  )

-- One announcement of a membership event to the members of `s`.
pub record Announces (jobs : List Job) (build : Event → RoomEvent) (s : RoomState) : Type 0 where
  pub recipients : List ℕ
  pub event : Event
  pub sent : jobs ≡ notify recipients (build event) ∷ []
  pub reach : AreMembers s recipients

-- What an accepted `Join` of `joiner` has done.
pub record Joined (room : RoomRef) (joiner : UserRef) (s s' : RoomState) (jobs : List Job)
    : Type 0 where
  pub was_new : is_member s joiner.id ≡ false
  pub roster : (u : ℕ) → member_ref s' u ≡ (if joiner.id == u then some joiner else member_ref s u)
  pub announced : Announces jobs (build_event joined room joiner) s'

-- What an accepted `Leave` of `u` has done; the leaver is still among the recipients.
pub record Left (room : RoomRef) (leaver : UserRef) (u : ℕ) (s s' : RoomState) (jobs : List Job)
    : Type 0 where
  pub was_member : member_ref s u ≡ some leaver
  pub roster : (v : ℕ) → member_ref s' v ≡ (if u == v then none else member_ref s v)
  pub announced : Announces jobs (build_event left room leaver) s

module _ {S : Type 0} (env : Env S) (s : RoomState) (db : S) (room : RoomRef)
    (d : Distinct s.members) where
  add_member-roster :
      (joiner : UserRef)
      → is_member s joiner.id ≡ false
      → (u : ℕ)
      → member_ref (add_member s joiner).0 u
        ≡ (if joiner.id == u then some joiner else member_ref s u)
  unfolding add_member
  add_member-roster joiner new u = ground (arith, lookup-insert joiner.id u joiner s.members)

  add_member-Distinct : (joiner : UserRef) → Distinct (add_member s joiner).0.members
  unfolding add_member
  add_member-Distinct joiner = grind (arith, insert-Distinct)

  finish_join-Joined :
      (joiner : UserRef) (r : Result StoreError Event × S)
      → is_member s joiner.id ≡ false
      → (finish_join env s room joiner r).response.error ≡ none
      → Joined room joiner s
          (finish_join env s room joiner r).state
          (finish_join env s room joiner r).jobs
  unfolding finish_join
  finish_join-Joined joiner (err e, db') new h = cc
  finish_join-Joined joiner (ok evt, db') new h = record {
    was_new = new;
    roster = add_member-roster joiner new;
    announced = record {
      recipients = member_ids (add_member s joiner).0;
      event = evt;
      sent = refl;
      reach = member_ids-AreMembers (add_member s joiner).0 (add_member-Distinct joiner);
    };
  }

  -- In a loaded room whose roster has no repetition, a `Join` that is answered without an error has
  -- added the joiner, who was no member, and left the other entries alone; it is announced once, to
  -- every member with the joiner among them.
  pub join_accepted :
      (user : UserRefPb) (joiner : UserRef)
      → s.ref ≡ some room
      → parse_user_ref env.nfc user ≡ ok joiner
      → (join env s db user).response.error ≡ none
      → Joined room joiner s (join env s db user).state (join env s db user).jobs
  join_accepted user joiner loaded parsed h = elim (Bool-cases (is_member s joiner.id)) [
    | inl old ↦ absurd (unfold join in ground arith)
    | inr new ↦
        let same : join env s db user
            ≡ finish_join env s room joiner (record_join env room.id joiner db) =
          unfold join in ground arith in
        rw same (
          finish_join-Joined joiner (record_join env room.id joiner db) new
            (ap (λ o. o.response.error) (sym same) ∙ h))
  ]

  finish_leave-Left :
      (leaver : UserRef) (u : ℕ) (r : Result StoreError Event × S)
      → member_ref s u ≡ some leaver
      → (finish_leave env s room leaver u r).response.error ≡ none
      → Left room leaver u s
          (finish_leave env s room leaver u r).state
          (finish_leave env s room leaver u r).jobs
  unfolding finish_leave
  finish_leave-Left leaver u (err e, db') was h = absurd (ground arith)
  finish_leave-Left leaver u (ok evt, db') was h = record {
    was_member = was;
    roster = λ v. unfold remove_member in ground (arith, lookup-delete u v s.members);
    announced = record {
      recipients = member_ids s;
      event = evt;
      sent = refl;
      reach = member_ids-AreMembers s d;
    };
  }

  -- In a loaded room whose roster has no repetition, a `Leave` that is answered without an error has
  -- removed the leaver, who was a member, and left the other entries alone; it is announced once, to
  -- every member before the removal.
  pub leave_accepted :
      (user : Bytes) (u : ℕ)
      → s.ref ≡ some room
      → parse_id user ≡ ok u
      → (leave env s db user).response.error ≡ none
      → (leaver : UserRef) × Left room leaver u s
          (leave env s db user).state
          (leave env s db user).jobs
  leave_accepted user u loaded parsed h = elim (Option-cases (member_ref s u)) [
    | inl absent ↦ absurd (unfold leave in ground arith)
    | inr (leaver, was) ↦ (
      leaver,
      let same : leave env s db user
              ≡ finish_leave env s room leaver u (record_leave env room.id leaver db) =
            unfold leave in ground arith in
          rw same (
            finish_leave-Left leaver u (record_leave env room.id leaver db) was
              (ap (λ o. o.response.error) (sym same) ∙ h)),
    )
  ]
