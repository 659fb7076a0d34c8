-- ===== src/User/Agreement.antt =====
-- The user grain and the room grain together: what the user's cache and the room's roster hold after
-- a command that went through.
use blabby.Prelude.{
  ℕ, ◌==◌, if◌then◌else◌, none, some, true, false, Result, ok, err, ◌≡◌, refl, arith, ap, sym,
  Bool-cases, Option-cases, subst, inl, inr, ◌⊎◌, ==_iff,
}
use blabby.Text.{Bytes}
use blabby.Id.{parse_id}
use blabby.Id
use blabby.Map.{lookup, is_some}
use blabby.Map.Laws.{lookup-insert, lookup-delete}
use blabby.Domain.Refs.{UserRef, RoomRef, max_room_name_bytes}
use blabby.ErrCode.{
  invalid_request, room_already_member, room_not_member, room_owner_cannot_leave, internal_error,
}
use blabby.Wire.{UserRefPb, ErrorDetail, err_detail, parse_user_ref, proto_room_ref}
use blabby.Wire.RoundTrip.{IsSettled, parse_room_ref-proto}
use blabby.Room.State.{RoomState, is_member, member_ref, add_member, remove_member}
use blabby.Room.Ports.{StoreError, Event, owner_cannot_leave}
use blabby.Room.Grain.{
  Env, Outcome, JoinResponse, LeaveResponse, refuse, leave_err, join_err_with_room, join, join_as,
  finish_join, leave, leave_as, finish_leave, post_message, record_join, record_leave,
}
use blabby.Room.Roles
use blabby.User.State.{UserState, join_room, leave_room}
use blabby.User.Grain.{
  TransportError, unreachable, RoomClient, Self, is_already_member, is_not_member,
  join_room_request, leave_room_request, forwarded, parse_room_error,
}
use blabby.User.Grain as UserGrain
use blabby.User.Relay.{forwarded-detail, on_id}

-- One room and its database.
abbrev pub World : Type 0 → Type 0
World S = RoomState × S

-- A call for the room `home` reaches it, and a call for another room reaches nothing.
abbrev pub routed :
    {S A : Type 0} → ℕ → ℕ → A × World S → World S → Result TransportError A × World S
routed home room_id (a, w') w = if room_id == home then (ok a, w') else (err unreachable, w)

-- A client of that room, whose id is `home`.
abbrev pub in_process : {S : Type 0} → Env S → ℕ → RoomClient (World S)
in_process env home = record {
  join = λ room_id user w.
      let o = join env w.0 w.1 user in routed home room_id (o.response, (o.state, o.store)) w;
  leave = λ room_id user w.
      let o = leave env w.0 w.1 user in routed home room_id (o.response, (o.state, o.store)) w;
  post_message = λ room_id user text w.
      let o = post_message env w.0 w.1 user text in
      routed home room_id (o.response, (o.state, o.store)) w;
  set_member_role = λ room_id user target role w.
      let r = Roles.set_member_role env w.0 w.1 user target role in
      routed home room_id (r.0, (w.0, r.1)) w;
  transfer_ownership = λ room_id user target w.
      let r = Roles.transfer_ownership env w.0 w.1 user target in
      routed home room_id (r.0, (w.0, r.1)) w;
}

abbrev pub user_of : {S : Type 0} → Env S → ℕ → Bytes → UserRefPb → Self (World S)
user_of env home identity user = record {
  nfc = env.nfc;
  identity = identity;
  user = user;
  rooms = in_process env home;
}

join_room-has :
    (u : UserState) (room : RoomRef) → lookup room.id (join_room u room).joined_rooms ≡ some room
unfolding join_room
join_room-has u room = ground (arith, lookup-insert room.id room.id room u.joined_rooms)

-- A request that comes to the good end `done` names the room `i`, if no other comes to it.
names_room :
    {A : Type 0} (r : Result Id.Error ℕ) (done : A → Type 0) (f : ℕ → A) (bad : A) (i : ℕ)
    → (done bad → r ≡ ok i)
    → ((n : ℕ) → done (f n) → n ≡ i)
    → done (elim r [ err e ↦ bad | ok n ↦ f n ])
    → r ≡ ok i
names_room (err e) done f bad i no_end only h = no_end h
names_room (ok n) done f bad i no_end only h = ap ok (only n h)

-- A room's outcome that the user grain takes for a join.
record Admits {S : Type 0} (room : RoomRef) (joiner : ℕ) (o : Outcome S JoinResponse) : Type 0 where
  on_roster : is_member o.state joiner ≡ true
  named : o.response.room ≡ some (proto_room_ref room)
  passed : forwarded is_already_member o.response.error ≡ none

Answers : {S : Type 0} → RoomRef → ℕ → Outcome S JoinResponse → Type 0
Answers room joiner o =
    Admits room joiner o
    ⊎ ((d : ErrorDetail) × (forwarded is_already_member o.response.error ≡ some d))

module _ {S : Type 0} (env : Env S) (s : RoomState) (room : RoomRef) (joiner : UserRef) where
  add_member-has : is_member (add_member s joiner).0 joiner.id ≡ true
  unfolding add_member
  add_member-has = ground (arith, lookup-insert joiner.id joiner.id joiner s.members)

  finish_join-Answers :
      (r : Result StoreError Event × S) → Answers room joiner.id (finish_join env s room joiner r)
  unfolding finish_join Answers
  finish_join-Answers (err e, db) = inr (
    err_detail internal_error "failed to record membership",
    forwarded-detail is_already_member internal_error "failed to record membership",
  )
  finish_join-Answers (ok evt, db) =
      inl (record { on_roster = add_member-has; named = refl; passed = unfold forwarded in refl })

  join_as-Answers : (db : S) → Answers room joiner.id (join_as env s db room joiner)
  join_as-Answers db = elim (Bool-cases (is_member s joiner.id)) [
    | inl old ↦
        let same : join_as env s db room joiner
            ≡ refuse s db (
                join_err_with_room room_already_member "already a member of this room"
                  (proto_room_ref room)) =
          unfold join_as in rw old refl in
        rw same (
          unfold Answers in
          inl (record {
            on_roster = old;
            named = refl;
            passed =
                forwarded-detail is_already_member room_already_member
                  "already a member of this room";
          }))
    | inr new ↦
        let same : join_as env s db room joiner
            ≡ finish_join env s room joiner (record_join env room.id joiner db) =
          unfold join_as in rw new refl in
        rw same (finish_join-Answers (record_join env room.id joiner db))
  ]

  -- What the user grain makes of it.
  Agrees : UserGrain.Reply (World S) → Type 0
  Agrees reply =
      reply.0 ≡ none
      → (lookup room.id reply.1.joined_rooms ≡ some room) × (is_member reply.2.0 joiner.id ≡ true)

  refused-Agrees : (u : UserState) (w : World S) (d : ErrorDetail) → Agrees (some d, u, w)
  unfolding Agrees
  refused-Agrees u w d h = absurd (ground arith)

  use_Agrees :
      (reply : UserGrain.Reply (World S))
      → Agrees reply
      → reply.0 ≡ none
      → (lookup room.id reply.1.joined_rooms ≡ some room) × (is_member reply.2.0 joiner.id ≡ true)
  unfolding Agrees
  use_Agrees reply agrees = agrees

  finish-Agrees :
      (g : Self (World S)) (u : UserState) (o : Outcome S JoinResponse)
      → IsSettled g.nfc max_room_name_bytes room.id room.public_code room.name
      → Answers room joiner.id o
      → Agrees (UserGrain.finish_join g u (ok o.response, (o.state, o.store)))
  unfolding Agrees Answers UserGrain.finish_join
  finish-Agrees g u o settled (inr (d, e)) = rw e (λ h. absurd (ground arith))
  finish-Agrees g u o settled (inl admits) =
      rw (admits.passed, admits.named, parse_room_ref-proto room settled)
        (λ h. (join_room-has u room, admits.on_roster))

module _ {S : Type 0} (env : Env S) (identity : Bytes) (user : UserRefPb) (u : UserState)
    (s : RoomState) (db : S) (room : RoomRef) where
  -- A room's outcome that the user grain takes for a leave, or not.
  LeaveAnswers : ℕ → Outcome S LeaveResponse → Type 0
  LeaveAnswers leaver o =
      ((is_member o.state leaver ≡ false) × (forwarded is_not_member o.response.error ≡ none))
      ⊎ ((d : ErrorDetail) × (forwarded is_not_member o.response.error ≡ some d))

  remove_member-gone : (leaver : ℕ) → is_member (remove_member s leaver).0 leaver ≡ false
  unfolding remove_member
  remove_member-gone leaver = ground (arith, lookup-delete leaver leaver s.members)

  finish_leave-Answers :
      (ref : UserRef) (leaver : ℕ) (r : Result StoreError Event × S)
      → LeaveAnswers leaver (finish_leave env s room ref leaver r)
  unfolding finish_leave LeaveAnswers
  finish_leave-Answers ref leaver (err owner_cannot_leave, db') = inr (
    err_detail room_owner_cannot_leave "transfer ownership before leaving the room",
    forwarded-detail is_not_member room_owner_cannot_leave
        "transfer ownership before leaving the room",
  )
  finish_leave-Answers ref leaver (err _, db') = inr (
    err_detail internal_error "failed to record membership",
    forwarded-detail is_not_member internal_error "failed to record membership",
  )
  finish_leave-Answers ref leaver (ok evt, db') =
      inl (remove_member-gone leaver, unfold forwarded in refl)

  leave_as-Answers : (leaver : ℕ) → LeaveAnswers leaver (leave_as env s db room leaver)
  leave_as-Answers leaver = elim (Option-cases (member_ref s leaver)) [
    | inl absent ↦
        let same : leave_as env s db room leaver
            ≡ refuse s db (leave_err room_not_member "not a member of this room") =
          unfold leave_as in ground arith in
        rw same (
          unfold LeaveAnswers in
          inl (
            ap is_some absent,
            forwarded-detail is_not_member room_not_member "not a member of this room",
          ))
    | inr (ref, was) ↦
        let same : leave_as env s db room leaver
            ≡ finish_leave env s room ref leaver (record_leave env room.id ref db) =
          unfold leave_as in ground arith in
        rw same (finish_leave-Answers ref leaver (record_leave env room.id ref db))
  ]

  finish_leave-agrees :
      (room_id : ℕ) (o : Outcome S LeaveResponse) (leaver : ℕ)
      → LeaveAnswers leaver o
      → (UserGrain.finish_leave
          (user_of env room.id identity user)
          u
          room_id
          (ok o.response, (o.state, o.store))).0
        ≡ none
      → (lookup room_id
            (UserGrain.finish_leave
              (user_of env room.id identity user)
              u
              room_id
              (ok o.response, (o.state, o.store))).1.joined_rooms
          ≡ none)
        × (is_member
              (UserGrain.finish_leave
                (user_of env room.id identity user)
                u
                room_id
                (ok o.response, (o.state, o.store))).2.0
              leaver
            ≡ false)
  unfolding UserGrain.finish_leave LeaveAnswers leave_room
  finish_leave-agrees room_id o leaver (inr (d, e)) = rw e (λ h. absurd (ground arith))
  finish_leave-agrees room_id o leaver (inl (off, e)) =
      rw e (λ h. (ground (arith, lookup-delete room_id room_id u.joined_rooms), off))

  join_only :
      (o : Outcome S JoinResponse) (n : ℕ)
      → (UserGrain.finish_join
          (user_of env room.id identity user)
          u
          (routed room.id n (o.response, (o.state, o.store)) (s, db))).0
        ≡ none
      → n ≡ room.id
  unfolding UserGrain.finish_join
  join_only o n = elim (Bool-cases (n == room.id)) [
    | inl home ↦ λ h. (==_iff n room.id).0 home
    | inr away ↦ rw away (λ h. absurd (ground arith))
  ]

  -- A `JoinRoom` that goes through was for the room, and leaves the room in the user's cache and the user
  -- on the room's roster, be it that the user had joined before.
  pub join_agrees :
      (raw : Bytes) (joiner : UserRef)
      → s.ref ≡ some room
      → IsSettled env.nfc max_room_name_bytes room.id room.public_code room.name
      → parse_user_ref env.nfc user ≡ ok joiner
      → (join_room_request (user_of env room.id identity user) u (s, db) raw).0 ≡ none
      → (parse_id raw ≡ ok room.id)
        × (lookup room.id
              (join_room_request (user_of env room.id identity user) u (s, db) raw).1.joined_rooms
            ≡ some room)
        × (is_member
              (join_room_request (user_of env room.id identity user) u (s, db) raw).2.0
              joiner.id
            ≡ true)
  unfolding join_room_request
  join_agrees raw joiner loaded settled parsed h =
      let same : join env s db user ≡ join_as env s db room joiner = unfold join in ground arith in
      let named =
        names_room (parse_id raw) (λ reply. reply.0 ≡ none)
          (λ n. UserGrain.finish_join (user_of env room.id identity user) u (
            routed room.id n (let o = join env s db user in (o.response, (o.state, o.store)))
              (s, db)))
          (some (err_detail invalid_request "room_id is required"), u, (s, db)) room.id
          (λ e. absurd (ground arith)) (join_only (join env s db user)) h in
      let (cached, on_roster) =
        use_Agrees env s room joiner _
          (on_id (parse_id raw) (Agrees env s room joiner) _ _
            (refused-Agrees env s room joiner u (s, db)
              (err_detail invalid_request "room_id is required"))
            (λ room_id. elim (Bool-cases (room_id == room.id)) [
              | inl home ↦ rw home (
                  finish-Agrees env s room joiner (user_of env room.id identity user) u
                    (join env s db user) settled
                    (subst (Answers room joiner.id) (sym same)
                      (join_as-Answers env s room joiner db)))
              | inr away ↦ rw away (
                  unfold UserGrain.finish_join in
                  refused-Agrees env s room joiner u (s, db)
                    (err_detail internal_error "failed to reach room"))
            ]))
          h in
      (named, cached, on_roster)

  -- A `LeaveRoom` that goes through was for the room, and leaves the room out of the user's cache and the
  -- user off the room's roster, be it that the user was no member before.
  pub leave_agrees :
      (raw : Bytes) (room_id leaver : ℕ)
      → s.ref ≡ some room
      → parse_id raw ≡ ok room_id
      → parse_id identity ≡ ok leaver
      → (leave_room_request (user_of env room.id identity user) u (s, db) raw).0 ≡ none
      → (room_id ≡ room.id)
        × (lookup room_id
              (leave_room_request (user_of env room.id identity user) u (s, db) raw).1.joined_rooms
            ≡ none)
        × (is_member
              (leave_room_request (user_of env room.id identity user) u (s, db) raw).2.0
              leaver
            ≡ false)
  leave_agrees raw room_id leaver loaded named parsed =
      let same : leave env s db identity ≡ leave_as env s db room leaver =
        unfold leave in ground arith in
      let o = leave env s db identity in
      elim (Bool-cases (room_id == room.id)) [
        | inl home ↦
            let reached : leave_room_request (user_of env room.id identity user) u (s, db) raw
                ≡ UserGrain.finish_leave (user_of env room.id identity user) u room_id
                    (ok o.response, (o.state, o.store)) =
              unfold leave_room_request in ground arith in
            let agrees =
              finish_leave-agrees room_id o leaver
                (subst (LeaveAnswers leaver) (sym same) (leave_as-Answers leaver)) in
            rw reached (λ h. ((==_iff room_id room.id).0 home, (agrees h).0, (agrees h).1))
        | inr away ↦
            let lost : leave_room_request (user_of env room.id identity user) u (s, db) raw
                ≡ UserGrain.finish_leave (user_of env room.id identity user) u room_id
                    (err unreachable, (s, db)) =
              unfold leave_room_request in ground arith in
            rw lost (unfold UserGrain.finish_leave in λ h. absurd (ground arith))
      ]
