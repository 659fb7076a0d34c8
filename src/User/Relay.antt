-- ===== src/User/Relay.antt =====
-- What a user grain makes of the answers of the rooms.
use blabby.Prelude.{
  ℕ, Option, none, some, Bool, true, false, String, Result, ok, err, if◌then◌else◌, ◌≡◌, ◌==◌, refl,
  arith, pos, ap, ◌∙◌,
}
use blabby.Text.{Bytes, trim_space}
use blabby.Id
use blabby.Id.{parse_id}
use blabby.Map.{lookup}
use blabby.Map.Laws.{lookup-insert, lookup-delete}
use blabby.Domain.Refs.{RoomRef, is_blank}
use blabby.ErrCode
use blabby.ErrCode.{
  parse_iff, Code, number, status_of, internal_error, missing_field, invalid_request,
}
use blabby.Wire
use blabby.Wire.{UserRefPb, RoomRefPb, nil_room_ref, ErrorDetail, err_detail, parse_room_ref}
use blabby.Room.Grain.{JoinResponse, LeaveResponse, PostMessageResponse}
use blabby.User.State.{UserState, join_room, leave_room}
use blabby.User.Grain.{
  TransportError, Self, Reply, parse_room_error, settle_error, pass_or_forward, room_or_nil,
  is_already_member, is_not_member, never, settle_join, settle_leave, settle_send, forwarded,
  finish_join, join_room_request, finish_leave, leave_room_request, finish_send, send_message,
  send_checked, finish_relay, set_room_member_role, transfer_room_ownership,
}

-- A pair of a number and a status of the taxonomy.
pub record IsCanonicalDetail (d : ErrorDetail) : Type 0 where
  pub of : Code
  pub number_of : d.code ≡ pos (number of)
  pub label_of : d.status ≡ status_of of

abbrev pub AllCanonical : Option ErrorDetail → Type 0
AllCanonical none = Unit
AllCanonical (some d) = IsCanonicalDetail d

err_detail-Canonical : (c : Code) (msg : String) → IsCanonicalDetail (err_detail c msg)
err_detail-Canonical c msg = record { of = c; number_of = refl; label_of = refl }

settle_error-Canonical :
    (d : ErrorDetail) (r : Result ErrCode.ParseError Code) → IsCanonicalDetail (settle_error d r).1
settle_error-Canonical d (err e) = err_detail-Canonical internal_error "room operation failed"
settle_error-Canonical d (ok code) = err_detail-Canonical code d.message

pass-Canonical :
    (passes : Code → Bool) (p : Code × ErrorDetail)
    → IsCanonicalDetail p.1
    → AllCanonical (pass_or_forward passes p)
pass-Canonical passes (code, d) h =
    elim (passes code) as (λ b. AllCanonical (if b then none else some d)) [ true ↦ tt | false ↦ h ]

forwarded-Canonical :
    (passes : Code → Bool) (o : Option ErrorDetail) → AllCanonical (forwarded passes o)
unfolding forwarded
forwarded-Canonical passes none = tt
forwarded-Canonical passes (some d) =
    pass-Canonical passes (parse_room_error d)
      (settle_error-Canonical d (ErrCode.parse d.code d.status))

-- A detail of this program is understood by its code.
pub forwarded-detail :
    (passes : Code → Bool) (c : Code) (msg : String)
    → forwarded passes (some (err_detail c msg))
      ≡ (if passes c then none else some (err_detail c msg))
unfolding forwarded
forwarded-detail passes c msg =
    rw ((parse_iff (pos (number c)) (status_of c) c).1 (refl, refl)) refl

-- The outcome of a `JoinRoom`.
Relayed : {W : Type 0} → UserState → Reply W → Type 0
Relayed s reply =
    AllCanonical reply.0
    × ((d : ErrorDetail) → reply.0 ≡ some d → reply.1 ≡ s)
    × (reply.0 ≡ none → (ref : RoomRef) × (reply.1 ≡ join_room s ref))

unfold_Relayed :
    {W : Type 0} (s : UserState) (reply : Reply W)
    → Relayed s reply
    → AllCanonical reply.0
      × ((d : ErrorDetail) → reply.0 ≡ some d → reply.1 ≡ s)
      × (reply.0 ≡ none → (ref : RoomRef) × (reply.1 ≡ join_room s ref))
unfolding Relayed
unfold_Relayed s reply h = h

refused-Relayed :
    {W : Type 0} (s : UserState) (w : W) (d : ErrorDetail)
    → IsCanonicalDetail d
    → Relayed s (some d, s, w)
unfolding Relayed
refused-Relayed s w d c = (c, (λ e h. refl), λ h. absurd (ground arith))

-- What holds after the room id is parsed: by the refusal, and by each id.
pub on_id :
    {A : Type 0} (r : Result Id.Error ℕ) (P : A → Type 0) (f : ℕ → A) (bad : A)
    → P bad
    → ((room_id : ℕ) → P (f room_id))
    → P (elim r [ err e ↦ bad | ok room_id ↦ f room_id ])
on_id (err e) P f bad refused done = refused
on_id (ok room_id) P f bad refused done = done room_id

module _ {W : Type 0} (g : Self W) (s : UserState) where
  settle_join-Relayed :
      (w : W) (o : Option ErrorDetail) (r : Result Wire.Error RoomRef)
      → AllCanonical o
      → Relayed s (settle_join g s w o r)
  settle_join-Relayed w (some d) r c = refused-Relayed s w d c
  settle_join-Relayed w none (err e) c =
      refused-Relayed s w (err_detail internal_error "room operation failed")
        (err_detail-Canonical internal_error "room operation failed")
  settle_join-Relayed w none (ok ref) c =
      unfold Relayed in (tt, (λ d h. absurd (ground arith)), λ h. (ref, refl))

  finish_join-Relayed : (r : Result TransportError JoinResponse × W) → Relayed s (finish_join g s r)
  unfolding finish_join
  finish_join-Relayed (err e, w) =
      refused-Relayed s w (err_detail internal_error "failed to reach room")
        (err_detail-Canonical internal_error "failed to reach room")
  finish_join-Relayed (ok resp, w) =
      settle_join-Relayed w (forwarded is_already_member resp.error)
        (parse_room_ref g.nfc (room_or_nil resp.room))
        (forwarded-Canonical is_already_member resp.error)

  settle_leave-Canonical :
      (room_id : ℕ) (w : W) (o : Option ErrorDetail)
      → AllCanonical o
      → AllCanonical (settle_leave g s room_id w o).0
  settle_leave-Canonical room_id w none c = tt
  settle_leave-Canonical room_id w (some d) c = c

  finish_leave-Canonical :
      (room_id : ℕ) (r : Result TransportError LeaveResponse × W)
      → AllCanonical (finish_leave g s room_id r).0
  unfolding finish_leave
  finish_leave-Canonical room_id (err e, w) =
      err_detail-Canonical internal_error "failed to reach room"
  finish_leave-Canonical room_id (ok resp, w) =
      settle_leave-Canonical room_id w (forwarded is_not_member resp.error)
        (forwarded-Canonical is_not_member resp.error)

  settle_send-Canonical :
      (o : Option ErrorDetail) (t : Option ℕ)
      → AllCanonical o
      → AllCanonical (settle_send g o t).error
  settle_send-Canonical none t c = tt
  settle_send-Canonical (some d) t c = c

  finish_send-Canonical :
      (r : Result TransportError PostMessageResponse × W) → AllCanonical (finish_send g r).0.error
  unfolding finish_send
  finish_send-Canonical (err e, w) = err_detail-Canonical internal_error "failed to reach room"
  finish_send-Canonical (ok resp, w) =
      settle_send-Canonical (forwarded never resp.error) resp.timestamp
        (forwarded-Canonical never resp.error)

  finish_relay-Canonical :
      (r : Result TransportError (Option ErrorDetail) × W) → AllCanonical (finish_relay g r).0
  unfolding finish_relay
  finish_relay-Canonical (err e, w) = err_detail-Canonical internal_error "failed to reach room"
  finish_relay-Canonical (ok error, w) = forwarded-Canonical never error

module _ {W : Type 0} (g : Self W) (s : UserState) (w : W) where
  join_room-Relayed : (raw : Bytes) → Relayed s (join_room_request g s w raw)
  unfolding join_room_request
  join_room-Relayed raw =
      on_id (parse_id raw) (Relayed s) (λ room_id. finish_join g s (g.rooms.join room_id g.user w))
        (some (err_detail invalid_request "room_id is required"), s, w)
        (refused-Relayed s w (err_detail invalid_request "room_id is required")
          (err_detail-Canonical invalid_request "room_id is required"))
        (λ room_id. finish_join-Relayed g s (g.rooms.join room_id g.user w))

  -- A `JoinRoom` or a `LeaveRoom` that is answered with an error leaves the cached rooms as they
  -- were.
  pub user_fail_closed :
      (raw : Bytes) (d : ErrorDetail)
      → ((join_room_request g s w raw).0 ≡ some d → (join_room_request g s w raw).1 ≡ s)
        × ((leave_room_request g s w raw).0 ≡ some d → (leave_room_request g s w raw).1 ≡ s)
  unfolding join_room_request leave_room_request
  user_fail_closed raw d = (ground arith, ground arith)

  -- A `JoinRoom` that is answered without an error has cached one room, and left the other entries
  -- alone.
  pub join_room_caches :
      (raw : Bytes)
      → (join_room_request g s w raw).0 ≡ none
      → (ref : RoomRef) × ((id : ℕ)
          → lookup id (join_room_request g s w raw).1.joined_rooms
            ≡ (if ref.id == id then some ref else lookup id s.joined_rooms))
  unfolding join_room_request join_room
  join_room_caches raw h =
      let (c, closed, caches) = unfold_Relayed s _ (join_room-Relayed raw) in
      let (ref, same) = caches h in
      (
        ref,
        λ id. ap (λ t. lookup id t.joined_rooms) same ∙ lookup-insert ref.id id ref s.joined_rooms,
      )

  -- A `LeaveRoom` that is answered without an error has dropped the named room, and left the other
  -- entries alone.
  pub leave_room_drops :
      (raw : Bytes) (room_id id : ℕ)
      → parse_id raw ≡ ok room_id
      → (leave_room_request g s w raw).0 ≡ none
      → lookup id (leave_room_request g s w raw).1.joined_rooms
        ≡ (if room_id == id then none else lookup id s.joined_rooms)
  unfolding leave_room_request leave_room
  leave_room_drops raw room_id id parsed h = ground (arith, lookup-delete room_id id s.joined_rooms)

  sent-Canonical :
      (room_id : ℕ) (text : Bytes) → AllCanonical (send_checked g w room_id text).0.error
  unfolding send_checked
  sent-Canonical room_id text =
      elim (is_blank (trim_space text))
        as (λ b.
          AllCanonical
            (if b
              then (
                record {
                  error = some (err_detail missing_field "text is required");
                  timestamp = none;
                },
                w,
              )
              else finish_send g (g.rooms.post_message room_id g.user text w)).0.error) [
                | true ↦ err_detail-Canonical missing_field "text is required"
                | false ↦ finish_send-Canonical g s (g.rooms.post_message room_id g.user text w)
              ]

  -- Whatever the rooms answer, an error that a user grain answers with is a code of the taxonomy
  -- with its own status.
  pub user_errors_canonical :
      (raw text target : Bytes) (role : String)
      → AllCanonical (join_room_request g s w raw).0
        × AllCanonical (leave_room_request g s w raw).0
        × AllCanonical (send_message g w raw text).0.error
        × AllCanonical (set_room_member_role g w raw target role).0
        × AllCanonical (transfer_room_ownership g w raw target).0
  unfolding leave_room_request send_message set_room_member_role transfer_room_ownership
  user_errors_canonical raw text target role = (
    (unfold_Relayed s _ (join_room-Relayed raw)).0,
    on_id (parse_id raw) (λ (r : Reply W). AllCanonical r.0)
        (λ room_id. finish_leave g s room_id (g.rooms.leave room_id g.identity w)) _
        (err_detail-Canonical invalid_request "room_id is required")
        (λ room_id. finish_leave-Canonical g s room_id (g.rooms.leave room_id g.identity w)),
    on_id (parse_id raw) (λ (r : PostMessageResponse × W). AllCanonical r.0.error) _ _
        (err_detail-Canonical invalid_request "room_id is required")
        (λ room_id. sent-Canonical room_id text),
    on_id (parse_id raw) (λ (r : Option ErrorDetail × W). AllCanonical r.0)
        (λ room_id. finish_relay g (g.rooms.set_member_role room_id g.user target role w)) _
        (err_detail-Canonical invalid_request "room_id is required")
        (λ room_id.
          finish_relay-Canonical g s (g.rooms.set_member_role room_id g.user target role w)),
    on_id (parse_id raw) (λ (r : Option ErrorDetail × W). AllCanonical r.0)
        (λ room_id. finish_relay g (g.rooms.transfer_ownership room_id g.user target w)) _
        (err_detail-Canonical invalid_request "room_id is required")
        (λ room_id.
          finish_relay-Canonical g s (g.rooms.transfer_ownership room_id g.user target w)),
  )
