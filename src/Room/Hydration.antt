-- ===== src/Room/Hydration.antt =====
-- What an activated room knows, and what an unloaded one answers.
use blabby.Prelude.{
  ℕ, List, [], ◌∷◌, some, Bool, true, false, ◌==◌, ◌||◌, Result, ok, err, ◌≡◌, refl, ◌∙◌, arith,
  ◌⊎◌, inl, inr,
}
use blabby.Text.{Bytes}
use blabby.Id.{parse_id}
use blabby.Map.{lookup}
use blabby.Map.Laws.{lookup-insert, Distinct, insert-Distinct}
use blabby.Domain.Refs.{UserRef, RoomRef, active, archived}
use blabby.ErrCode.{room_not_found}
use blabby.Wire.{UserRefPb}
use blabby.Room.Ports.{StoreError}
use blabby.Room.State.{RoomState, new_room_state, load_room, add_member, is_member}
use blabby.Room.Grain.{Env, join, leave, post_message, refuse, join_err, leave_err, post_err}
use blabby.Room.Activation.{
  Loaders, LoadError, absent, init, hydrate, load_members, add_members, names, settle_hydrate,
}

add_member-is_member :
    (s : RoomState) (m : UserRef) (u : ℕ)
    → is_member (add_member s m).0 u ≡ (m.id == u || is_member s u)
unfolding add_member
add_member-is_member s m u = ground (arith, lookup-insert m.id u m s.members)

add_members-is_member :
    (ms : List UserRef) (s : RoomState) (u : ℕ)
    → is_member (add_members s ms) u ≡ (names u ms || is_member s u)
unfolding add_members names
add_members-is_member [] s u = refl
add_members-is_member (m ∷ ms) s u =
    add_members-is_member ms (add_member s m).0 u
    ∙ rw (add_member-is_member s m u) (swap (names u ms) (m.id == u) (is_member s u))
  where
    swap : (a b c : Bool) → (a || (b || c)) ≡ ((b || a) || c)
    swap true true c = refl
    swap true false c = refl
    swap false true c = refl
    swap false false c = refl

add_members-Distinct :
    (ms : List UserRef) (s : RoomState) → Distinct s.members → Distinct (add_members s ms).members
unfolding add_members
add_members-Distinct [] s d = d
add_members-Distinct (m ∷ ms) s d = add_members-Distinct ms (add_member s m).0 (one s m d)
  where
    one : (s : RoomState) (m : UserRef) → Distinct s.members → Distinct (add_member s m).0.members
    one s m d = unfold add_member in grind (arith, insert-Distinct)

add_members-ref : (ms : List UserRef) (s : RoomState) → (add_members s ms).ref ≡ s.ref
unfolding add_members
add_members-ref [] s = refl
add_members-ref (m ∷ ms) s = add_members-ref ms (add_member s m).0 ∙ kept s m
  where
    kept : (s : RoomState) (m : UserRef) → (add_member s m).0.ref ≡ s.ref
    kept s m = unfold add_member in ground arith

module _ {S : Type 0} (l : Loaders S) (identity : Bytes) (room_id : ℕ) (room : RoomRef)
    (read : ℕ → S → Result StoreError (List UserRef) × S) (members : List UserRef)
    (db mid after : S) where
  -- Where the identity is a room id, the loader gives that room and it is active, `LoadMembers` is wired, and
  -- it answers with the members, `Init` ends in a grain that serves that room, whose roster has those
  -- members and nobody else, without repetition.
  pub init-serves :
      parse_id identity ≡ ok room_id
      → l.load_room room_id db ≡ (ok (record room { status = active }), mid)
      → l.load_members ≡ some read
      → read room.id mid ≡ (ok members, after)
      → (s : RoomState) × (init l identity db ≡ (some s, after))
        × (s.ref ≡ some (record room { status = active }))
        × ((u : ℕ) → is_member s u ≡ names u members)
        × Distinct s.members
  unfolding init hydrate load_members settle_hydrate load_room new_room_state lookup
  init-serves parsed loaded wired seeded =
      let s = load_room new_room_state (record room { status = active }) in
      (
        add_members s members,
        rw (parsed, loaded, wired, seeded) refl,
        add_members-ref members s,
        (λ u. add_members-is_member members s u ∙ or_false (names u members)),
        add_members-Distinct members s tt,
      )
    where
      or_false : (b : Bool) → (b || false) ≡ b
      or_false true = refl
      or_false false = refl

-- A room that cannot be served: it is absent, or it is archived.
abbrev pub IsUnservable : Result LoadError RoomRef → Type 0
IsUnservable r =
    (r ≡ err absent) ⊎ ((room : RoomRef) × (r ≡ ok (record room { status = archived })))

-- Where the loader does not find the room, or finds it archived, `Init` ends in a grain without a room,
-- whose `Join`, `Leave` and `PostMessage` all answer ROOM_NOT_FOUND and change and send nothing.
pub init-refuses :
    {S : Type 0} (l : Loaders S) (identity : Bytes) (room_id : ℕ) (r : Result LoadError RoomRef)
    (db mid : S) (env : Env S) (user : UserRefPb) (leaver raw : Bytes)
    → parse_id identity ≡ ok room_id
    → l.load_room room_id db ≡ (r, mid)
    → IsUnservable r
    → (s : RoomState) × (init l identity db ≡ (some s, mid))
      × (join env s mid user ≡ refuse s mid (join_err room_not_found "room not found"))
      × (leave env s mid leaver ≡ refuse s mid (leave_err room_not_found "room not found"))
      × (post_message env s mid user raw ≡ refuse s mid (post_err room_not_found "room not found"))
unfolding init hydrate settle_hydrate new_room_state join leave post_message
init-refuses l identity room_id r db mid env user leaver raw parsed loaded (inl missing) =
    (new_room_state, rw (parsed, loaded, missing) refl, refl, refl, refl)
init-refuses l identity room_id r db mid env user leaver raw parsed loaded (inr (room, gone)) =
    (new_room_state, rw (parsed, loaded, gone) refl, refl, refl, refl)
