-- ===== src/User/State.antt =====
-- internal/grain/user/state.go: the rooms that a user has joined.
use blabby.Prelude.{ℕ, List, [], ◌∷◌, leb, if◌then◌else◌, ◌≡◌, arith, refl}
use blabby.Map.{insert, delete, keys, sort, insert_sorted, elem, has_key}
use blabby.Map.Laws.{Distinct}
use blabby.Map.Sorted.{Ascending, elem-sort-keys, sort-keys-Ascending}
use blabby.Domain.Refs.{RoomRef}

pub record UserState : Type 0 where
  pub joined_rooms : List (ℕ × RoomRef)

unfoldable pub new_user_state : UserState
new_user_state = record { joined_rooms = [] }

unfoldable pub join_room : UserState → RoomRef → UserState
join_room s ref = record s { joined_rooms = insert ref.id ref s.joined_rooms }

unfoldable pub leave_room : UserState → ℕ → UserState
leave_room s room_id = record s { joined_rooms = delete room_id s.joined_rooms }

unfoldable pub joined_room_ids : UserState → List ℕ
joined_room_ids s = sort (keys s.joined_rooms)

unfoldable pub values : List (ℕ × RoomRef) → List RoomRef
values [] = []
values ((k, ref) ∷ m) = ref ∷ values m

unfoldable pub insert_ref : RoomRef → List RoomRef → List RoomRef
insert_ref r [] = r ∷ []
insert_ref r (q ∷ qs) = if leb r.id q.id then r ∷ q ∷ qs else q ∷ insert_ref r qs

unfoldable pub sort_refs : List RoomRef → List RoomRef
unfolding insert_ref
sort_refs [] = []
sort_refs (r ∷ rs) = insert_ref r (sort_refs rs)

unfoldable pub joined_room_refs : UserState → List RoomRef
unfolding values sort_refs
joined_room_refs s = sort_refs (values s.joined_rooms)

-- Every room is cached under its own id, and once.
abbrev pub Keyed : List (ℕ × RoomRef) → Type 0
Keyed [] = Unit
Keyed ((k, ref) ∷ m) = (k ≡ ref.id) × Keyed m

unfoldable pub ids : List RoomRef → List ℕ
ids [] = []
ids (r ∷ rs) = r.id ∷ ids rs

ids-insert_ref :
    (r : RoomRef) (rs : List RoomRef) → ids (insert_ref r rs) ≡ insert_sorted r.id (ids rs)
unfolding ids insert_ref insert_sorted
ids-insert_ref r [] = refl
ids-insert_ref r (q ∷ qs) = ground (arith, ids-insert_ref r qs)

ids-sort_refs : (m : List (ℕ × RoomRef)) → Keyed m → ids (sort_refs (values m)) ≡ sort (keys m)
unfolding ids sort_refs values sort keys
ids-sort_refs [] h = refl
ids-sort_refs ((k, r) ∷ m) h =
    rw (ids-insert_ref r (sort_refs (values m)), ids-sort_refs m h.1, h.0) refl

-- The listing of the joined rooms is in ascending order of the ids, without repetition, and has
-- exactly the rooms that are cached.
pub joined_room_refs-Ascending :
    (s : UserState)
    → Keyed s.joined_rooms
    → Distinct s.joined_rooms
    → Ascending (ids (joined_room_refs s))
      × ((id : ℕ) → elem id (ids (joined_room_refs s)) ≡ has_key id s.joined_rooms)
unfolding joined_room_refs
joined_room_refs-Ascending s keyed d =
    rw (ids-sort_refs s.joined_rooms keyed)
      (sort-keys-Ascending s.joined_rooms d, λ id. elem-sort-keys id s.joined_rooms)
