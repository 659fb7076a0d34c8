-- ===== src/Wire/RoundTrip.antt =====
-- A reference survives the trip over the wire.
use blabby.Prelude.{ℕ, ◌≤◌, ◌<◌, ◌^◌, ◌≡◌, ok, arith, refl, some, length, false, [], ◌∷◌}
use blabby.Text.{Bytes, trim_space}
use blabby.Id.RoundTrip.{parse_id-format_id}
use blabby.PublicCode.Canonical.{IsCanonical, parse_public_code-IsCanonical}
use blabby.Domain.Refs.{
  UserRef, RoomRef, new_user_ref, new_room_ref, status_label, parse_room_status, is_blank, active,
  archived, max_user_name_bytes, max_room_name_bytes, RoomStatus,
}
use blabby.Wire.{parse_user_ref, parse_room_ref, proto_user_ref, proto_room_ref}

-- A reference as the program holds it: an int64 id above 0, a canonical code, and a name that the
-- constructor leaves as it is.
pub record IsSettled (nfc : Bytes → Bytes) (bound id : ℕ) (code name : Bytes) : Type 0 where
  pub positive : 0 < id
  pub id_fits : id < 2 ^ 63
  pub canonical : IsCanonical code
  pub trimmed : trim_space (nfc name) ≡ name
  pub named : is_blank name ≡ false
  pub name_fits : length name ≤ bound

canonical-not-blank : (code : Bytes) → IsCanonical code → is_blank code ≡ false
canonical-not-blank [] c = absurd (omega (arith, c.0))
canonical-not-blank (b ∷ s) c = refl

parse_room_status-label : (s : RoomStatus) → parse_room_status (status_label s) ≡ some s
unfolding parse_room_status
parse_room_status-label active = refl
parse_room_status-label archived = refl

module _ {nfc : Bytes → Bytes} where
  -- A settled user reference parses back from its wire form.
  pub parse_user_ref-proto :
      (u : UserRef)
      → IsSettled nfc max_user_name_bytes u.id u.public_code u.name
      → parse_user_ref nfc (proto_user_ref u) ≡ ok u
  unfolding parse_user_ref proto_user_ref
  parse_user_ref-proto u v =
      rw
        (
          parse_id-format_id u.id v.positive v.id_fits,
          parse_public_code-IsCanonical u.public_code v.canonical,
        )
        (unfold new_user_ref in ground (arith, v, canonical-not-blank u.public_code v.canonical))

  -- A settled room reference parses back from its wire form, with its status and its version.
  pub parse_room_ref-proto :
      (r : RoomRef)
      → IsSettled nfc max_room_name_bytes r.id r.public_code r.name
      → parse_room_ref nfc (proto_room_ref r) ≡ ok r
  unfolding parse_room_ref proto_room_ref
  parse_room_ref-proto r v =
      rw
        (
          parse_id-format_id r.id v.positive v.id_fits,
          parse_public_code-IsCanonical r.public_code v.canonical,
          parse_room_status-label r.status,
        )
        (unfold new_room_ref in
          rw (parse_room_status-label r.status)
            (ground (arith, v, canonical-not-blank r.public_code v.canonical)))
