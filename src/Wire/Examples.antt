-- ===== src/Wire/Examples.antt =====
-- The theorems on references at concrete inputs, with the identity for a normaliser.
use blabby.Prelude.{arith, refl}
use blabby.Text.{Bytes, codes}
use blabby.PublicCode.{contains_rune}
use blabby.Domain.Refs.{UserRef, RoomRef, active, max_user_name_bytes, max_room_name_bytes}
use blabby.Wire.RoundTrip.{IsSettled}

abbrev same : Bytes → Bytes
same s = s

abbrev ada : UserRef
ada = record { id = 7; public_code = codes "K7M3P9X2WQ"; name = codes "Ada" }

abbrev lobby : RoomRef
lobby = record {
  id = 9;
  public_code = codes "K7M3P9X2WQ";
  name = codes "Lobby";
  status = active;
  metadata_version = 3;
}

ada-IsSettled : IsSettled same max_user_name_bytes ada.id ada.public_code ada.name
unfolding contains_rune blabby.Text.trim_space blabby.Text.is_space blabby.Text.decode_rune
    blabby.Text.runes_from
ada-IsSettled = record {
  positive = omega arith;
  id_fits = omega arith;
  canonical =
      (refl, (refl, (refl, (refl, (refl, (refl, (refl, (refl, (refl, (refl, (refl, tt)))))))))));
  trimmed = refl;
  named = refl;
  name_fits = omega arith;
}

lobby-IsSettled : IsSettled same max_room_name_bytes lobby.id lobby.public_code lobby.name
unfolding contains_rune blabby.Text.trim_space blabby.Text.is_space blabby.Text.decode_rune
    blabby.Text.runes_from
lobby-IsSettled = record {
  positive = omega arith;
  id_fits = omega arith;
  canonical =
      (refl, (refl, (refl, (refl, (refl, (refl, (refl, (refl, (refl, (refl, (refl, tt)))))))))));
  trimmed = refl;
  named = refl;
  name_fits = omega arith;
}
