-- ===== src/Domain/Examples.antt =====
-- The theorems on the domain types at concrete inputs, with the identity for a normaliser of ASCII.
use blabby.Prelude.{String, [], ◌∷◌, ◌≡◌, some, ok, refl}
use blabby.Text.{Bytes, codes, runes}
use blabby.Text.Charset.{Nfc}
use blabby.Domain.Handle.{new_handle, normalized, IsHandle, new_handle-canonical}
use blabby.Domain.Refs.{UserRef, new_user_ref}
use blabby.Domain.MessageText.{
  new_message_text, new_message_text-accepts, canonicalize_newlines, canonicalize_newlines_lem,
  max_message_text_bytes, IsShowable,
}

abbrev same : Bytes → Bytes
same s = s

same-Nfc : Nfc same
same-Nfc = record { ascii = λ s h. refl }

abbrev handle : Bytes
handle = codes "Ada_99"

handle_made : new_handle same (codes " Ada_99") ≡ some handle
unfolding new_handle blabby.Text.trim_space blabby.Text.is_space blabby.Text.decode_rune
    blabby.Text.runes_from blabby.Text.Charset.all_test blabby.Domain.Handle.is_handle_char
handle_made = refl

abbrev the_label : String
the_label = "admin"

abbrev ada : UserRef
ada = record { id = 7; public_code = codes "K7M3P9X2WQ"; name = codes "Ada" }

ada_made : new_user_ref same 7 (codes "K7M3P9X2WQ") (codes " Ada ") ≡ ok ada
unfolding new_user_ref blabby.Text.trim_space blabby.Text.is_space blabby.Text.decode_rune
    blabby.Text.runes_from
ada_made = refl

text_made : new_message_text same (codes "hi there ") ≡ ok (codes "hi there")
unfolding new_message_text blabby.Text.valid_from blabby.Text.decode_rune blabby.Text.trim_space
    canonicalize_newlines blabby.Text.is_space blabby.Text.runes_from blabby.Text.Charset.all_test
    blabby.Domain.MessageText.is_message_text_rune
text_made = refl

abbrev windows : Bytes
windows = 97 ∷ b'\r' ∷ b'\n' ∷ b'\r' ∷ 98 ∷ []
