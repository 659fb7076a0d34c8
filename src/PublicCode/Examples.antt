-- ===== src/PublicCode/Examples.antt =====
-- The theorems on public codes at concrete inputs.
use blabby.Prelude.{[], ◌∷◌, ◌≡◌, ok, err, refl}
use blabby.Text.{Bytes, codes, to_lower}
use blabby.PublicCode.{
  crockford_symbol, parse_public_code, new_public_code, format_user, format_room, parse_user_code,
  parse_room_code, contains_rune, parse_prefixed_code, invalid_code_prefix,
}
use blabby.PublicCode.Alphabet.{IsSymbol}
use blabby.PublicCode.Canonical.{IsCanonical}
use blabby.PublicCode.Edge.{parse-format}

abbrev code : Bytes
code = codes "K7M3P9X2WQ"

code-IsCanonical : IsCanonical code
unfolding contains_rune
code-IsCanonical =
    (refl, (refl, (refl, (refl, (refl, (refl, (refl, (refl, (refl, (refl, (refl, tt)))))))))))

seven : IsSymbol b'7'
unfolding contains_rune
seven = refl

typed : parse_public_code (codes " k7m3p9x2wq ") ≡ ok code
unfolding parse_public_code blabby.Text.trim_space blabby.Text.is_space blabby.Text.decode_rune
    blabby.Text.runes_from blabby.PublicCode.normalize_all contains_rune
    blabby.PublicCode.normalize_crockford
typed = refl

abbrev random : Bytes
random = 0 ∷ 31 ∷ 32 ∷ 255 ∷ 7 ∷ 128 ∷ 64 ∷ 99 ∷ 200 ∷ 1 ∷ []

parse-format_example :
    (parse_user_code (format_user code) ≡ ok code)
    × (parse_room_code (format_room code) ≡ ok code)
    × (parse_user_code (format_room code) ≡ err invalid_code_prefix)
    × (parse_room_code (format_user code) ≡ err invalid_code_prefix)
parse-format_example = parse-format code code-IsCanonical

typed_user : parse_prefixed_code b'U' (codes "Uk7m3p9x2wq") ≡ ok code
unfolding parse_prefixed_code blabby.Text.trim_space blabby.Text.is_space blabby.Text.decode_rune
    blabby.Text.runes_from parse_public_code blabby.PublicCode.normalize_all contains_rune
    blabby.PublicCode.normalize_crockford
typed_user = refl
