-- ===== src/PublicCode.antt =====
-- internal/id/public_code.go and crockford.go: the opaque ten-symbol codes of users and rooms.
pub mod Alphabet
pub mod Canonical
pub mod Edge
mod Examples
use Prim.Native.Nat.{bit_and}
use blabby.Prelude.{
  ℕ, suc, zero, ◌+◌, ◌-◌, List, [], ◌∷◌, Bool, true, false, ◌||◌, ◌==◌, if◌then◌else◌, Result, ok,
  err, ◌>>=◌, map, length,
}
use blabby.Text.{Bytes, codes, within, runes, trim_space}

pub data Error : Type 0 where
  invalid_public_code invalid_code_prefix : Error

abbrev pub crockford_alphabet : Bytes
crockford_alphabet = codes "0123456789ABCDEFGHJKMNPQRSTVWXYZ"

abbrev pub public_code_len : ℕ
public_code_len = 10

abbrev symbol_at : Bytes → ℕ → ℕ
symbol_at [] i = 0
symbol_at (b ∷ s) zero = b
symbol_at (b ∷ s) (suc i) = symbol_at s i

-- `crockfordAlphabet[b&0x1f]`; the index is below 32.
unfoldable pub crockford_symbol : ℕ → ℕ
crockford_symbol b = symbol_at crockford_alphabet (bit_and b 0x1f)

unfoldable pub normalize_crockford : ℕ → ℕ
normalize_crockford r =
    if r == b'o' || r == b'O'
    then b'0'
    else if r == b'i' || (r == b'I' || (r == b'l' || r == b'L'))
    then b'1'
    else if within b'a' b'z' r
    then r - 32
    else r

-- `strings.ContainsRune`
unfoldable pub contains_rune : Bytes → ℕ → Bool
contains_rune [] r = false
contains_rune (b ∷ s) r = b == r || contains_rune s r

-- The loop of `ParsePublicCode`. A symbol of the alphabet is one byte.
unfoldable pub normalize_all : List ℕ → Result Error Bytes
normalize_all [] = ok []
normalize_all (r ∷ rs) =
    let n = normalize_crockford r in
    let rest = normalize_all rs in
    if contains_rune crockford_alphabet n
    then (do s ← rest; ok (n ∷ s))
    else err invalid_public_code

-- `ParsePublicCode`; a code is its text.
unfoldable pub parse_public_code : Bytes → Result Error Bytes
parse_public_code raw =
    let trimmed = trim_space raw in
    if length trimmed == public_code_len
    then normalize_all (runes trimmed)
    else err invalid_public_code

-- `NewPublicCode` from the bytes that crypto/rand gives.
unfoldable pub new_public_code : Bytes → Bytes
new_public_code = map crockford_symbol

-- `FormatUser`, `FormatRoom`
unfoldable pub format_user : Bytes → Bytes
format_user code = b'U' ∷ code

unfoldable pub format_room : Bytes → Bytes
format_room code = b'R' ∷ code

unfoldable pub strip_prefix : ℕ → Bytes → Result Error Bytes
strip_prefix prefix [] = err invalid_public_code
strip_prefix prefix (c ∷ rest) =
    if c == prefix || c == prefix + 32 then parse_public_code rest else err invalid_code_prefix

-- `parsePrefixedCode`
unfoldable pub parse_prefixed_code : ℕ → Bytes → Result Error Bytes
unfolding strip_prefix
parse_prefixed_code prefix raw = strip_prefix prefix (trim_space raw)

-- `ParseUserCode`, `ParseRoomCode`
unfoldable pub parse_user_code : Bytes → Result Error Bytes
parse_user_code = parse_prefixed_code b'U'

unfoldable pub parse_room_code : Bytes → Result Error Bytes
parse_room_code = parse_prefixed_code b'R'
