-- ===== src/Text.antt =====
-- Go strings as lists of bytes: UTF-8 decoding (`for _, r := range s`, `utf8.ValidString`),
-- `strings.TrimSpace` and `strings.ToLower`, as the packages under internal/ use them.
pub mod Ascii
pub mod Trim
pub mod Charset
use Prim.Native.Char.{code}
use blabby.Prelude.{
  ℕ, suc, zero, ◌+◌, ◌-◌, ◌*◌, String, List, [], ◌∷◌, map, Bool, true, false, ◌&&◌, ◌||◌, not, ltb,
  leb, ◌==◌, if◌then◌else◌,
}

abbrev pub Bytes : Type 0
Bytes = List ℕ

-- A literal's code points, which are its bytes where it is ASCII.
abbrev pub codes : String → Bytes
codes String.[] = []
codes (String.◌∷◌ c s) = code c ∷ codes s

abbrev pub within : ℕ → ℕ → ℕ → Bool
within lo hi b = leb lo b && leb b hi

abbrev pub rune_error : ℕ
rune_error = 0xFFFD

-- A rune, and how many bytes it takes after the first.
abbrev pub Decoded : Type 0
Decoded = ℕ × ℕ

abbrev pub invalid : Decoded
invalid = (rune_error, 0)

abbrev is_cont : ℕ → Bool
is_cont = within 0x80 0xBF

decode_two : ℕ → Bytes → Decoded
decode_two b [] = invalid
decode_two b (c ∷ s) = if is_cont c then ((b - 0xC0) * 64 + (c - 0x80), 1) else invalid

decode_three : ℕ → Bytes → Decoded
decode_three b (c ∷ d ∷ s) =
    if within (if b == 0xE0 then 0xA0 else 0x80) (if b == 0xED then 0x9F else 0xBF) c && is_cont d
    then ((b - 0xE0) * 4096 + (c - 0x80) * 64 + (d - 0x80), 2)
    else invalid
decode_three b _ = invalid

decode_four : ℕ → Bytes → Decoded
decode_four b (c ∷ d ∷ e ∷ s) =
    if within (if b == 0xF0 then 0x90 else 0x80) (if b == 0xF4 then 0x8F else 0xBF) c
      && (is_cont d && is_cont e)
    then ((b - 0xF0) * 262144 + (c - 0x80) * 4096 + (d - 0x80) * 64 + (e - 0x80), 3)
    else invalid
decode_four b _ = invalid

-- `utf8.DecodeRuneInString` of a text that begins with the byte `b`.
unfoldable pub decode_rune : ℕ → Bytes → Decoded
unfolding decode_two decode_three decode_four
decode_rune b s =
    if ltb b 0x80
    then (b, 0)
    else if within 0xC2 0xDF b
    then decode_two b s
    else if within 0xE0 0xEF b
    then decode_three b s
    else if within 0xF0 0xF4 b
    then decode_four b s
    else invalid

-- The runes behind the next `skip` bytes.
unfoldable pub runes_from : ℕ → Bytes → List ℕ
runes_from skip [] = []
runes_from (suc skip) (b ∷ s) = runes_from skip s
runes_from zero (b ∷ s) = let (r, w) = decode_rune b s in r ∷ runes_from w s

-- What `for _, r := range s` visits.
abbrev pub runes : Bytes → List ℕ
runes s = runes_from 0 s

unfoldable pub valid_from : ℕ → Bytes → Bool
valid_from skip [] = true
valid_from (suc skip) (b ∷ s) = valid_from skip s
valid_from zero (b ∷ s) =
    let (r, w) = decode_rune b s in not (r == rune_error && w == 0) && valid_from w s

-- `utf8.ValidString`
abbrev pub valid_string : Bytes → Bool
valid_string s = valid_from 0 s

-- `unicode.IsSpace`
unfoldable pub is_space : ℕ → Bool
is_space r =
    within 9 13 r
    || (r == 0x20
        || (r == 0x85
            || (r == 0xA0
                || (r == 0x1680
                    || (within 0x2000 0x200A r
                        || (r == 0x2028
                            || (r == 0x2029 || (r == 0x202F || (r == 0x205F || r == 0x3000)))))))))

unfoldable pub trim_left_from : ℕ → Bytes → Bytes
trim_left_from skip [] = []
trim_left_from (suc skip) (b ∷ s) = trim_left_from skip s
trim_left_from zero (b ∷ s) =
    let (r, w) = decode_rune b s in
    let rest = trim_left_from w s in if is_space r then rest else b ∷ s

unfoldable pub all_space : List ℕ → Bool
all_space [] = true
all_space (r ∷ rs) = is_space r && all_space rs

-- Keeps the next `keep` bytes; stops where nothing but white space follows.
unfoldable pub trim_right_from : ℕ → Bytes → Bytes
unfolding all_space
trim_right_from keep [] = []
trim_right_from (suc keep) (b ∷ s) = b ∷ trim_right_from keep s
trim_right_from zero (b ∷ s) =
    let rest = trim_right_from (decode_rune b s).1 s in
    if all_space (runes_from 0 (b ∷ s)) then [] else b ∷ rest

-- `strings.TrimSpace`. An encoded space begins with a byte that continues no rune, so decoding
-- from the left finds the trailing spaces that Go finds from the right.
unfoldable pub trim_space : Bytes → Bytes
unfolding trim_left_from trim_right_from
trim_space s = trim_right_from 0 (trim_left_from 0 s)

abbrev pub lower : ℕ → ℕ
lower b = if within b'A' b'Z' b then b + 32 else b

-- `strings.ToLower` of an ASCII text.
unfoldable pub to_lower : Bytes → Bytes
to_lower = map lower

-- Equality of two texts.
unfoldable pub bytes_eq : Bytes → Bytes → Bool
bytes_eq [] [] = true
bytes_eq (b ∷ s) (c ∷ t) = b == c && bytes_eq s t
bytes_eq _ _ = false
