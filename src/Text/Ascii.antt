-- ===== src/Text/Ascii.antt =====
-- ASCII texts: each byte is a rune.
use blabby.Prelude.{ℕ, ◌<◌, ◌≡◌, [], ◌∷◌, All, arith, refl, true, subst}
use blabby.Text.{Bytes, decode_rune, runes, runes_from, valid_from, valid_string, bytes_eq}

abbrev pub IsAscii : Bytes → Type 0
IsAscii = All (λ b. b < 128)

pub decode_rune-ascii : (b : ℕ) (s : Bytes) → b < 128 → decode_rune b s ≡ (b, 0)
unfolding decode_rune
decode_rune-ascii b s h = ground arith

pub runes-IsAscii : (s : Bytes) → IsAscii s → runes s ≡ s
unfolding runes_from decode_rune
runes-IsAscii [] h = refl
runes-IsAscii (b ∷ s) h = ground (arith, runes-IsAscii s h.1)

pub valid_string-IsAscii : (s : Bytes) → IsAscii s → valid_string s ≡ true
unfolding valid_from decode_rune
valid_string-IsAscii [] h = refl
valid_string-IsAscii (b ∷ s) h = ground (arith, valid_string-IsAscii s h.1)

-- A byte from 128 on never decodes to an ASCII rune.
decode_rune-high : (b : ℕ) (s : Bytes) → (decode_rune b s).0 < 128 → b < 128
unfolding decode_rune
decode_rune-high b [] h = ground arith
decode_rune-high b (c ∷ []) h = ground arith
decode_rune-high b (c ∷ d ∷ []) h = ground arith
decode_rune-high b (c ∷ d ∷ e ∷ s) h = ground arith

-- A text whose runes are all ASCII is an ASCII text.
pub runes_low : (s : Bytes) → All (λ r. r < 128) (runes s) → IsAscii s
unfolding runes_from
runes_low [] h = tt
runes_low (b ∷ s) h =
    let low = decode_rune-high b s h.0 in
    let one = decode_rune-ascii b s low in
    (low, runes_low s (subst (λ d. All (λ r. r < 128) (runes_from d.1 s)) one h.1))

pub bytes_eq_refl : (s : Bytes) → bytes_eq s s ≡ true
unfolding bytes_eq
bytes_eq_refl [] = refl
bytes_eq_refl (b ∷ s) = ground (arith, bytes_eq_refl s)

pub bytes_eq-eq : (s t : Bytes) → bytes_eq s t ≡ true → s ≡ t
unfolding bytes_eq
bytes_eq-eq [] [] h = refl
bytes_eq-eq [] (c ∷ t) h = cc
bytes_eq-eq (b ∷ s) [] h = cc
bytes_eq-eq (b ∷ s) (c ∷ t) h = ground (arith, bytes_eq-eq s t)
