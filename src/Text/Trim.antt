-- ===== src/Text/Trim.antt =====
-- `TrimSpace` of a text that holds no white space.
use blabby.Prelude.{ℕ, ◌<◌, ◌≡◌, [], ◌∷◌, All, refl, ap, false}
use blabby.Text.Ascii.{decode_rune-ascii}
use blabby.Text.{
  Bytes, runes_from, is_space, all_space, trim_left_from, trim_right_from, trim_space,
}

-- ASCII, and no space
abbrev pub IsSolid : ℕ → Type 0
IsSolid b = (b < 128) × (is_space b ≡ false)

trim_left-id : (s : Bytes) → All IsSolid s → trim_left_from 0 s ≡ s
unfolding trim_left_from
trim_left-id [] h = refl
trim_left-id (b ∷ s) h = rw (decode_rune-ascii b s h.0.0, h.0.1)

trim_right-id : (s : Bytes) → All IsSolid s → trim_right_from 0 s ≡ s
unfolding trim_right_from runes_from all_space
trim_right-id [] h = refl
trim_right-id (b ∷ s) h =
    rw (decode_rune-ascii b s h.0.0, h.0.1) (ap (λ t. b ∷ t) (trim_right-id s h.1))

pub trim_space-id : (s : Bytes) → All IsSolid s → trim_space s ≡ s
unfolding trim_space
trim_space-id s h = rw (trim_left-id s h) (trim_right-id s h)
