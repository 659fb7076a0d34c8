-- ===== src/Text/Charset.antt =====
-- Texts that a test confines to a set of ASCII characters without white space: each byte is a
-- rune, and neither trimming nor Unicode normalisation changes them.
use blabby.Prelude.{ℕ, ◌≡◌, List, [], ◌∷◌, All, arith, refl, Bool, true, ◌&&◌}
use blabby.Text.{Bytes, runes, trim_space}
use blabby.Text.Ascii.{IsAscii, runes-IsAscii, runes_low}
use blabby.Text.Trim.{IsSolid, trim_space-id}

-- A loop over runes that returns an error at the first that fails the test.
unfoldable pub all_test : (ℕ → Bool) → List ℕ → Bool
all_test p [] = true
all_test p (r ∷ rs) = p r && all_test p rs

-- What golang.org/x/text/unicode/norm documents of `norm.NFC.String` and the domain relies on.
pub record Nfc (nfc : Bytes → Bytes) : Type 0 where
  -- ASCII text is in normal form.
  pub ascii : (s : Bytes) → IsAscii s → nfc s ≡ s

pub All-all_test : (p : ℕ → Bool) (rs : List ℕ) → all_test p rs ≡ true → All (λ r. p r ≡ true) rs
unfolding all_test
All-all_test p [] h = tt
All-all_test p (r ∷ rs) h = (ground arith, All-all_test p rs (ground arith))

pub all_test-All : (p : ℕ → Bool) (rs : List ℕ) → All (λ r. p r ≡ true) rs → all_test p rs ≡ true
unfolding all_test
all_test-All p [] h = refl
all_test-All p (r ∷ rs) h = ground (arith, all_test-All p rs h.1)

module _ (p : ℕ → Bool) (solid : (r : ℕ) → p r ≡ true → IsSolid r) where
  All-IsSolid : (s : Bytes) → All (λ r. p r ≡ true) s → All IsSolid s
  All-IsSolid [] h = tt
  All-IsSolid (b ∷ s) h = (solid b h.0, All-IsSolid s h.1)

  pub All-IsAscii : (s : Bytes) → All (λ r. p r ≡ true) s → IsAscii s
  All-IsAscii [] h = tt
  All-IsAscii (b ∷ s) h = ((solid b h.0).0, All-IsAscii s h.1)

  -- The runes that the test sees are the bytes.
  pub runes-charset : (s : Bytes) → all_test p (runes s) ≡ true → runes s ≡ s
  runes-charset s h =
      runes-IsAscii s (runes_low s (All-IsAscii (runes s) (All-all_test p (runes s) h)))

  pub runes-All : (s : Bytes) → All (λ r. p r ≡ true) s → runes s ≡ s
  runes-All s h = runes-IsAscii s (All-IsAscii s h)

  pub trim_space-charset : (s : Bytes) → All (λ r. p r ≡ true) s → trim_space s ≡ s
  trim_space-charset s h = trim_space-id s (All-IsSolid s h)

  pub Nfc-charset :
      {nfc : Bytes → Bytes} → Nfc nfc → (s : Bytes) → All (λ r. p r ≡ true) s → nfc s ≡ s
  Nfc-charset n s h = n.ascii s (All-IsAscii s h)
