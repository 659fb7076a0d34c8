-- ===== src/Domain/Handle.antt =====
-- internal/domain/handle.go: account handles.
use blabby.Prelude.{
  ℕ, ◌≤◌, ◌≡◌, [], ◌∷◌, All, arith, refl, Bool, true, ◌||◌, ◌==◌, ltb, length, if◌then◌else◌, map,
  ap, subst, suc, Option, none, some,
}
use blabby.Text.{Bytes, runes, trim_space, to_lower, lower, within, is_space}
use blabby.Text.Trim.{IsSolid}
use blabby.Text.Charset.{
  all_test, Nfc, All-all_test, all_test-All, runes-charset, runes-All, trim_space-charset,
  Nfc-charset,
}

abbrev pub min_handle_len : ℕ
min_handle_len = 3

abbrev pub max_handle_len : ℕ
max_handle_len = 30

unfoldable pub is_handle_char : ℕ → Bool
is_handle_char r = within b'a' b'z' r || (within b'A' b'Z' r || (within b'0' b'9' r || r == b'_'))

-- `NewHandle`; `none` is its one error, and the value is the display form.
unfoldable pub new_handle : (Bytes → Bytes) → Bytes → Option Bytes
new_handle nfc raw =
    let trimmed = trim_space (nfc raw) in
    if ltb (length trimmed) min_handle_len || ltb max_handle_len (length trimmed)
    then none
    else if all_test is_handle_char (runes trimmed)
    then some trimmed
    else none

-- `Normalized`
unfoldable pub normalized : Bytes → Bytes
normalized = to_lower

-- A display form: 3 to 30 letters, digits and underscores.
pub record IsHandle (h : Bytes) : Type 0 where
  pub long_enough : min_handle_len ≤ length h
  pub short_enough : length h ≤ max_handle_len
  pub chars : All (λ r. is_handle_char r ≡ true) h

handle_char-IsSolid : (r : ℕ) → is_handle_char r ≡ true → IsSolid r
unfolding is_handle_char is_space
handle_char-IsSolid r h = ground arith

new_handle-inv :
    (nfc : Bytes → Bytes) (raw h : Bytes)
    → new_handle nfc raw ≡ some h
    → (trim_space (nfc raw) ≡ h)
      × (min_handle_len ≤ length (trim_space (nfc raw)))
      × (length (trim_space (nfc raw)) ≤ max_handle_len)
      × (all_test is_handle_char (runes (trim_space (nfc raw))) ≡ true)
unfolding new_handle
new_handle-inv nfc raw h e = ground arith

-- What is accepted is a handle.
new_handle-accepts :
    (nfc : Bytes → Bytes) (raw h : Bytes) → new_handle nfc raw ≡ some h → IsHandle h
new_handle-accepts nfc raw h e =
    let (same, low, high, chars) = new_handle-inv nfc raw h e in
    let t = trim_space (nfc raw) in
    subst IsHandle same (record {
      long_enough = low;
      short_enough = high;
      chars =
          subst (All (λ r. is_handle_char r ≡ true))
            (runes-charset is_handle_char handle_char-IsSolid t chars)
            (All-all_test is_handle_char (runes t) chars);
    })

-- A handle is accepted as it stands.
pub new_handle-IsHandle :
    {nfc : Bytes → Bytes} → Nfc nfc → (h : Bytes) → IsHandle h → new_handle nfc h ≡ some h
unfolding new_handle
new_handle-IsHandle {nfc = nfc} n h v =
    rw
      (
        Nfc-charset is_handle_char handle_char-IsSolid n h v.chars,
        trim_space-charset is_handle_char handle_char-IsSolid h v.chars,
        runes-All is_handle_char handle_char-IsSolid h v.chars,
        all_test-All is_handle_char h v.chars,
      )
      (ground arith)

lower-handle_char : (r : ℕ) → is_handle_char r ≡ true → is_handle_char (lower r) ≡ true
unfolding is_handle_char
lower-handle_char r h = ground arith

lower_idem : (r : ℕ) → lower (lower r) ≡ lower r
lower_idem r = ground arith

lower-IsHandle : (h : Bytes) → IsHandle h → IsHandle (normalized h)
unfolding normalized to_lower
lower-IsHandle h v = record {
  long_enough = omega (arith, length-lower h);
  short_enough = omega (arith, length-lower h);
  chars = lower-chars h v.chars;
}
  where
    length-lower : (s : Bytes) → length (map lower s) ≡ length s
    length-lower [] = refl
    length-lower (b ∷ s) = ap suc (length-lower s)

    lower-chars :
        (s : Bytes)
        → All (λ r. is_handle_char r ≡ true) s
        → All (λ r. is_handle_char r ≡ true) (map lower s)
    lower-chars [] c = tt
    lower-chars (b ∷ s) c = (lower-handle_char b c.0, lower-chars s c.1)

normalized_idem : (h : Bytes) → normalized (normalized h) ≡ normalized h
unfolding normalized to_lower
normalized_idem [] = refl
normalized_idem (b ∷ s) = cc (lower_idem b, normalized_idem s)

-- An accepted handle has 3 to 30 letters, digits and underscores; it is accepted again unchanged,
-- and so is its normalised form, which normalising once more does not change.
pub new_handle-canonical :
    {nfc : Bytes → Bytes} (raw h : Bytes)
    → Nfc nfc
    → new_handle nfc raw ≡ some h
    → IsHandle h
      × (new_handle nfc h ≡ some h)
      × (new_handle nfc (normalized h) ≡ some (normalized h))
      × (normalized (normalized h) ≡ normalized h)
new_handle-canonical {nfc = nfc} raw h n e =
    let v = new_handle-accepts nfc raw h e in
    (
      v,
      new_handle-IsHandle n h v,
      new_handle-IsHandle n (normalized h) (lower-IsHandle h v),
      normalized_idem h,
    )
