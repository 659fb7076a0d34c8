-- ===== src/Domain/MessageText.antt =====
-- internal/domain/message_text.go and text_canonical.go: the canonical form of a message body.
use blabby.Prelude.{
  ◌*◌, ℕ, List, [], ◌∷◌, Result, ok, ◌>>◌, ensure, Bool, true, false, not, ◌||◌, ltb, leb, ◌==◌,
  length, if◌then◌else◌, ◌≡◌, ◌≤◌, ◌≢◌, arith, refl, map, All, ◌⊎◌,
}
use blabby.Text.{Bytes, runes, trim_space, valid_string, within}
use blabby.Text.Charset.{all_test, All-all_test}
use blabby.Domain.Refs.{is_blank}

abbrev pub max_message_text_bytes : ℕ
max_message_text_bytes = 4 * 1024

pub data Error : Type 0 where
  message_text_empty invalid_message_text : Error

-- `ReplaceAll(s, "\r\n", "\n")`; the flag says that a carriage return stands before the text.
unfoldable pub replace_crlf : Bool → Bytes → Bytes
replace_crlf true [] = b'\r' ∷ []
replace_crlf false [] = []
replace_crlf true (b ∷ s) =
    let pair = b'\n' ∷ replace_crlf false s in
    let again = b'\r' ∷ replace_crlf true s in
    let lone = b'\r' ∷ b ∷ replace_crlf false s in
    if b == b'\n' then pair else if b == b'\r' then again else lone
replace_crlf false (b ∷ s) =
    let held = replace_crlf true s in
    let plain = b ∷ replace_crlf false s in if b == b'\r' then held else plain

-- `ReplaceAll(s, "\r", "\n")`
unfoldable pub replace_cr : Bytes → Bytes
replace_cr = map (λ b. if b == b'\r' then b'\n' else b)

unfoldable pub canonicalize_newlines : Bytes → Bytes
unfolding replace_crlf replace_cr
canonicalize_newlines s = replace_cr (replace_crlf false s)

-- `unicode.IsControl`
abbrev pub is_control : ℕ → Bool
is_control r = ltb r 0x20 || within 0x7F 0x9F r

abbrev pub is_bidi_control : ℕ → Bool
is_bidi_control r = within 0x202A 0x202E r || within 0x2066 0x2069 r

unfoldable pub is_message_text_rune : ℕ → Bool
is_message_text_rune r =
    if r == b'\n' || r == b'\t'
    then true
    else if is_control r
    then false
    else not (is_bidi_control r)

-- `NewMessageText`
unfoldable pub new_message_text : (Bytes → Bytes) → Bytes → Result Error Bytes
new_message_text nfc raw = do
  ensure (valid_string raw) invalid_message_text
  let text = trim_space (nfc (canonicalize_newlines raw))
  ensure (not (is_blank text)) message_text_empty
  ensure (leb (length text) max_message_text_bytes) invalid_message_text
  ensure (all_test is_message_text_rune (runes text)) invalid_message_text
  ok text

-- A rune that neither breaks a terminal nor reorders the text around it.
abbrev pub IsShowable : ℕ → Type 0
IsShowable r = ((r ≡ b'\n') ⊎ (r ≡ b'\t') ⊎ (is_control r ≡ false)) × (is_bidi_control r ≡ false)

rune-IsShowable : (r : ℕ) → is_message_text_rune r ≡ true → IsShowable r
unfolding is_message_text_rune
rune-IsShowable r h = ground arith

All-IsShowable : (rs : List ℕ) → All (λ r. is_message_text_rune r ≡ true) rs → All IsShowable rs
All-IsShowable [] h = tt
All-IsShowable (r ∷ rs) h = (rune-IsShowable r h.0, All-IsShowable rs h.1)

-- Whatever the normaliser does, an accepted body is not blank, has at most 4096 bytes, and holds
-- no control character but newline and tab and no bidi control.
pub new_message_text-accepts :
    (nfc : Bytes → Bytes) (raw text : Bytes)
    → new_message_text nfc raw ≡ ok text
    → (is_blank text ≡ false) × (length text ≤ max_message_text_bytes) × All IsShowable (runes text)
unfolding new_message_text
new_message_text-accepts nfc raw text e = (
  ground arith,
  ground arith,
  All-IsShowable (runes text) (All-all_test is_message_text_rune (runes text) (ground arith)),
)

no_cr-replace_cr : (s : Bytes) → All (λ b. b ≢ b'\r') (replace_cr s)
unfolding replace_cr
no_cr-replace_cr [] = tt
no_cr-replace_cr (b ∷ s) = ((λ e. ground arith), no_cr-replace_cr s)

replace_crlf-id : (s : Bytes) → All (λ b. b ≢ b'\r') s → replace_crlf false s ≡ s
unfolding replace_crlf
replace_crlf-id [] h = refl
replace_crlf-id (b ∷ s) h = ground (arith, replace_crlf-id s h.1)

replace_cr-id : (s : Bytes) → All (λ b. b ≢ b'\r') s → replace_cr s ≡ s
unfolding replace_cr
replace_cr-id [] h = refl
replace_cr-id (b ∷ s) h = ground (arith, replace_cr-id s h.1)

-- No carriage return is left, and a text with none is left as it is; so a second pass changes
-- nothing.
pub canonicalize_newlines_lem :
    (s : Bytes)
    → All (λ b. b ≢ b'\r') (canonicalize_newlines s)
      × (canonicalize_newlines (canonicalize_newlines s) ≡ canonicalize_newlines s)
unfolding canonicalize_newlines
canonicalize_newlines_lem s =
    let clean = no_cr-replace_cr (replace_crlf false s) in
    (clean, rw (replace_crlf-id _ clean) (replace_cr-id _ clean))
