-- ===== src/PublicCode/Edge.antt =====
-- The client-facing forms U… and R….
use blabby.Prelude.{ℕ, ◌≡◌, [], ◌∷◌, arith, refl, ok, err}
use blabby.Text.{Bytes, trim_space, is_space}
use blabby.Text.Trim.{IsSolid, trim_space-id}
use blabby.PublicCode.{
  parse_prefixed_code, strip_prefix, parse_user_code, parse_room_code, format_user, format_room,
  invalid_code_prefix,
}
use blabby.PublicCode.Canonical.{
  IsCanonical, All-IsSolid, parse_public_code-IsCanonical, parse_public_code-accepts,
}

prefixed-solid :
    (p : ℕ) (code : Bytes) → IsSolid p → IsCanonical code → trim_space (p ∷ code) ≡ p ∷ code
prefixed-solid p code h c = trim_space-id (p ∷ code) (h, All-IsSolid code c.1)

letter-IsSolid : (IsSolid b'U') × (IsSolid b'R')
unfolding is_space
letter-IsSolid = ((omega arith, refl), (omega arith, refl))

-- A canonical code survives the trip over each of its client-facing forms, and the parser of the
-- other kind rejects the form by its letter.
pub parse-format :
    (code : Bytes)
    → IsCanonical code
    → (parse_user_code (format_user code) ≡ ok code)
      × (parse_room_code (format_room code) ≡ ok code)
      × (parse_user_code (format_room code) ≡ err invalid_code_prefix)
      × (parse_room_code (format_user code) ≡ err invalid_code_prefix)
unfolding parse_user_code parse_room_code format_user format_room parse_prefixed_code
parse-format code c =
    let u = prefixed-solid b'U' code letter-IsSolid.0 c in
    let r = prefixed-solid b'R' code letter-IsSolid.1 c in
    let p = parse_public_code-IsCanonical code c in
    (rw (u, strip_prefix, p), rw (r, strip_prefix, p), rw (r, strip_prefix), rw (u, strip_prefix))

-- Whatever client text is accepted as a user code or a room code, the result is canonical.
pub parse_prefixed-accepts :
    (prefix : ℕ) (raw code : Bytes) → parse_prefixed_code prefix raw ≡ ok code → IsCanonical code
unfolding parse_prefixed_code
parse_prefixed-accepts prefix raw code e = go (trim_space raw) e
  where
    go : (t : Bytes) → strip_prefix prefix t ≡ ok code → IsCanonical code
    go [] h = unfold strip_prefix in cc
    go (c ∷ rest) h = parse_public_code-accepts rest code (unfold strip_prefix in ground arith)
