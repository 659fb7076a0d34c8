-- ===== src/PublicCode/Canonical.antt =====
-- What the parser of public codes accepts, and the canonical form that it gives.
use blabby.Prelude.{
  ==_iff, suc, ℕ, ◌<◌, ◌≡◌, List, [], ◌∷◌, All, arith, refl, ap, map, length, ok, err, Result, ◌==◌,
  Bool-cases, inl, inr, subst, sym, ◌∙◌,
}
use blabby.Text.{Bytes, runes, trim_space, to_lower, lower}
use blabby.Text.Ascii.{IsAscii, runes-IsAscii, runes_low}
use blabby.Text.Trim.{IsSolid, trim_space-id}
use blabby.PublicCode.{
  Error, crockford_symbol, normalize_crockford, normalize_all, parse_public_code, new_public_code,
}
use blabby.PublicCode.Alphabet.{IsSymbol, symbol-ascii, symbol-normal, crockford_symbol-IsSymbol}

-- Exactly ten symbols of the alphabet.
abbrev pub IsCanonical : Bytes → Type 0
IsCanonical code = (length code ≡ 10) × All IsSymbol code

normalize_crockford-ascii : (r : ℕ) → IsSymbol (normalize_crockford r) → r < 128
unfolding normalize_crockford
normalize_crockford-ascii r h = ground (arith, symbol-ascii r)

normalize_all-inv :
    (r : ℕ) (rs : List ℕ) (out : Bytes)
    → normalize_all (r ∷ rs) ≡ ok out
    → (rest : Bytes) × (normalize_all rs ≡ ok rest)
      × (out ≡ normalize_crockford r ∷ rest)
      × IsSymbol (normalize_crockford r)
unfolding normalize_all
normalize_all-inv r rs out e = go (normalize_all rs) refl
  where
    go :
        (n : Result Error Bytes)
        → normalize_all rs ≡ n
        → (rest : Bytes) × (normalize_all rs ≡ ok rest)
          × (out ≡ normalize_crockford r ∷ rest)
          × IsSymbol (normalize_crockford r)
    go (ok rest) p = (rest, p, ground arith, ground arith)
    go (err x) p = absurd (ground arith)

-- An accepted text consists of ASCII runes, and gives as many symbols.
normalize_all-accepts :
    (rs : List ℕ) (out : Bytes)
    → normalize_all rs ≡ ok out
    → All IsSymbol out × (length out ≡ length rs) × All (λ r. r < 128) rs
unfolding normalize_all
normalize_all-accepts [] out e = ground arith
normalize_all-accepts (r ∷ rs) out e =
    let (rest, p, q, sym_ok) = normalize_all-inv r rs out e in
    let (symbols, size, low) = normalize_all-accepts rs rest p in
    (
      subst (All IsSymbol) (sym q) (sym_ok, symbols),
      (ap length q ∙ ap suc size),
      (normalize_crockford-ascii r sym_ok, low),
    )

pub All-IsSolid : (s : Bytes) → All IsSymbol s → All IsSolid s
All-IsSolid [] h = tt
All-IsSolid (b ∷ s) h = ((symbol-ascii b h.0, (symbol-normal b h.0).1), All-IsSolid s h.1)

All-IsAscii : (s : Bytes) → All IsSolid s → IsAscii s
All-IsAscii [] h = tt
All-IsAscii (b ∷ s) h = (h.0.0, All-IsAscii s h.1)

normalize_all-symbols : (s : Bytes) → All IsSymbol s → normalize_all s ≡ ok s
unfolding normalize_all
normalize_all-symbols [] h = refl
normalize_all-symbols (b ∷ s) h = rw ((symbol-normal b h.0).0, h.0, normalize_all-symbols s h.1)

-- Parsing a canonical code gives it back.
pub parse_public_code-IsCanonical :
    (code : Bytes) → IsCanonical code → parse_public_code code ≡ ok code
unfolding parse_public_code
parse_public_code-IsCanonical code c =
    let solid = All-IsSolid code c.1 in
    rw (trim_space-id code solid, c.0, runes-IsAscii code (All-IsAscii code solid))
      (normalize_all-symbols code c.1)

-- What the parser accepts is a canonical code.
pub parse_public_code-accepts :
    (raw code : Bytes) → parse_public_code raw ≡ ok code → IsCanonical code
unfolding parse_public_code
parse_public_code-accepts raw code e = elim (Bool-cases (length (trim_space raw) == 10)) [
  | inl ten ↦
      (let e' : normalize_all (runes (trim_space raw)) ≡ ok code = rw ten at e in
        let (symbols, size, low) = normalize_all-accepts (runes (trim_space raw)) code e' in
        let same = runes-IsAscii (trim_space raw) (runes_low (trim_space raw) low) in
        ((size ∙ ap length same ∙ (==_iff _ 10).0 ten), symbols))
  | inr other ↦ absurd (ground arith)
]

lower-IsSolid : (s : Bytes) → All IsSymbol s → All IsSolid (map lower s)
lower-IsSolid [] h = tt
lower-IsSolid (b ∷ s) h =
    let facts = symbol-normal b h.0 in ((facts.3, facts.4), lower-IsSolid s h.1)

lower-normal : (s : Bytes) → All IsSymbol s → normalize_all (map lower s) ≡ ok s
unfolding normalize_all
lower-normal [] h = refl
lower-normal (b ∷ s) h = rw ((symbol-normal b h.0).2, h.0, lower-normal s h.1)

length-lower : (s : Bytes) → length (map lower s) ≡ length s
length-lower [] = refl
length-lower (b ∷ s) = ap suc (length-lower s)

-- Case does not matter: a canonical code in lower case parses to the code.
pub parse_public_code-to_lower :
    (code : Bytes) → IsCanonical code → parse_public_code (to_lower code) ≡ ok code
unfolding parse_public_code to_lower
parse_public_code-to_lower code c =
    let solid = lower-IsSolid code c.1 in
    rw
      (
        trim_space-id (map lower code) solid,
        length-lower code,
        c.0,
        runes-IsAscii (map lower code) (All-IsAscii (map lower code) solid),
      )
      (lower-normal code c.1)

-- A code made of ten random bytes is canonical.
pub new_public_code-IsCanonical :
    (random : Bytes)
    → length random ≡ 10
    → All (λ b. b < 256) random
    → IsCanonical (new_public_code random)
unfolding new_public_code
new_public_code-IsCanonical random ten bytes = ((size random ∙ ten), symbols random bytes)
  where
    size : (s : Bytes) → length (map crockford_symbol s) ≡ length s
    size [] = refl
    size (b ∷ s) = ap suc (size s)

    symbols : (s : Bytes) → All (λ b. b < 256) s → All IsSymbol (map crockford_symbol s)
    symbols [] h = tt
    symbols (b ∷ s) h = (crockford_symbol-IsSymbol b h.0, symbols s h.1)
