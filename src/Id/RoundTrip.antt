-- ===== src/Id/RoundTrip.antt =====
-- The decimal form of an identifier parses back to it.
use blabby.Prelude.{
  ℕ, suc, zero, ◌+◌, ◌/◌, ◌%◌, ◌^◌, ◌≤◌, ◌<◌, ◌≡◌, [], ◌∷◌, arith, ok, Bool-cases, inl, inr, ltb,
  ◌∙◌, ap, sym,
}
use blabby.Text.{Bytes}
use blabby.Id.{scan_digits, parse_uint, parse_int, new_id, parse_id, emit, format_id, max_uint64}

scan_digits-emit :
    (fuel n : ℕ) (out : Bytes)
    → n < fuel
    → n ≤ max_uint64
    → scan_digits 0 (emit fuel n out) ≡ scan_digits n out
unfolding scan_digits emit
scan_digits-emit zero n out h fits = absurd (omega arith)
scan_digits-emit (suc fuel) n out h fits = elim (Bool-cases (ltb n 10)) [
  | inl small ↦ rw small (ground arith)
  | inr large ↦ rw large (
      scan_digits-emit fuel (n / 10) ((b'0' + n % 10) ∷ out) (ground arith) (omega arith)
      ∙ ground arith)
]

-- What `emit` puts in front is a digit.
emit-digit :
    (fuel n : ℕ) (out : Bytes)
    → n < fuel
    → (c : ℕ) × (rest : Bytes) × (emit fuel n out ≡ c ∷ rest) × (b'0' ≤ c)
unfolding emit
emit-digit zero n out h = absurd (omega arith)
emit-digit (suc fuel) n out h = elim (Bool-cases (ltb n 10)) [
  | inl small ↦ (b'0' + n, out, rw small, omega arith)
  | inr large ↦ rw large (emit-digit fuel (n / 10) ((b'0' + n % 10) ∷ out) (ground arith))
]

parse_unsigned :
    (c : ℕ) (rest : Bytes) (n : ℕ)
    → b'0' ≤ c
    → scan_digits 0 (c ∷ rest) ≡ ok n
    → 0 < n
    → n < 2 ^ 63
    → parse_id (c ∷ rest) ≡ ok n
unfolding parse_id parse_int parse_uint new_id
parse_unsigned c rest n low e h fits = ground arith

-- A positive int64 survives the trip over its decimal form.
pub parse_id-format_id : (n : ℕ) → 0 < n → n < 2 ^ 63 → parse_id (format_id n) ≡ ok n
unfolding format_id scan_digits
parse_id-format_id n h fits =
    let (c, rest, e, low) = emit-digit (suc n) n [] (omega arith) in
    rw e (
      parse_unsigned c rest n low
        (ap (scan_digits 0) (sym e) ∙ (scan_digits-emit (suc n) n [] (omega arith) (omega arith))) h
        fits)

-- Every identifier that parses is positive and an int64.
pub parse_id-positive : (s : Bytes) (n : ℕ) → parse_id s ≡ ok n → (0 < n) × (n < 2 ^ 63)
unfolding parse_id parse_int new_id
parse_id-positive [] n e = cc
parse_id-positive (c ∷ s) n e = ground arith
