-- ===== src/Pin/Canonical.antt =====
-- The canonical form of a PIN, and what `Verify` accepts.
use blabby.Prelude.{
  ℕ, ◌+◌, ◌*◌, ◌-◌, ◌<◌, ◌≡◌, ◌↔◌, ◌∷◌, All, arith, refl, ok, err, Result, Bool, true, length,
  subst, false, ◌≢◌, Bool-cases, inl, inr,
}
use blabby.Text.{Bytes, runes, trim_space, is_space}
use blabby.Text.Trim.{IsSolid}
use blabby.Text.Charset.{
  all_test, All-all_test, all_test-All, runes-charset, runes-All, trim_space-charset,
}
use blabby.Pin.{
  Error, invalid_pin, mismatched, is_digit, validate_pin_digits, parse_pin, new_pin, verify,
  pin_digits, pin_bound,
}

-- Exactly six decimal digits.
abbrev pub IsPin : Bytes → Type 0
IsPin pin = (length pin ≡ pin_digits) × All (λ r. is_digit r ≡ true) pin

digit-IsSolid : (r : ℕ) → is_digit r ≡ true → IsSolid r
unfolding is_digit is_space
digit-IsSolid r h = ground arith

validate_iff : (value : Bytes) → (validate_pin_digits value ≡ ok tt) ↔ IsPin value
unfolding validate_pin_digits
validate_iff value = (to, from)
  where
    to : validate_pin_digits value ≡ ok tt → IsPin value
    to e =
        let six : length value ≡ pin_digits = ground arith in
        let digits : all_test is_digit (runes value) ≡ true = ground arith in
        (
          six,
          subst (All (λ r. is_digit r ≡ true)) (runes-charset is_digit digit-IsSolid value digits)
              (All-all_test is_digit (runes value) digits),
        )

    from : IsPin value → validate_pin_digits value ≡ ok tt
    from p = rw (p.0, runes-All is_digit digit-IsSolid value p.1, all_test-All is_digit value p.1)

-- What is parsed from client input is a PIN.
pub parse_pin-accepts : (raw pin : Bytes) → parse_pin raw ≡ ok pin → IsPin pin
unfolding parse_pin
parse_pin-accepts raw pin e =
    let same : trim_space raw ≡ pin = ground arith in
    subst IsPin same ((validate_iff (trim_space raw)).0 (ground arith))

-- A PIN parses to itself.
pub parse_pin-IsPin : (pin : Bytes) → IsPin pin → parse_pin pin ≡ ok pin
unfolding parse_pin
parse_pin-IsPin pin p =
    rw (trim_space-charset is_digit digit-IsSolid pin p.1, (validate_iff pin).1 p)

-- The number that six digits show.
abbrev pub pin_value : Bytes → ℕ
pin_value (a ∷ b ∷ c ∷ d ∷ e ∷ f ∷ s) =
    (a - 48) * 100000
    + (b - 48) * 10000
    + (c - 48) * 1000
    + (d - 48) * 100
    + (e - 48) * 10
    + (f - 48)
pin_value s = 0

-- A number below 10^6 gives a PIN that a client can type, and different numbers give different
-- PINs: the number can be read back.
pub new_pin_lem :
    (n : ℕ)
    → n < pin_bound
    → IsPin (new_pin n) × (parse_pin (new_pin n) ≡ ok (new_pin n)) × (pin_value (new_pin n) ≡ n)
new_pin_lem n h = (pin, parse_pin-IsPin (new_pin n) pin, unfold new_pin in omega arith)
  where
    pin : IsPin (new_pin n)
    pin = unfold new_pin is_digit in (refl, ground arith)

not_mismatched : (value : Bytes) → validate_pin_digits value ≢ err mismatched
unfolding validate_pin_digits
not_mismatched value e = ground arith

-- What each answer to submitted input says of it, whatever `compare` does: it verifies exactly when it is,
-- up to white space around it, six digits that `compare` accepts for the hash; it is a mismatch exactly when
-- it is six digits that `compare` rejects; and it is invalid exactly when it is not six digits.
pub verify_iff :
    (compare : Bytes → Bytes → Bool) (hash raw : Bytes)
    → ((verify compare hash raw ≡ ok tt)
        ↔ (IsPin (trim_space raw) × (compare hash (trim_space raw) ≡ true)))
      × ((verify compare hash raw ≡ err mismatched)
          ↔ (IsPin (trim_space raw) × (compare hash (trim_space raw) ≡ false)))
      × ((verify compare hash raw ≡ err invalid_pin) ↔ (¬ IsPin (trim_space raw)))
unfolding verify parse_pin
verify_iff compare hash raw = go (validate_pin_digits (trim_space raw)) refl
  where
    go :
        (r : Result Error (Unit {0}))
        → validate_pin_digits (trim_space raw) ≡ r
        → ((verify compare hash raw ≡ ok tt)
            ↔ (IsPin (trim_space raw) × (compare hash (trim_space raw) ≡ true)))
          × ((verify compare hash raw ≡ err mismatched)
              ↔ (IsPin (trim_space raw) × (compare hash (trim_space raw) ≡ false)))
          × ((verify compare hash raw ≡ err invalid_pin) ↔ (¬ IsPin (trim_space raw)))
    go (ok _) e =
        let pin = (validate_iff (trim_space raw)).0 e in
        elim (Bool-cases (compare hash (trim_space raw))) [
          | inl right ↦
              rw (e, right)
                (
                  ((λ v. (pin, refl)), λ p. refl),
                  ((λ v. absurd (ground arith)), λ p. absurd (ground arith)),
                  ((λ v. absurd (ground arith)), λ n. absurd (n pin)),
                )
          | inr wrong ↦
              rw (e, wrong)
                (
                  ((λ v. absurd (ground arith)), λ p. absurd (ground arith)),
                  ((λ v. (pin, refl)), λ p. refl),
                  ((λ v. absurd (ground arith)), λ n. absurd (n pin)),
                )
        ]
    go (err invalid_pin) e =
        let not_pin : ¬ IsPin (trim_space raw) =
          λ p. absurd (ground (arith, (validate_iff (trim_space raw)).1 p)) in
        rw e (
          ((λ v. absurd (ground arith)), λ p. absurd (not_pin p.0)),
          ((λ v. absurd (ground arith)), λ p. absurd (not_pin p.0)),
          ((λ v. not_pin), λ n. refl),
        )
    go (err mismatched) e = absurd (not_mismatched (trim_space raw) e)
