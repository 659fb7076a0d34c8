-- ===== src/Pin.antt =====
-- internal/verification/pin.go: the six-digit verification PIN. bcrypt, which the package calls,
-- is a parameter: `compare` of `Verify` stands for `bcrypt.CompareHashAndPassword`.
pub mod Canonical
mod Examples
use blabby.Prelude.{
  ℕ, suc, zero, ◌+◌, ◌*◌, ◌/◌, ◌%◌, ◌^◌, ◌<◌, ◌≡◌, List, [], ◌∷◌, All, arith, refl, ok, err, Result,
  Bool, true, false, ◌==◌, length, if◌then◌else◌, not, ◌>>=◌, ◌>>◌, subst,
}
use blabby.Text.{Bytes, runes, trim_space, within, is_space}
use blabby.Text.Trim.{IsSolid}
use blabby.Text.Charset.{
  all_test, All-all_test, all_test-All, runes-charset, runes-All, trim_space-charset,
}

pub data Error : Type 0 where
  invalid_pin mismatched : Error

abbrev pub pin_digits : ℕ
pin_digits = 6

abbrev pub pin_bound : ℕ
pin_bound = 1000000

unfoldable pub is_digit : ℕ → Bool
is_digit r = within b'0' b'9' r

-- `validatePINDigits`
unfoldable pub validate_pin_digits : Bytes → Result Error (Unit {0})
validate_pin_digits value =
    if length value == pin_digits
    then (if all_test is_digit (runes value) then ok tt else err invalid_pin)
    else err invalid_pin

-- `ParsePIN`
unfoldable pub parse_pin : Bytes → Result Error Bytes
parse_pin raw = do let trimmed = trim_space raw; validate_pin_digits trimmed; ok trimmed

abbrev digit : ℕ → ℕ
digit n = b'0' + n % 10

-- `NewPIN` of the number that `rand.Int` draws below `pin_bound`: `fmt.Sprintf("%0*d", 6, n)`.
unfoldable pub new_pin : ℕ → Bytes
new_pin n =
    digit (n / 100000)
    ∷ digit (n / 10000)
    ∷ digit (n / 1000)
    ∷ digit (n / 100)
    ∷ digit (n / 10)
    ∷ digit n
    ∷ []

-- `Verify`
unfoldable pub verify : (Bytes → Bytes → Bool) → Bytes → Bytes → Result Error (Unit {0})
verify compare hash raw = do pin ← parse_pin raw; if compare hash pin then ok tt else err mismatched
