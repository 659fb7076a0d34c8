-- ===== src/Pin/Examples.antt =====
-- The theorems on verification PINs at concrete inputs.
use blabby.Prelude.{◌≡◌, ◌↔◌, Bool, true, false, ok, err}
use blabby.Text.{Bytes, bytes_eq, codes, trim_space}
use blabby.Pin.{verify, mismatched, invalid_pin}
use blabby.Pin.Canonical.{IsPin, verify_iff}

-- A hash that is the PIN itself.
abbrev plain : Bytes → Bytes → Bool
plain = bytes_eq

abbrev typed : Bytes
typed = codes " 004217 "

verify_iff_example :
    ((verify plain (codes "004217") typed ≡ ok tt)
      ↔ (IsPin (trim_space typed) × (plain (codes "004217") (trim_space typed) ≡ true)))
    × ((verify plain (codes "004217") typed ≡ err mismatched)
        ↔ (IsPin (trim_space typed) × (plain (codes "004217") (trim_space typed) ≡ false)))
    × ((verify plain (codes "004217") typed ≡ err invalid_pin) ↔ (¬ IsPin (trim_space typed)))
verify_iff_example = verify_iff plain (codes "004217") typed
