-- ===== src/Id.antt =====
-- internal/id: the numeric identifiers `UserID`, `RoomID` and `EventID`, which share one shape, and
-- the decimal form in which they cross the wire. A value is its int64; 0 is the zero value, and no
-- constructor gives it.
pub mod RoundTrip
mod Examples
use blabby.Prelude.{
  ℕ, suc, zero, ◌+◌, ◌-◌, ◌*◌, ◌/◌, ◌%◌, ◌^◌, List, [], ◌∷◌, Bool, ◌||◌, ltb, leb, ◌==◌,
  if◌then◌else◌, ℤ, pos, negsuc, neg, Result, ok, err, ◌>>=◌,
}
use blabby.Text.{Bytes, within}

pub data Error : Type 0 where
  syntax range not_positive : Error

abbrev pub max_uint64 : ℕ
max_uint64 = 2 ^ 64 - 1

-- The digit loop of `strconv.ParseUint`.
unfoldable pub scan_digits : ℕ → Bytes → Result Error ℕ
scan_digits n [] = ok n
scan_digits n (c ∷ s) =
    let m = n * 10 + (c - b'0') in
    let rest = scan_digits m s in
    if within b'0' b'9' c then (if ltb max_uint64 m then err range else rest) else err syntax

unfoldable pub parse_uint : Bytes → Result Error ℕ
unfolding scan_digits
parse_uint [] = err syntax
parse_uint (c ∷ s) = scan_digits 0 (c ∷ s)

abbrev pub signed : Bool → ℕ → Result Error ℤ
signed negative n =
    if negative
    then (if ltb (2 ^ 63) n then err range else ok (neg n))
    else if leb (2 ^ 63) n
    then err range
    else ok (pos n)

-- `strconv.ParseInt(s, 10, 64)`
unfoldable pub parse_int : Bytes → Result Error ℤ
unfolding parse_uint
parse_int [] = err syntax
parse_int (c ∷ s) =
    if c == b'+'
    then (do n ← parse_uint s; signed Bool.false n)
    else if c == b'-'
    then (do n ← parse_uint s; signed Bool.true n)
    else do n ← parse_uint (c ∷ s); signed Bool.false n

-- `NewUserID`, `NewRoomID`, `NewEventID`
unfoldable pub new_id : ℤ → Result Error ℕ
new_id (negsuc n) = err not_positive
new_id (pos n) = if n == 0 then err not_positive else ok n

-- `ParseUserID`, `ParseRoomID`, `ParseEventID`
unfoldable pub parse_id : Bytes → Result Error ℕ
parse_id s = do v ← parse_int s; new_id v

-- `strconv.FormatInt` of a value that is not negative; a number needs no more rounds than itself.
unfoldable pub emit : ℕ → ℕ → Bytes → Bytes
emit zero n out = out
emit (suc fuel) n out =
    let more = emit fuel (n / 10) ((b'0' + n % 10) ∷ out) in
    if ltb n 10 then (b'0' + n) ∷ out else more

-- `String`
unfoldable pub format_id : ℕ → Bytes
unfolding emit
format_id n = emit (suc n) n []
