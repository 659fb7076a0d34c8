-- ===== src/ErrCode/Examples.antt =====
-- The theorems on error codes at concrete inputs.
use blabby.Prelude.{◌≡◌, ◌↔◌, ok, pos}
use blabby.ErrCode.{room_not_found, number, status_of, parse, parse_iff}

parse_iff_example :
    (parse (pos (number room_not_found)) (status_of room_not_found) ≡ ok room_not_found) ↔ (
      (pos (number room_not_found) ≡ pos (number room_not_found))
      × (status_of room_not_found ≡ status_of room_not_found))
parse_iff_example =
    parse_iff (pos (number room_not_found)) (status_of room_not_found) room_not_found
