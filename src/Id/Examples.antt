-- ===== src/Id/Examples.antt =====
-- The theorems on identifiers at concrete inputs.
use blabby.Prelude.{◌≡◌, ok, refl}
use blabby.Text.{codes}
use blabby.Id.{parse_id, format_id}

signed_42 : parse_id (codes "+042") ≡ ok 42
unfolding parse_id blabby.Id.parse_int blabby.Id.new_id
signed_42 = refl
