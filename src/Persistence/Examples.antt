-- ===== src/Persistence/Examples.antt =====
-- The theorem on timelines at a room with three events, read in pages of two.
use blabby.Prelude.{ℕ, List, [], ◌∷◌, some, Bool, true, ok, ◌≡◌, refl, arith}
use blabby.Text.{Bytes, codes}
use blabby.Persistence.Timeline.{
  EventRow, TimelineEntry, entry_message, entry_member_joined, collect_entries,
}
use blabby.Persistence.Pages.{AreRows}
use blabby.Persistence.Reader.{pages, hits, pages_cover}

abbrev code : Bytes
code = codes "K7M3P9X2WQ"

abbrev posted : ℕ → EventRow
posted id = record {
  id = id;
  room_id = 9;
  kind = "message_posted";
  text = codes "hi";
  occurred_at = 5;
  public_code = code;
  display_name = codes "Ada";
}

abbrev table : List EventRow
table =
    record (posted 3) { kind = "member_joined" }
    ∷ posted 8
    ∷ posted 5
    ∷ record (posted 6) { room_id = 4 }
    ∷ []

abbrev entry : ℕ → TimelineEntry
entry id = record {
  id = id;
  kind = entry_message;
  code = code;
  name = codes "Ada";
  text = codes "hi";
  occurred_at = 5;
}

abbrev entries : List TimelineEntry
entries = entry 8 ∷ entry 5 ∷ record (entry 3) { kind = entry_member_joined } ∷ []

abbrev no_matches : Bytes → Bytes → Bool
no_matches query text = true

table-AreRows : AreRows table
table-AreRows = (
  omega arith,
  (
    (λ e. absurd (omega (arith, e))),
    ((λ e. absurd (omega (arith, e))), ((λ e. absurd (omega (arith, e))), tt)),
  ),
  (
    omega arith,
    ((λ e. absurd (omega (arith, e))), ((λ e. absurd (omega (arith, e))), tt)),
    (omega arith, ((λ e. absurd (omega (arith, e))), tt), (omega arith, tt, tt)),
  ),
)

table_parses : collect_entries (hits no_matches 9 [] 2 table) ≡ ok entries
unfolding collect_entries blabby.Persistence.Timeline.parse_row
    blabby.Persistence.Timeline.parse_entry_kind blabby.Id.new_id
    blabby.PublicCode.parse_public_code blabby.Text.trim_space blabby.Text.is_space
    blabby.Text.decode_rune blabby.Text.runes_from blabby.PublicCode.normalize_all
    blabby.PublicCode.contains_rune blabby.PublicCode.normalize_crockford
    blabby.Persistence.Timeline.keep blabby.Persistence.Timeline.is_selected
    blabby.Persistence.Timeline.sort_desc blabby.Persistence.Timeline.insert_desc
table_parses = refl

pages_cover_example : pages no_matches 9 [] 2 table 4 0 ≡ some (ok entries)
unfolding blabby.Persistence.Timeline.keep blabby.Persistence.Timeline.is_selected
    blabby.Persistence.Timeline.sort_desc blabby.Persistence.Timeline.insert_desc
pages_cover_example = pages_cover no_matches 9 [] 1 table entries table-AreRows table_parses
