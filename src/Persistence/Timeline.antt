-- ===== src/Persistence/Timeline.antt =====
-- internal/persistence/timeline.go: one page of a room's timeline. The full-text match of PGroonga is
-- a parameter, over the query that the source builds. A zero cursor or an empty query sets no bound.
use blabby.Prelude.{
  ℕ, suc, List, [], ◌∷◌, Option, none, some, String, str_eq, Bool, true, false, ◌&&◌, ltb, leb,
  ◌==◌, if◌then◌else◌, Result, ok, err, ◌>>=◌, or_err, map_err, length, take, pos,
}
use blabby.Text.{Bytes}
use blabby.Id.{new_id}
use blabby.PublicCode.{parse_public_code}

pub data EntryKind : Type 0 where
  entry_message entry_member_joined entry_member_left : EntryKind

-- `parseEntryKind`
unfoldable pub parse_entry_kind : String → Option EntryKind
parse_entry_kind s =
    if str_eq s "message_posted"
    then some entry_message
    else if str_eq s "member_joined"
    then some entry_member_joined
    else if str_eq s "member_left"
    then some entry_member_left
    else none

-- A row of `event`, joined with the name and the code of its user.
pub record EventRow : Type 0 where
  pub id : ℕ
  pub room_id : ℕ
  pub kind : String
  pub text : Bytes
  pub occurred_at : ℕ
  pub public_code : Bytes
  pub display_name : Bytes

pub record TimelineEntry : Type 0 where
  pub id : ℕ
  pub kind : EntryKind
  pub code : Bytes
  pub name : Bytes
  pub text : Bytes
  pub occurred_at : ℕ

pub data RowError : Type 0 where
  bad_id bad_kind bad_code : RowError

pub record TimelineParams : Type 0 where
  pub query : Bytes
  pub before : ℕ
  pub limit : ℕ

unfoldable pub keep {ℓ} : {A : Type ℓ} → (A → Bool) → List A → List A
keep test [] = []
keep test (x ∷ xs) = let rest = keep test xs in if test x then x ∷ rest else rest

-- `e.id < before`
unfoldable pub in_cursor : ℕ → EventRow → Bool
in_cursor before row = if before == 0 then true else ltb row.id before

abbrev is_query_hit : (Bytes → Bytes → Bool) → Bytes → EventRow → Bool
is_query_hit matches [] row = true
is_query_hit matches query row = str_eq row.kind "message_posted" && matches query row.text

-- The rest of the WHERE clause.
unfoldable pub is_selected : (Bytes → Bytes → Bool) → ℕ → Bytes → EventRow → Bool
is_selected matches room query row = row.room_id == room && is_query_hit matches query row

unfoldable pub insert_desc : EventRow → List EventRow → List EventRow
insert_desc x [] = x ∷ []
insert_desc x (y ∷ ys) = if leb y.id x.id then x ∷ y ∷ ys else y ∷ insert_desc x ys

-- ORDER BY e.id DESC
unfoldable pub sort_desc : List EventRow → List EventRow
unfolding insert_desc
sort_desc [] = []
sort_desc (x ∷ xs) = insert_desc x (sort_desc xs)

-- One row of `collectEntries`.
unfoldable pub parse_row : EventRow → Result RowError TimelineEntry
unfolding parse_entry_kind new_id parse_public_code
parse_row row = do
  event_id ← map_err (λ _. bad_id) (new_id (pos row.id))
  kind ← or_err (parse_entry_kind row.kind) bad_kind
  code ← map_err (λ _. bad_code) (parse_public_code row.public_code)
  ok (record {
    id = event_id;
    kind = kind;
    code = code;
    name = row.display_name;
    text = row.text;
    occurred_at = row.occurred_at;
  })

abbrev pub and_entries :
    Result RowError TimelineEntry
    → Result RowError (List TimelineEntry)
    → Result RowError (List TimelineEntry)
and_entries (err e) rest = err e
and_entries (ok entry) (err e) = err e
and_entries (ok entry) (ok entries) = ok (entry ∷ entries)

unfoldable pub collect_entries : List EventRow → Result RowError (List TimelineEntry)
unfolding parse_row
collect_entries [] = ok []
collect_entries (row ∷ rows) = and_entries (parse_row row) (collect_entries rows)

-- A page, and whether more follow; the look-ahead row is trimmed.
abbrev pub trim : ℕ → List TimelineEntry → List TimelineEntry × Bool
trim limit entries =
    if ltb limit (length entries) then (take limit entries, true) else (entries, false)

abbrev pub trim_page :
    ℕ → Result RowError (List TimelineEntry) → Result RowError (List TimelineEntry × Bool)
trim_page limit (err e) = err e
trim_page limit (ok entries) = ok (trim limit entries)

-- `Timeline`
unfoldable pub timeline :
    (Bytes → Bytes → Bool)
    → ℕ
    → TimelineParams
    → List EventRow
    → Result RowError (List TimelineEntry × Bool)
unfolding keep in_cursor is_selected sort_desc collect_entries
timeline matches room params table =
    let hits =
      keep (λ row. is_selected matches room params.query row && in_cursor params.before row)
        table in
    trim_page params.limit (collect_entries (take (suc params.limit) (sort_desc hits)))
