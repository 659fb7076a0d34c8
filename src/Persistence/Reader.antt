-- ===== src/Persistence/Reader.antt =====
-- A reader that follows the continuation cursor, as the handler of GET /rooms/{id}/events gives it, from
-- the newest page to the end of the timeline.
use blabby.Prelude.{
  ℕ, zero, suc, ◌≤◌, ◌<◌, List, [], ◌∷◌, ◌++◌, Option, none, some, Bool, true, false, ◌&&◌, ltb,
  Result, ok, err, ◌≡◌, inl, inr, refl, sym, ap, ◌∙◌, subst, arith, Bool-cases, All, length,
  length-drop, take, drop,
}
use blabby.Text.{Bytes}
use blabby.Persistence.Timeline.{
  EventRow, TimelineEntry, RowError, keep, in_cursor, is_selected, sort_desc, parse_row,
  and_entries, collect_entries, trim, trim_page, timeline,
}
use blabby.Persistence.Pages.{
  AreRows, Descends, Descends-positive, keep-keep, keep-sort_desc, sort_desc-Descends, keep-AreRows,
  id_at, All-at, kept, cut, keep-narrow, row_with,
}

abbrev pub last_id : List TimelineEntry → ℕ
last_id [] = 0
last_id (e ∷ []) = e.id
last_id (e ∷ f ∷ es) = last_id (f ∷ es)

abbrev pub joined :
    List TimelineEntry
    → Option (Result RowError (List TimelineEntry))
    → Option (Result RowError (List TimelineEntry))
joined entries none = none
joined entries (some (err e)) = some (err e)
joined entries (some (ok more)) = some (ok (entries ++ more))

abbrev pub continue :
    Result RowError (List TimelineEntry × Bool)
    → (ℕ → Option (Result RowError (List TimelineEntry)))
    → Option (Result RowError (List TimelineEntry))
continue (err e) later = some (err e)
continue (ok (entries, false)) later = some (ok entries)
continue (ok (entries, true)) later = joined entries (later (last_id entries))

module _ (matches : Bytes → Bytes → Bool) (room : ℕ) (query : Bytes) (limit : ℕ)
    (table : List EventRow) where
  abbrev page : ℕ → Result RowError (List TimelineEntry × Bool)
  page before =
      timeline matches room (record { query = query; before = before; limit = limit }) table

  -- All pages from a cursor on, joined; none where the fuel is used up.
  unfoldable pub pages : ℕ → ℕ → Option (Result RowError (List TimelineEntry))
  unfolding timeline
  pages zero before = none
  pages (suc fuel) before = continue (page before) (pages fuel)

  -- The whole timeline, or the messages of it that the query hits, newest first.
  abbrev pub hits : List EventRow
  hits = sort_desc (keep (is_selected matches room query) table)

abbrev Gives : List EventRow → List TimelineEntry → Type 0
Gives [] [] = Unit
Gives (r ∷ rs) (e ∷ es) = (parse_row r ≡ ok e) × Gives rs es
Gives rs es = ⊥

abbrev answer : List TimelineEntry → Result RowError (List TimelineEntry)
answer xs = ok xs

ok_inj : (xs ys : List TimelineEntry) → answer xs ≡ ok ys → xs ≡ ys
ok_inj xs ys h = cc

collect-Gives :
    (rs : List EventRow) (es : List TimelineEntry) → collect_entries rs ≡ ok es → Gives rs es
unfolding collect_entries
collect-Gives [] [] h = tt
collect-Gives [] (e ∷ es) h = cc
collect-Gives (r ∷ rs) es h = go (parse_row r) (collect_entries rs) refl refl h (collect-Gives rs)
  where
    go :
        (p : Result RowError TimelineEntry) (q : Result RowError (List TimelineEntry))
        → parse_row r ≡ p
        → collect_entries rs ≡ q
        → and_entries p q ≡ ok es
        → ((es' : List TimelineEntry) → collect_entries rs ≡ ok es' → Gives rs es')
        → Gives (r ∷ rs) es
    go (err e) q f g h ih = cc
    go (ok e) (err x) f g h ih = cc
    go (ok e) (ok es') f g h ih = subst (Gives (r ∷ rs)) (ok_inj (e ∷ es') es h) (f, ih es' g)

Gives-collect :
    (rs : List EventRow) (es : List TimelineEntry) → Gives rs es → collect_entries rs ≡ ok es
unfolding collect_entries
Gives-collect [] [] g = refl
Gives-collect [] (e ∷ es) g = absurd g
Gives-collect (r ∷ rs) [] g = absurd g
Gives-collect (r ∷ rs) (e ∷ es) (f, g) = rw (f, Gives-collect rs es g) refl

Gives-take :
    (n : ℕ) (rs : List EventRow) (es : List TimelineEntry)
    → Gives rs es
    → Gives (take n rs) (take n es)
Gives-take zero rs es g = tt
Gives-take (suc n) [] [] g = tt
Gives-take (suc n) [] (e ∷ es) g = absurd g
Gives-take (suc n) (r ∷ rs) [] g = absurd g
Gives-take (suc n) (r ∷ rs) (e ∷ es) (f, g) = (f, Gives-take n rs es g)

Gives-drop :
    (n : ℕ) (rs : List EventRow) (es : List TimelineEntry)
    → Gives rs es
    → Gives (drop n rs) (drop n es)
Gives-drop zero rs es g = g
Gives-drop (suc n) [] [] g = tt
Gives-drop (suc n) [] (e ∷ es) g = absurd g
Gives-drop (suc n) (r ∷ rs) [] g = absurd g
Gives-drop (suc n) (r ∷ rs) (e ∷ es) (f, g) = Gives-drop n rs es g

Gives-length : (rs : List EventRow) (es : List TimelineEntry) → Gives rs es → length es ≡ length rs
Gives-length [] [] g = refl
Gives-length [] (e ∷ es) g = absurd g
Gives-length (r ∷ rs) [] g = absurd g
Gives-length (r ∷ rs) (e ∷ es) (f, g) = ap suc (Gives-length rs es g)

parse_row-id : (r : EventRow) (e : TimelineEntry) → parse_row r ≡ ok e → e.id ≡ r.id
unfolding parse_row blabby.Id.new_id
parse_row-id r e h = ground arith

last_id-take :
    (n : ℕ) (rs : List EventRow) (es : List TimelineEntry)
    → Gives rs es
    → n < length rs
    → last_id (take (suc n) es) ≡ id_at n rs
last_id-take n [] es g lt = absurd (omega arith)
last_id-take n (r ∷ rs) [] g lt = absurd g
last_id-take zero (r ∷ rs) (e ∷ es) (f, g) lt = parse_row-id r e f
last_id-take (suc n) (r ∷ []) (e ∷ es) (f, g) lt = absurd (omega arith)
last_id-take (suc n) (r ∷ s ∷ rs) (e ∷ []) (f, g) lt = absurd g
last_id-take (suc n) (r ∷ s ∷ rs) (e ∷ d ∷ es) (f, g) lt =
    last_id-take n (s ∷ rs) (d ∷ es) g (omega arith)

keep_everything : (xs : List EventRow) → keep (in_cursor 0) xs ≡ xs
unfolding keep in_cursor
keep_everything [] = refl
keep_everything (x ∷ xs) = ap (λ ys. x ∷ ys) (keep_everything xs)

module _ {ℓ} {A : Type ℓ} where
  take_all : (n : ℕ) (xs : List A) → length xs ≤ n → take n xs ≡ xs
  take_all zero [] h = refl
  take_all zero (x ∷ xs) h = absurd (omega arith)
  take_all (suc n) [] h = refl
  take_all (suc n) (x ∷ xs) h = ap (λ ys. x ∷ ys) (take_all n xs (omega arith))

  take-take : (n : ℕ) (xs : List A) → take n (take (suc n) xs) ≡ take n xs
  take-take zero xs = refl
  take-take (suc n) [] = refl
  take-take (suc n) (x ∷ xs) = ap (λ ys. x ∷ ys) (take-take n xs)

  take-drop : (n : ℕ) (xs : List A) → take n xs ++ drop n xs ≡ xs
  take-drop zero xs = refl
  take-drop (suc n) [] = refl
  take-drop (suc n) (x ∷ xs) = ap (λ ys. x ∷ ys) (take-drop n xs)

  length-take_more : (n : ℕ) (xs : List A) → n < length xs → n < length (take (suc n) xs)
  length-take_more n [] h = absurd (omega arith)
  length-take_more zero (x ∷ xs) h = omega arith
  length-take_more (suc n) (x ∷ xs) h = omega (arith, length-take_more n xs (omega arith))

trim_whole : (n : ℕ) (es : List TimelineEntry) → length es ≤ n → trim n es ≡ (es, false)
trim_whole n es h = ground arith

trim_more :
    (n : ℕ) (es : List TimelineEntry) → n < length es → trim n (take (suc n) es) ≡ (take n es, true)
trim_more n es h = rw (fits) (ap (λ xs. (xs, true)) (take-take n es))
  where
    fits : ltb n (length (take (suc n) es)) ≡ true
    fits = ground (arith, length-take_more n es h)

-- A page, from the rows that its cursor leaves: all of them, or the first `n`.
page_last :
    (n : ℕ) (rs : List EventRow) (es : List TimelineEntry)
    → Gives rs es
    → length rs ≤ n
    → trim_page n (collect_entries (take (suc n) rs)) ≡ ok (es, false)
page_last n rs es g h =
    rw (take_all (suc n) rs (omega arith), Gives-collect rs es g)
      (ap ok (trim_whole n es (omega (arith, Gives-length rs es g))))

page_more :
    (n : ℕ) (rs : List EventRow) (es : List TimelineEntry)
    → Gives rs es
    → n < length rs
    → trim_page n (collect_entries (take (suc n) rs)) ≡ ok (take n es, true)
page_more n rs es g h =
    rw (Gives-collect (take (suc n) rs) (take (suc n) es) (Gives-take (suc n) rs es g))
      (ap ok (trim_more n es (omega (arith, Gives-length rs es g))))

module _ (matches : Bytes → Bytes → Bool) (room : ℕ) (query : Bytes) (n : ℕ)
    (table : List EventRow) where
  abbrev all : List EventRow
  all = hits matches room query n table

  abbrev rows_of : ℕ → List EventRow
  rows_of before =
      sort_desc (keep (λ row. is_selected matches room query row && in_cursor before row) table)

  rows_of-keep : (before : ℕ) → rows_of before ≡ keep (in_cursor before) all
  rows_of-keep before =
      ap sort_desc (keep-keep (is_selected matches room query) (in_cursor before) table)
      ∙ keep-sort_desc before (keep (is_selected matches room query) table)

  Descends-drop : (k : ℕ) (rs : List EventRow) → Descends rs → Descends (drop k rs)
  Descends-drop zero rs d = d
  Descends-drop (suc k) [] d = tt
  Descends-drop (suc k) (r ∷ rs) (pos, below, d) = Descends-drop k rs d

  -- A row that a cursor left has an id below it.
  left_below :
      (before k : ℕ) (rs : List EventRow)
      → keep (in_cursor before) all ≡ rs
      → k < length rs
      → in_cursor before (row_with (id_at k rs)) ≡ true
  left_below before k rs at lt =
      All-at (λ i. in_cursor before (row_with i) ≡ true) k rs lt
        (by_id before rs
          (subst (All (λ x. in_cursor before x ≡ true)) at (kept (in_cursor before) all)))
    where
      by_id :
          (b : ℕ) (xs : List EventRow)
          → All (λ x. in_cursor b x ≡ true) xs
          → All (λ x. in_cursor b (row_with x.id) ≡ true) xs
      by_id b [] h = tt
      by_id b (x ∷ xs) h = (unfold in_cursor in h.0, by_id b xs h.1)

  narrowed :
      (before k : ℕ) (rs : List EventRow)
      → keep (in_cursor before) all ≡ rs
      → Descends rs
      → k < length rs
      → keep (in_cursor (id_at k rs)) all ≡ drop (suc k) rs
  narrowed before k rs at d lt =
      sym (
        keep-narrow before (id_at k rs) all (All-at (λ i. 0 < i) k rs lt (Descends-positive rs d))
          (left_below before k rs at lt))
      ∙ ap (keep (in_cursor (id_at k rs))) at
      ∙ cut k rs d lt

  walk :
      (fuel before : ℕ) (rs : List EventRow) (es : List TimelineEntry)
      → keep (in_cursor before) all ≡ rs
      → Descends rs
      → Gives rs es
      → length rs < fuel
      → pages matches room query (suc n) table fuel before ≡ some (ok es)
  unfolding pages timeline
  walk zero before rs es at d g enough = absurd (omega arith)
  walk (suc fuel) before rs es at d g enough = elim (Bool-cases (ltb (suc n) (length rs))) [
    | inr last ↦ rw (rows_of-keep before ∙ at, page_last (suc n) rs es g (ground arith)) refl
    | inl more ↦
        rw (rows_of-keep before ∙ at, page_more (suc n) rs es g (ground arith))
          (rw
            (
              last_id-take n rs es g (ground arith),
              walk fuel (id_at n rs) (drop (suc n) rs) (drop (suc n) es)
                  (narrowed before n rs at d (ground arith)) (Descends-drop (suc n) rs d)
                  (Gives-drop (suc n) rs es g) (grind (arith, length-drop (suc n) rs, enough)),
            )
            (ap (λ xs. some (ok xs)) (take-drop (suc n) es)))
  ]

  -- With a page size that is not zero, over rows with distinct ids that are not zero, a reader that
  -- follows the cursor until a page reports that none follows gets the whole timeline once and newest
  -- first (or all its messages that the query hits), if every row parses; it needs at most one page
  -- more than there are rows.
  pub pages_cover :
      (es : List TimelineEntry)
      → AreRows table
      → collect_entries all ≡ ok es
      → pages matches room query (suc n) table (suc (length all)) 0 ≡ some (ok es)
  pages_cover es valid parsed =
      walk (suc (length all)) 0 all es (keep_everything all)
        (sort_desc-Descends (keep (is_selected matches room query) table)
          (keep-AreRows (is_selected matches room query) table valid))
        (collect-Gives all es parsed) (omega arith)
