-- ===== src/Persistence/Pages.antt =====
-- The pages of a timeline, read one after the other, are the timeline.
use blabby.Prelude.{
  ℕ, zero, suc, ◌≤◌, ◌<◌, List, [], ◌∷◌, Bool, true, ◌&&◌, leb, if◌then◌else◌, ◌≡◌, ◌≢◌, inl, inr,
  refl, sym, ap, ◌∙◌, arith, Bool-cases, All, length, drop,
}
use blabby.Persistence.Timeline.{EventRow, keep, in_cursor, insert_desc, sort_desc}

module _ {ℓ} {A : Type ℓ} where
  pub keep-keep : (p q : A → Bool) (xs : List A) → keep (λ x. p x && q x) xs ≡ keep q (keep p xs)
  unfolding keep
  keep-keep p q [] = refl
  keep-keep p q (x ∷ xs) = elim (Bool-cases (p x)) [
    | inr out ↦ rw out (keep-keep p q xs)
    | inl held ↦ elim (Bool-cases (q x)) [
      | inl both ↦ rw (held, both) (ap (λ ys. x ∷ ys) (keep-keep p q xs))
      | inr one ↦ rw (held, one) (keep-keep p q xs)
    ]
  ]

  All-keep : (P : A → Type 0) (q : A → Bool) (xs : List A) → All P xs → All P (keep q xs)
  unfolding keep
  All-keep P q [] h = tt
  All-keep P q (x ∷ xs) h = elim (Bool-cases (q x)) [
    | inl held ↦ rw held (h.0, All-keep P q xs h.1)
    | inr out ↦ rw out (All-keep P q xs h.1)
  ]

  pub kept : (q : A → Bool) (xs : List A) → All (λ x. q x ≡ true) (keep q xs)
  unfolding keep
  kept q [] = tt
  kept q (x ∷ xs) = elim (Bool-cases (q x)) [
    | inl held ↦ rw held (held, kept q xs)
    | inr out ↦ rw out (kept q xs)
  ]

pub keep-insert_desc :
    (b : ℕ) (x : EventRow) (ys : List EventRow)
    → keep (in_cursor b) (insert_desc x ys)
      ≡ (if in_cursor b x then insert_desc x (keep (in_cursor b) ys) else keep (in_cursor b) ys)
unfolding keep insert_desc in_cursor
keep-insert_desc b x [] = ground arith
keep-insert_desc b x (y ∷ ys) = ground (arith, keep-insert_desc b x ys)

pub keep-sort_desc :
    (b : ℕ) (xs : List EventRow)
    → sort_desc (keep (in_cursor b) xs) ≡ keep (in_cursor b) (sort_desc xs)
unfolding keep sort_desc
keep-sort_desc b [] = refl
keep-sort_desc b (x ∷ xs) = elim (Bool-cases (in_cursor b x)) [
  | inl held ↦ rw held (
      ap (insert_desc x) (keep-sort_desc b xs)
      ∙ sym (keep-insert_desc b x (sort_desc xs) ∙ rw held refl))
  | inr out ↦ rw out (keep-sort_desc b xs ∙ sym (keep-insert_desc b x (sort_desc xs) ∙ rw out refl))
]

-- The ids of the rows are distinct, as the primary key makes them, and not zero.
abbrev pub AreRows : List EventRow → Type 0
AreRows [] = Unit
AreRows (x ∷ xs) = (0 < x.id) × All (λ y. y.id ≢ x.id) xs × AreRows xs

abbrev pub Descends : List EventRow → Type 0
Descends [] = Unit
Descends (x ∷ xs) = (0 < x.id) × All (λ y. y.id < x.id) xs × Descends xs

All-insert_desc :
    (P : EventRow → Type 0) (x : EventRow) (ys : List EventRow)
    → P x
    → All P ys
    → All P (insert_desc x ys)
unfolding insert_desc
All-insert_desc P x [] h hs = (h, tt)
All-insert_desc P x (y ∷ ys) h hs = elim (Bool-cases (leb y.id x.id)) [
  | inl here ↦ rw here (h, hs)
  | inr later ↦ rw later (hs.0, All-insert_desc P x ys h hs.1)
]

All-sort_desc : (P : EventRow → Type 0) (xs : List EventRow) → All P xs → All P (sort_desc xs)
unfolding sort_desc
All-sort_desc P [] h = tt
All-sort_desc P (x ∷ xs) h = All-insert_desc P x (sort_desc xs) h.0 (All-sort_desc P xs h.1)

All-below : (a b : ℕ) (ys : List EventRow) → a < b → All (λ y. y.id < a) ys → All (λ y. y.id < b) ys
All-below a b [] h hs = tt
All-below a b (y ∷ ys) h hs = (omega arith, All-below a b ys h hs.1)

insert_desc-Descends :
    (x : EventRow) (ys : List EventRow)
    → 0 < x.id
    → All (λ y. y.id ≢ x.id) ys
    → Descends ys
    → Descends (insert_desc x ys)
unfolding insert_desc
insert_desc-Descends x [] pos new h = (pos, tt, tt)
insert_desc-Descends x (y ∷ ys) pos new (ypos, below, h) = elim (Bool-cases (leb y.id x.id)) [
  | inl here ↦
      (let lt : y.id < x.id = strict y.id x.id new.0 (ground arith) in
        rw here (pos, (lt, All-below y.id x.id ys lt below), (ypos, below, h)))
  | inr later ↦
      rw later
        (ypos, All-insert_desc _ x ys (ground arith) below, insert_desc-Descends x ys pos new.1 h)
]
  where
    strict : (a b : ℕ) → a ≢ b → a ≤ b → a < b
    strict a b ne le = omega (arith, ne, le)

pub sort_desc-Descends : (xs : List EventRow) → AreRows xs → Descends (sort_desc xs)
unfolding sort_desc
sort_desc-Descends [] h = tt
sort_desc-Descends (x ∷ xs) (pos, new, h) =
    insert_desc-Descends x (sort_desc xs) pos (All-sort_desc (λ y. y.id ≢ x.id) xs new)
      (sort_desc-Descends xs h)

pub keep-AreRows : (q : EventRow → Bool) (xs : List EventRow) → AreRows xs → AreRows (keep q xs)
unfolding keep
keep-AreRows q [] h = tt
keep-AreRows q (x ∷ xs) (pos, new, h) = elim (Bool-cases (q x)) [
  | inl held ↦ rw held (pos, All-keep (λ y. y.id ≢ x.id) q xs new, keep-AreRows q xs h)
  | inr out ↦ rw out (keep-AreRows q xs h)
]

-- The id of the row at an index.
abbrev pub id_at : ℕ → List EventRow → ℕ
id_at n [] = 0
id_at zero (x ∷ xs) = x.id
id_at (suc n) (x ∷ xs) = id_at n xs

pub All-at :
    (P : ℕ → Type 0) (n : ℕ) (xs : List EventRow)
    → n < length xs
    → All (λ x. P x.id) xs
    → P (id_at n xs)
All-at P n [] lt h = absurd (omega arith)
All-at P zero (x ∷ xs) lt h = h.0
All-at P (suc n) (x ∷ xs) lt h = All-at P n xs (omega arith) h.1

keep_idle : (b : ℕ) (xs : List EventRow) → All (λ x. x.id < b) xs → keep (in_cursor b) xs ≡ xs
unfolding keep in_cursor
keep_idle b [] h = refl
keep_idle b (x ∷ xs) h = ground (arith, keep_idle b xs h.1, h.0)

pub Descends-positive : (xs : List EventRow) → Descends xs → All (λ x. 0 < x.id) xs
Descends-positive [] d = tt
Descends-positive (x ∷ xs) (pos, below, d) = (pos, Descends-positive xs d)

keep-skip :
    (c : ℕ) (x : EventRow) (xs : List EventRow)
    → 0 < c
    → c ≤ x.id
    → keep (in_cursor c) (x ∷ xs) ≡ keep (in_cursor c) xs
unfolding keep in_cursor
keep-skip c x xs pos le = ground arith

-- After the row at an index, the cursor of its id leaves what follows it.
pub cut :
    (n : ℕ) (xs : List EventRow)
    → Descends xs
    → n < length xs
    → keep (in_cursor (id_at n xs)) xs ≡ drop (suc n) xs
unfolding keep in_cursor
cut n [] d lt = absurd (omega arith)
cut zero (x ∷ xs) (pos, below, d) lt = ground (arith, keep_idle x.id xs below, pos)
cut (suc n) (x ∷ xs) (pos, below, d) lt =
    let low = All-at (λ i. i < x.id) n xs (omega arith) below in
    let positive = All-at (λ i. 0 < i) n xs (omega arith) (Descends-positive xs d) in
    keep-skip (id_at n xs) x xs positive (omega (arith, low)) ∙ cut n xs d (omega arith)

-- Some row with an id.
abbrev pub row_with : ℕ → EventRow
row_with i = record {
  id = i;
  room_id = 0;
  kind = "";
  text = [];
  occurred_at = 0;
  public_code = [];
  display_name = [];
}

-- A cursor further down makes one further up idle.
pub keep-narrow :
    (b c : ℕ) (xs : List EventRow)
    → 0 < c
    → in_cursor b (row_with c) ≡ true
    → keep (in_cursor c) (keep (in_cursor b) xs) ≡ keep (in_cursor c) xs
unfolding keep in_cursor
keep-narrow b c [] pos low = refl
keep-narrow b c (x ∷ xs) pos low = ground (arith, keep-narrow b c xs pos low)
