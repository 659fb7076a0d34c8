-- ===== src/Map/Sorted.antt =====
-- The sorted listing of a map's keys: ascending, without repetition, and complete.
use blabby.Prelude.{
  ℕ, ◌<◌, List, [], ◌∷◌, ◌==◌, leb, ◌||◌, ◌≡◌, arith, refl, false, Bool-cases, inl, inr, All, ◌∙◌,
}
use blabby.Map.{lookup, insert_sorted, sort, elem, keys, has_key}
use blabby.Map.Laws.{Distinct}

abbrev pub Ascending : List ℕ → Type 0
Ascending [] = Unit
Ascending (x ∷ xs) = All (λ y. x < y) xs × Ascending xs

elem-insert_sorted : (z x : ℕ) (ys : List ℕ) → elem z (insert_sorted x ys) ≡ (x == z || elem z ys)
unfolding elem insert_sorted
elem-insert_sorted z x [] = refl
elem-insert_sorted z x (y ∷ ys) = ground (arith, elem-insert_sorted z x ys)

All-insert_sorted :
    (a x : ℕ) (ys : List ℕ) → a < x → All (λ y. a < y) ys → All (λ y. a < y) (insert_sorted x ys)
unfolding insert_sorted
All-insert_sorted a x [] h hs = (h, tt)
All-insert_sorted a x (y ∷ ys) h hs = elim (Bool-cases (leb x y)) [
  | inl low ↦ rw low (h, hs)
  | inr high ↦ rw high (hs.0, All-insert_sorted a x ys h hs.1)
]

All-weaken : (a b : ℕ) (ys : List ℕ) → a < b → All (λ y. b < y) ys → All (λ y. a < y) ys
All-weaken a b [] h hs = tt
All-weaken a b (y ∷ ys) h hs = (omega arith, All-weaken a b ys h hs.1)

insert_sorted-Ascending :
    (x : ℕ) (ys : List ℕ) → elem x ys ≡ false → Ascending ys → Ascending (insert_sorted x ys)
unfolding insert_sorted elem
insert_sorted-Ascending x [] new h = (tt, tt)
insert_sorted-Ascending x (y ∷ ys) new h = elim (Bool-cases (leb x y)) [
  | inl low ↦ (let lt : x < y = ground arith in rw low ((lt, All-weaken x y ys lt h.0), h))
  | inr high ↦
      rw high (
        All-insert_sorted y x ys (ground arith) h.0,
        insert_sorted-Ascending x ys (ground arith) h.1,
      )
]

module _ {ℓ} {V : Type ℓ} where
  -- A key is listed exactly when the map has it.
  pub elem-sort-keys : (z : ℕ) (m : List (ℕ × V)) → elem z (sort (keys m)) ≡ has_key z m
  unfolding sort keys lookup elem
  elem-sort-keys z [] = refl
  elem-sort-keys z ((j, v) ∷ m) =
      elem-insert_sorted z j (sort (keys m)) ∙ ground (arith, elem-sort-keys z m)

  pub sort-keys-Ascending : (m : List (ℕ × V)) → Distinct m → Ascending (sort (keys m))
  unfolding sort keys
  sort-keys-Ascending [] d = tt
  sort-keys-Ascending ((j, v) ∷ m) d =
      insert_sorted-Ascending j (sort (keys m)) (ground (arith, elem-sort-keys j m))
        (sort-keys-Ascending m d.1)
