-- ===== src/Map/Named.antt =====
-- Go's `map[string]V`: an association list under byte strings, and the sorting of its keys.
use blabby.Prelude.{
  ℕ, ◌+◌, List, [], ◌∷◌, Option, none, some, Bool, true, false, ltb, ◌==◌, if◌then◌else◌, ◌≡◌, refl,
  sym, ap, ◌∙◌, arith, Bool-cases, inl, inr, All, subst,
}
use blabby.Text.{Bytes, bytes_eq}
use blabby.Text.Ascii.{bytes_eq_refl, bytes_eq-eq}

module _ {ℓ} {V : Type ℓ} where
  -- m[k]
  unfoldable pub lookup : Bytes → List (Bytes × V) → Option V
  lookup key [] = none
  lookup key ((held, value) ∷ rest) = if bytes_eq held key then some value else lookup key rest

  -- m[k] = v
  unfoldable pub insert : Bytes → V → List (Bytes × V) → List (Bytes × V)
  insert key value [] = (key, value) ∷ []
  insert key value ((held, old) ∷ rest) =
      if bytes_eq held key then (key, value) ∷ rest else (held, old) ∷ insert key value rest

  -- delete(m, k)
  unfoldable pub delete : Bytes → List (Bytes × V) → List (Bytes × V)
  delete key [] = []
  delete key ((held, old) ∷ rest) =
      let left = delete key rest in if bytes_eq held key then left else (held, old) ∷ left

  unfoldable pub keys : List (Bytes × V) → List Bytes
  keys [] = []
  keys ((held, value) ∷ rest) = held ∷ keys rest

-- a <= b, as Go compares strings
unfoldable pub bytes_leb : Bytes → Bytes → Bool
bytes_leb [] t = true
bytes_leb (b ∷ s) [] = false
bytes_leb (b ∷ s) (c ∷ t) = if b == c then bytes_leb s t else ltb b c

unfoldable pub insert_sorted : Bytes → List Bytes → List Bytes
insert_sorted x [] = x ∷ []
insert_sorted x (y ∷ ys) = if bytes_leb x y then x ∷ y ∷ ys else y ∷ insert_sorted x ys

-- `slices.Sort`
unfoldable pub sort : List Bytes → List Bytes
unfolding insert_sorted
sort [] = []
sort (x ∷ xs) = insert_sorted x (sort xs)

-- How often a key is listed.
abbrev pub one_if : Bool → ℕ
one_if true = 1
one_if false = 0

unfoldable pub count : Bytes → List Bytes → ℕ
count key [] = 0
count key (k ∷ ks) = one_if (bytes_eq k key) + count key ks

abbrev pub is_some {ℓ} : {V : Type ℓ} → Option V → Bool
is_some none = false
is_some (some v) = true

count-insert_sorted :
    (key x : Bytes) (ys : List Bytes)
    → count key (insert_sorted x ys) ≡ one_if (bytes_eq x key) + count key ys
unfolding count insert_sorted
count-insert_sorted key x [] = refl
count-insert_sorted key x (y ∷ ys) = elim (Bool-cases (bytes_leb x y)) [
  | inl low ↦ rw low refl
  | inr high ↦ rw (high, count-insert_sorted key x ys) (omega arith)
]

pub count-sort : (key : Bytes) (ks : List Bytes) → count key (sort ks) ≡ count key ks
unfolding count sort
count-sort key [] = refl
count-sort key (k ∷ ks) =
    count-insert_sorted key k (sort ks) ∙ ap (λ n. one_if (bytes_eq k key) + n) (count-sort key ks)

module _ {κ} (P : Bytes → Type κ) where
  All-insert_sorted : (x : Bytes) (ys : List Bytes) → P x → All P ys → All P (insert_sorted x ys)
  unfolding insert_sorted
  All-insert_sorted x [] h hs = (h, tt)
  All-insert_sorted x (y ∷ ys) h hs = elim (Bool-cases (bytes_leb x y)) [
    | inl low ↦ rw low (h, hs)
    | inr high ↦ rw high (hs.0, All-insert_sorted x ys h hs.1)
  ]

  pub All-sort : (ks : List Bytes) → All P ks → All P (sort ks)
  unfolding sort
  All-sort [] h = tt
  All-sort (k ∷ ks) h = All-insert_sorted k (sort ks) h.0 (All-sort ks h.1)

bytes_eq_sym : (s t : Bytes) → bytes_eq s t ≡ false → bytes_eq t s ≡ false
bytes_eq_sym s t h = elim (Bool-cases (bytes_eq t s)) [
  | inl same ↦ absurd (
      ground (arith, sym h ∙ ap (λ u. bytes_eq u t) (sym (bytes_eq-eq t s same)) ∙ bytes_eq_refl t))
  | inr other ↦ other
]

module _ {ℓ} {V : Type ℓ} where
  pub lookup-insert :
      (key asked : Bytes) (value : V) (m : List (Bytes × V))
      → lookup asked (insert key value m)
        ≡ (if bytes_eq key asked then some value else lookup asked m)
  unfolding lookup insert
  lookup-insert key asked value [] = refl
  lookup-insert key asked value ((held, old) ∷ rest) = elim (Bool-cases (bytes_eq held key)) [
    | inl same ↦ rw (same, bytes_eq-eq held key same) (again (bytes_eq key asked))
    | inr other ↦
        rw (other, lookup-insert key asked value rest)
          (elim (Bool-cases (bytes_eq held asked)) [
            | inl here ↦ rw here (elim (Bool-cases (bytes_eq key asked)) [
              | inl too ↦ absurd (clash here too other)
              | inr not_key ↦ rw not_key refl
            ])
            | inr elsewhere ↦ rw elsewhere refl
          ])
  ]
    where
      again :
          (t : Bool)
          → (if t then some value else lookup asked rest)
            ≡ (if t then some value else (if t then some old else lookup asked rest))
      again true = refl
      again false = refl

      clash : bytes_eq held asked ≡ true → bytes_eq key asked ≡ true → bytes_eq held key ≡ false → ⊥
      clash here too other = absurd (
          ground (
            arith,
            sym other
                ∙ ap (λ k. bytes_eq k key)
                    (bytes_eq-eq held asked here ∙ sym (bytes_eq-eq key asked too))
                ∙ bytes_eq_refl key,
          ))

  if_none : (o : Option V) (t : Bool) → o ≡ none → o ≡ (if t then none else o)
  if_none o true h = h
  if_none o false h = refl

  pub lookup-delete :
      (key asked : Bytes) (m : List (Bytes × V))
      → lookup asked (delete key m) ≡ (if bytes_eq key asked then none else lookup asked m)
  unfolding lookup delete
  lookup-delete key asked [] = if_none none (bytes_eq key asked) refl
  lookup-delete key asked ((held, old) ∷ rest) = elim (Bool-cases (bytes_eq held key)) [
    | inl same ↦
        rw (same, bytes_eq-eq held key same, lookup-delete key asked rest)
          (again (bytes_eq key asked))
    | inr other ↦
        rw (other, lookup-delete key asked rest)
          (elim (Bool-cases (bytes_eq held asked)) [
            | inl here ↦ rw here (elim (Bool-cases (bytes_eq key asked)) [
              | inl too ↦ absurd (clash here too other)
              | inr not_key ↦ rw not_key refl
            ])
            | inr elsewhere ↦ rw elsewhere refl
          ])
  ]
    where
      again :
          (t : Bool)
          → (if t then none else lookup asked rest)
            ≡ (if t then none else (if t then some old else lookup asked rest))
      again true = refl
      again false = refl

      clash : bytes_eq held asked ≡ true → bytes_eq key asked ≡ true → bytes_eq held key ≡ false → ⊥
      clash here too other = absurd (
          ground (
            arith,
            sym other
                ∙ ap (λ k. bytes_eq k key)
                    (bytes_eq-eq held asked here ∙ sym (bytes_eq-eq key asked too))
                ∙ bytes_eq_refl key,
          ))

  abbrev pub Distinct : List (Bytes × V) → Type ℓ
  Distinct [] = Unit
  Distinct ((k, v) ∷ m) = (lookup k m ≡ none) × Distinct m

  pub insert-Distinct :
      (key : Bytes) (value : V) (m : List (Bytes × V)) → Distinct m → Distinct (insert key value m)
  unfolding insert lookup
  insert-Distinct key value [] d = (refl, tt)
  insert-Distinct key value ((held, old) ∷ rest) d = elim (Bool-cases (bytes_eq held key)) [
    | inl same ↦ rw same (subst (λ k. lookup k rest ≡ none) (bytes_eq-eq held key same) d.0, d.1)
    | inr other ↦ rw other (
      lookup-insert key held value rest ∙ rw (bytes_eq_sym held key other) d.0,
      insert-Distinct key value rest d.1,
    )
  ]

  pub delete-Distinct : (key : Bytes) (m : List (Bytes × V)) → Distinct m → Distinct (delete key m)
  unfolding delete
  delete-Distinct key [] d = tt
  delete-Distinct key ((held, old) ∷ rest) d = elim (Bool-cases (bytes_eq held key)) [
    | inl same ↦ rw same (delete-Distinct key rest d.1)
    | inr other ↦ rw other (
      lookup-delete key held rest ∙ rw (bytes_eq_sym held key other) d.0,
      delete-Distinct key rest d.1,
    )
  ]

  -- A key is listed once if the map has it, and else not.
  pub count-keys :
      (key : Bytes) (m : List (Bytes × V))
      → Distinct m
      → count key (keys m) ≡ one_if (is_some (lookup key m))
  unfolding count keys lookup
  count-keys key [] d = refl
  count-keys key ((held, old) ∷ rest) d = elim (Bool-cases (bytes_eq held key)) [
    | inl same ↦
        rw
          (
            same,
            count-keys key rest d.1,
            subst (λ k. lookup k rest ≡ none) (bytes_eq-eq held key same) d.0,
          )
          refl
    | inr other ↦ rw other (omega (arith, count-keys key rest d.1))
  ]
