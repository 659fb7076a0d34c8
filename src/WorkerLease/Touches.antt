-- ===== src/WorkerLease/Touches.antt =====
-- Which rows a statement may change, and what becomes of a row that a session relies on.
use blabby.Prelude.{
  ℕ, ◌≤◌, Option, none, some, true, ◌==◌, ◌≡◌, ◌⊎◌, inl, inr, refl, ap, ◌∙◌, arith, Bool-cases,
}
use blabby.Map.{lookup, insert, delete}
use blabby.Map.Laws.{lookup-insert, lookup-delete}
use blabby.WorkerLease.Repo.{Row, Table, Lease, is_free, is_held, has_token}

-- Every row of the first table that changes has the property.
abbrev pub Touches : (Row → Type 0) → Table → Table → Type 0
Touches P t t' =
    (k : ℕ) → (lookup k t' ≡ lookup k t) ⊎ ((row : Row) → lookup k t ≡ some row → P row)

abbrev pub Expired : ℕ → Row → Type 0
Expired now row = row.expires_at ≤ now

abbrev pub Owned : ℕ → Row → Type 0
Owned token row = row.lease_token ≡ token

pub Touches-refl : (P : Row → Type 0) (t : Table) → Touches P t t
Touches-refl P t k = inl refl

pub Touches-trans :
    (P : Row → Type 0) (a b c : Table) → Touches P a b → Touches P b c → Touches P a c
Touches-trans P a b c f g k = elim (f k) [
  | inr old ↦ inr old
  | inl same ↦ elim (g k) [
    | inl again ↦ inl (again ∙ same)
    | inr new ↦ inr (λ row e. new row (same ∙ e))
  ]
]

-- The row that a deadline relies on: the lease's own, and not to expire before it.
abbrev pub Holds : ℕ → Lease → Table → Type 0
Holds d lease t =
    (row : Row) × (lookup lease.worker_id t ≡ some row)
    × (row.lease_token ≡ lease.token)
    × (d ≤ row.expires_at)

abbrev pub Safe : ℕ → ℕ → Lease → Table → Type 0
Safe now d lease t = (d ≤ now) ⊎ Holds d lease t

pub Safe-Touches :
    (P : Row → Type 0) (now d : ℕ) (lease : Lease) (t t' : Table)
    → ((row : Row) → P row → row.lease_token ≡ lease.token → d ≤ row.expires_at → d ≤ now)
    → Touches P t t'
    → Safe now d lease t
    → Safe now d lease t'
Safe-Touches P now d lease t t' lapses f (inl past) = inl past
Safe-Touches P now d lease t t' lapses f (inr (row, at, own, le)) = elim (f lease.worker_id) [
  | inl same ↦ inr (row, same ∙ at, own, le)
  | inr touched ↦ inl (lapses row (touched row at) own le)
]

pub insert-Touches :
    (P : Row → Type 0) (key : ℕ) (value : Row) (t : Table)
    → ((row : Row) → lookup key t ≡ some row → P row)
    → Touches P t (insert key value t)
insert-Touches P key value t h k = elim (Bool-cases (key == k)) [
  | inl same ↦ inr (λ row e. h row (ap (λ i. lookup i t) (ground arith) ∙ e))
  | inr other ↦ inl (lookup-insert key k value t ∙ rw other refl)
]

pub delete-Touches :
    (P : Row → Type 0) (key : ℕ) (t : Table)
    → ((row : Row) → lookup key t ≡ some row → P row)
    → Touches P t (delete key t)
delete-Touches P key t h k = elim (Bool-cases (key == k)) [
  | inl same ↦ inr (λ row e. h row (ap (λ i. lookup i t) (ground arith) ∙ e))
  | inr other ↦ inl (lookup-delete key k t ∙ rw other refl)
]

pub lookup-insert_same :
    (key : ℕ) (value : Row) (t : Table) → lookup key (insert key value t) ≡ some value
lookup-insert_same key value t = lookup-insert key key value t ∙ ground arith

pub free-Expired :
    (now : ℕ) (o : Option Row) (row : Row) → is_free now o ≡ true → o ≡ some row → Expired now row
free-Expired now none row h e = cc
free-Expired now (some r) row h e = ground arith

pub token-Owned :
    (lease : Lease) (o : Option Row) (row : Row)
    → has_token lease o ≡ true
    → o ≡ some row
    → Owned lease.token row
token-Owned lease none row h e = cc
token-Owned lease (some r) row h e = ground arith

pub held-Owned :
    (now : ℕ) (lease : Lease) (o : Option Row) (row : Row)
    → is_held now lease o ≡ true
    → o ≡ some row
    → Owned lease.token row
held-Owned now lease none row h e = cc
held-Owned now lease (some r) row h e = ground arith
