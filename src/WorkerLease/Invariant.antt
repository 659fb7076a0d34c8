-- ===== src/WorkerLease/Invariant.antt =====
-- What holds of the sessions of all managers at all times.
use blabby.Prelude.{
  ℕ, ◌+◌, ◌≤◌, Option, some, ◌==◌, ◌≡◌, ◌≢◌, ◌⊎◌, inl, inr, sym, ◌∙◌, arith, Bool-cases, subst,
}
use blabby.WorkerLease.Repo.{Table, Lease}
use blabby.WorkerLease.Manager.{Manager, Session}
use blabby.WorkerLease.Touches.{Safe}
use blabby.WorkerLease.System.{System, set, after}

-- Every session has lapsed or holds its row past its deadline, which is within the duration of a lease,
-- and no two share a token.
pub record Fenced (config : ℕ → Manager) (σ : System) : Type 0 where
  pub safe :
      (i : ℕ) (s : Session)
      → σ.managers i ≡ some s
      → Safe σ.now s.gen.lease_deadline s.lease σ.table
  pub within :
      (i : ℕ) (s : Session) → σ.managers i ≡ some s → s.gen.lease_deadline ≤ σ.now + (config i).ttl
  pub distinct :
      (i j : ℕ) (s t : Session)
      → σ.managers i ≡ some s
      → σ.managers j ≡ some t
      → i ≢ j
      → s.lease.token ≢ t.lease.token

pub Safe-later :
    (now later d : ℕ) (lease : Lease) (t : Table)
    → now ≤ later
    → Safe now d lease t
    → Safe later d lease t
Safe-later now later d lease t h (inl past) = inl (omega arith)
Safe-later now later d lease t h (inr held) = inr held

-- What a manager's operation has to respect: the sessions of the others.
abbrev pub Spares : System → ℕ → ℕ → Table → Type 0
Spares σ i now table =
    (j : ℕ) (t : Session)
    → j ≢ i
    → σ.managers j ≡ some t
    → Safe now t.gen.lease_deadline t.lease table

-- A token that no other manager's session has.
abbrev pub Apart : System → ℕ → Session → Type 0
Apart σ i s = (j : ℕ) (t : Session) → j ≢ i → σ.managers j ≡ some t → t.lease.token ≢ s.lease.token

-- A session that a manager may publish: it is safe, and its token is its own.
abbrev pub Sound : ℕ → System → ℕ → ℕ → Table → Session → Type 0
Sound ttl σ i now table s =
    Safe now s.gen.lease_deadline s.lease table × (s.gen.lease_deadline ≤ now + ttl) × Apart σ i s

abbrev pub Publishes : ℕ → System → ℕ → ℕ → Option Session × Table → Type 0
Publishes ttl σ i now (cur, table) =
    Spares σ i now table × ((s : Session) → cur ≡ some s → Sound ttl σ i now table s)

pub set-cases :
    (i j : ℕ) (cur : Option Session) (managers : ℕ → Option Session) (s : Session)
    → set i cur managers j ≡ some s
    → ((j ≡ i) × (cur ≡ some s)) ⊎ ((j ≢ i) × (managers j ≡ some s))
set-cases i j cur managers s = elim (Bool-cases (j == i)) [
  | inl same ↦ rw same (λ e. inl (ground arith, e))
  | inr other ↦ rw other (λ e. inr (ground arith, e))
]

pub after-Fenced :
    (config : ℕ → Manager) (σ : System) (i now : ℕ) (x : Option Session × Table)
    → σ.now ≤ now
    → Fenced config σ
    → Publishes (config i).ttl σ i now x
    → Fenced config (after σ i now x)
after-Fenced config σ i now (cur, table) h f (spares, own) = record {
  safe = λ j s e. elim (set-cases i j cur σ.managers s e) [
    | inl (same, at) ↦ (own s at).0
    | inr (other, at) ↦ spares j s other at
  ];
  within = λ j s e. elim (set-cases i j cur σ.managers s e) [
    | inl (same, at) ↦
        subst (λ k. s.gen.lease_deadline ≤ now + (config k).ttl) (sym same) (own s at).1
    | inr (other, at) ↦ omega (arith, f.within j s at)
  ];
  distinct = λ j k s t e e' differ. elim (set-cases i j cur σ.managers s e) [
    | inl (same, at) ↦ elim (set-cases i k cur σ.managers t e') [
      | inl (same', at') ↦ absurd (differ (same ∙ sym same'))
      | inr (other', at') ↦ λ eq. (own s at).2 k t other' at' (sym eq)
    ]
    | inr (other, at) ↦ elim (set-cases i k cur σ.managers t e') [
      | inl (same', at') ↦ (own t at').2 j s other at
      | inr (other', at') ↦ f.distinct j k s t at at' differ
    ]
  ];
}

pub some_inj : (s s' : Session) → some s ≡ some s' → s ≡ s'
some_inj s s' e = cc
