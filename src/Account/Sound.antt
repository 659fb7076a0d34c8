-- ===== src/Account/Sound.antt =====
-- The invariant of the two tables of accounts, and the updates of a row.
use blabby.Prelude.{
  ℕ, ◌≤◌, List, Option, none, some, Bool, false, ◌==◌, ◌≡◌, inl, inr, sym, ap, ◌∙◌, arith,
  Bool-cases,
}
use blabby.Map.{lookup, insert, delete, has_key, is_some}
use blabby.Map.Laws.{lookup-insert, lookup-delete, Distinct, insert-Distinct}
use blabby.Domain.User.{pending, is_pending}
use blabby.Account.World.{User, Verification, Tables}

abbrev pub is_pending_row : Option User → Bool
is_pending_row none = false
is_pending_row (some u) = is_pending u.status

-- The re-sendings of a challenge are within the policy's number.
abbrev pub Within : ℕ → Verification → Type 0
Within max_resends v = v.resend_count ≤ max_resends

-- An id has a challenge exactly while its account is pending, and its re-sendings are within the policy.
pub record IsSound (max_resends : ℕ) (t : Tables) : Type 0 where
  pub distinct : Distinct t.users
  pub paired : (i : ℕ) → has_key i t.challenges ≡ is_pending_row (lookup i t.users)
  pub bounded : (i : ℕ) (v : Verification) → lookup i t.challenges ≡ some v → Within max_resends v

module _ (max_resends : ℕ) where
  bounded_insert :
      (i : ℕ) (v : Verification) (challenges : List (ℕ × Verification))
      → Within max_resends v
      → ((j : ℕ) (w : Verification) → lookup j challenges ≡ some w → Within max_resends w)
      → (j : ℕ) (w : Verification) → lookup j (insert i v challenges) ≡ some w
      → Within max_resends w
  bounded_insert i v challenges small h j w = elim (Bool-cases (i == j)) [
    | inl same ↦ rw (lookup-insert i j v challenges, same) (λ e. ground (arith, small))
    | inr other ↦ rw (lookup-insert i j v challenges, other) (λ e. h j w e)
  ]

  -- A new pending account with its challenge.
  pub add-IsSound :
      (i : ℕ) (u : User) (v : Verification) (t : Tables)
      → IsSound max_resends t
      → u.status ≡ pending
      → Within max_resends v
      → IsSound max_resends
          (record { users = insert i u t.users; challenges = insert i v t.challenges })
  add-IsSound i u v t h new small = record {
    distinct = insert-Distinct i u t.users h.distinct;
    paired = λ j. elim (Bool-cases (i == j)) [
      | inl same ↦
          rw (lookup-insert i j v t.challenges, lookup-insert i j u t.users, same)
            (sym (ap is_pending new))
      | inr other ↦
          rw (lookup-insert i j v t.challenges, lookup-insert i j u t.users, other) (h.paired j)
    ];
    bounded = bounded_insert i v t.challenges small h.bounded;
  }

  -- A challenge that changes.
  pub change-IsSound :
      (i : ℕ) (v w : Verification) (t : Tables)
      → IsSound max_resends t
      → lookup i t.challenges ≡ some v
      → Within max_resends w
      → IsSound max_resends (record t { challenges = insert i w t.challenges })
  change-IsSound i v w t h e small = record {
    distinct = h.distinct;
    paired = λ j. elim (Bool-cases (i == j)) [
      | inl same ↦
          rw (lookup-insert i j w t.challenges, same)
            (sym (ap is_some e) ∙ ap (λ k. has_key k t.challenges) (ground arith) ∙ h.paired j)
      | inr other ↦ rw (lookup-insert i j w t.challenges, other) (h.paired j)
    ];
    bounded = bounded_insert i w t.challenges small h.bounded;
  }

  -- An account that is no longer pending, without its challenge.
  pub settle-IsSound :
      (i : ℕ) (u : User) (t : Tables)
      → IsSound max_resends t
      → is_pending u.status ≡ false
      → IsSound max_resends
          (record { users = insert i u t.users; challenges = delete i t.challenges })
  settle-IsSound i u t h settled = record {
    distinct = insert-Distinct i u t.users h.distinct;
    paired = λ j. elim (Bool-cases (i == j)) [
      | inl same ↦
          rw (lookup-delete i j t.challenges, lookup-insert i j u t.users, same) (sym settled)
      | inr other ↦
          rw (lookup-delete i j t.challenges, lookup-insert i j u t.users, other) (h.paired j)
    ];
    bounded = λ j v. elim (Bool-cases (i == j)) [
      | inl same ↦ rw (lookup-delete i j t.challenges, same) (λ e. ground arith)
      | inr other ↦ rw (lookup-delete i j t.challenges, other) (λ e. h.bounded j v e)
    ];
  }
