-- ===== src/Account/Swept.antt =====
-- On the rows that the sweep deletes and those that it leaves.
use blabby.Prelude.{
  ℕ, ◌+◌, ◌-◌, ◌&&◌, ltb, length, List, [], ◌∷◌, Option, none, some, Bool, true, false, ◌==◌,
  if◌then◌else◌, ◌≡◌, inl, inr, refl, sym, ◌∙◌, arith, Bool-cases, subst,
}
use blabby.Map.{lookup, is_some}
use blabby.Map.Laws.{Distinct, lookup-delete}
use blabby.Domain.User.{is_pending}
use blabby.Account.World.{User, Account, Verification, Tables, World, pure, statement}
use blabby.Account.Sweep.{is_abandoned, sweep_users, delete_abandoned, sweep_op, sweep}
use blabby.Account.Sound.{IsSound, is_pending_row}
use blabby.Account.Triples.{
  At, Both, Triple, Triple-Reads, Triple-statement, statement-Reads, pure-Reads, within_tx-Both,
}
use blabby.Account.Kept.{Sound}

-- The challenge expired before the cutoff.
abbrev pub is_overdue : ℕ → Option Verification → Bool
is_overdue cutoff none = false
is_overdue cutoff (some v) = ltb v.expires_at cutoff

-- Whether the row of an account is one that the sweep deletes: it is pending and overdue.
abbrev pub is_swept : ℕ → List (ℕ × Verification) → ℕ → Option User → Bool
is_swept cutoff challenges i none = false
is_swept cutoff challenges i (some u) =
    is_pending u.status && is_overdue cutoff (lookup i challenges)

module _ (cutoff : ℕ) (challenges : List (ℕ × Verification)) where
  abbrev swept : ℕ → List Account → Bool
  swept i users = is_swept cutoff challenges i (lookup i users)

  pub lookup-kept :
      (i : ℕ) (users : List Account)
      → Distinct users
      → lookup i (sweep_users cutoff challenges users).1
        ≡ (if swept i users then none else lookup i users)
  unfolding sweep_users lookup
  lookup-kept i [] d = refl
  lookup-kept i ((j, u) ∷ users) d = elim (Bool-cases (is_abandoned cutoff challenges j u)) [
    | inl old ↦ elim (Bool-cases (j == i)) [
      | inl same ↦
          let eq : j ≡ i = ground arith in
          let here = subst (λ k. lookup k users ≡ none) eq d.0 in
          let eq : j ≡ i = ground arith in
          let gone = subst (λ k. is_abandoned cutoff challenges k u ≡ true) eq old in
          rw (old, same, gone, lookup-kept i users d.1, here) refl
      | inr other ↦ rw (old, other, lookup-kept i users d.1) refl
    ]
    | inr kept ↦ elim (Bool-cases (j == i)) [
      | inl same ↦
          let eq : j ≡ i = ground arith in
          let stays = subst (λ k. is_abandoned cutoff challenges k u ≡ false) eq kept in
          rw (kept, same, stays) refl
      | inr other ↦ rw (kept, other, lookup-kept i users d.1) refl
    ]
  ]

  pub lookup-left :
      (i : ℕ) (users : List Account)
      → Distinct users
      → lookup i (sweep_users cutoff challenges users).2
        ≡ (if swept i users then none else lookup i challenges)
  unfolding sweep_users lookup
  lookup-left i [] d = refl
  lookup-left i ((j, u) ∷ users) d = elim (Bool-cases (is_abandoned cutoff challenges j u)) [
    | inl old ↦ elim (Bool-cases (j == i)) [
      | inl same ↦
          let eq : j ≡ i = ground arith in
          let gone = subst (λ k. is_abandoned cutoff challenges k u ≡ true) eq old in
          rw (old, lookup-delete j i (sweep_users cutoff challenges users).2, same, gone) refl
      | inr other ↦
          rw
            (
              old,
              lookup-delete j i (sweep_users cutoff challenges users).2,
              other,
              lookup-left i users d.1,
            )
            refl
    ]
    | inr kept ↦ elim (Bool-cases (j == i)) [
      | inl same ↦
          let eq : j ≡ i = ground arith in
          let here = subst (λ k. lookup k users ≡ none) eq d.0 in
          let eq : j ≡ i = ground arith in
          let stays = subst (λ k. is_abandoned cutoff challenges k u ≡ false) eq kept in
          rw (kept, lookup-left i users d.1, same, stays, here) refl
      | inr other ↦ rw (kept, other, lookup-left i users d.1) refl
    ]
  ]

  pub length-kept :
      (users : List Account)
      → length (sweep_users cutoff challenges users).1 + (sweep_users cutoff challenges users).0
        ≡ length users
  unfolding sweep_users
  length-kept [] = refl
  length-kept ((j, u) ∷ users) = elim (Bool-cases (is_abandoned cutoff challenges j u)) [
    | inl old ↦ rw old (omega (arith, length-kept users))
    | inr kept ↦ rw kept (omega (arith, length-kept users))
  ]

  kept-Distinct :
      (users : List Account) → Distinct users → Distinct (sweep_users cutoff challenges users).1
  unfolding sweep_users
  kept-Distinct [] d = tt
  kept-Distinct ((j, u) ∷ users) d = elim (Bool-cases (is_abandoned cutoff challenges j u)) [
    | inl old ↦ rw old (kept-Distinct users d.1)
    | inr kept ↦ rw kept (lookup-kept j users d.1 ∙ rw d.0 refl, kept-Distinct users d.1)
  ]

  pairs_swept :
      (i : ℕ) (o : Option User) (held : Option Verification)
      → is_some held ≡ is_pending_row o
      → is_some (if is_swept cutoff challenges i o then none else held)
        ≡ is_pending_row (if is_swept cutoff challenges i o then none else o)
  pairs_swept i o held e = elim (Bool-cases (is_swept cutoff challenges i o)) [
    | inl old ↦ rw old refl
    | inr stays ↦ rw stays e
  ]

  kept_challenge :
      (t : Bool) (held : Option Verification) (v : Verification)
      → (if t then none else held) ≡ some v
      → held ≡ some v
  kept_challenge true held v e = absurd (ground arith)
  kept_challenge false held v e = e

-- The rows that stay are sound as before.
sweep_users-IsSound :
    (max_resends cutoff : ℕ) (t : Tables)
    → IsSound max_resends t
    → IsSound max_resends (record {
      users = (sweep_users cutoff t.challenges t.users).1;
      challenges = (sweep_users cutoff t.challenges t.users).2;
    })
sweep_users-IsSound max_resends cutoff t h = record {
  distinct = kept-Distinct cutoff t.challenges t.users h.distinct;
  paired = λ i.
      rw
        (
          lookup-kept cutoff t.challenges i t.users h.distinct,
          lookup-left cutoff t.challenges i t.users h.distinct,
        )
        (pairs_swept cutoff t.challenges i (lookup i t.users) (lookup i t.challenges) (h.paired i));
  bounded = λ i v e. h.bounded i v (
      kept_challenge cutoff t.challenges (is_swept cutoff t.challenges i (lookup i t.users))
        (lookup i t.challenges) v (sym (lookup-left cutoff t.challenges i t.users h.distinct) ∙ e));
}

module _ (max_resends : ℕ) where
  abbrev S : Tables → Type 0
  S = Sound max_resends

  delete_abandoned-Sound : (cutoff : ℕ) → Triple S (Both S) (λ _. Both S) (delete_abandoned cutoff)
  unfolding delete_abandoned
  delete_abandoned-Sound cutoff w h = (h.0, sweep_users-IsSound max_resends cutoff w.tables h.1)

  granted-Sound :
      (granted : Bool) (cutoff : ℕ)
      → Triple S
          (Both S)
          (λ _. Both S)
          (if granted then statement (delete_abandoned cutoff) else pure 0)
  granted-Sound true cutoff w h =
      Triple-statement S (Both S) (λ _. Both S) (delete_abandoned cutoff) (λ c t h. h.0)
        (delete_abandoned-Sound cutoff) w h
  granted-Sound false cutoff w h = h

  pub sweep-Sound :
      (grace : ℕ) (locked : Bool) (now : ℕ) (w : World)
      → At (Both S) w
      → At (Both S) (sweep grace locked now w).1
  unfolding sweep sweep_op
  sweep-Sound grace locked now w h =
      within_tx-Both S (sweep_op locked (now - grace)) w
        (Triple-Reads S (Both S) (λ _. Both S) (statement (pure locked)) _ (λ c t h. h.0)
          (statement-Reads (pure locked) (pure-Reads locked))
          (λ granted. granted-Sound granted (now - grace)))
        h
