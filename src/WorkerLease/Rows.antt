-- ===== src/WorkerLease/Rows.antt =====
-- What the statements on the table do to a row that a session relies on.
use blabby.Prelude.{
  ℕ, zero, suc, ◌+◌, ◌<◌, List, [], ◌∷◌, Option, none, some, Bool, true, false, if◌then◌else◌,
  Result, ok, err, ◌≡◌, ◌≢◌, inl, inr, refl, ap, ◌∙◌, arith, Bool-cases, All,
}
use blabby.Map.{lookup}
use blabby.WorkerLease.Repo
use blabby.WorkerLease.Repo.{
  Row, Table, Lease, Attempt, StoreError, is_free, is_held, has_token, lowest_free, claim,
  acquire_sql, renew_sql, release_sql, acquire_from, acquire, answer, is_retry, acquire_attempts,
}
use blabby.WorkerLease.Touches.{
  Expired, Owned, Touches, Touches-refl, Touches-trans, delete-Touches, free-Expired, held-Owned,
  insert-Touches, lookup-insert_same, token-Owned,
}

-- The ids that `generate_series(0, 1023)` lists, and no other.
pub lowest_free-bound :
    (now : ℕ) (t : Table) (count gs worker : ℕ)
    → lowest_free now t count gs ≡ some worker
    → worker < gs + count
unfolding lowest_free
lowest_free-bound now t zero gs worker e = cc
lowest_free-bound now t (suc count) gs worker e = elim (Bool-cases (is_free now (lookup gs t))) [
  | inl free ↦ ground arith
  | inr busy ↦ ground (arith, lowest_free-bound now t count (suc gs) worker)
]

-- What a claim leaves: expired rows may change, and a claimed id has a row with the token.
abbrev Claims : ℕ → ℕ → ℕ → Table → Option ℕ × Table → Type 0
Claims now token ttl t (none, t') = Touches (Expired now) t t'
Claims now token ttl t (some worker, t') =
    Touches (Expired now) t t'
    × (lookup worker t' ≡ some (record { lease_token = token; expires_at = now + ttl }))
    × (worker < 1024)

claim-Claims :
    (now token ttl : ℕ) (t : Table) (o : Option ℕ)
    → ((worker : ℕ) → o ≡ some worker → worker < 1024)
    → Claims now token ttl t (claim now token ttl t o)
claim-Claims now token ttl t none small = Touches-refl (Expired now) t
claim-Claims now token ttl t (some gs) small = elim (Bool-cases (is_free now (lookup gs t))) [
  | inr busy ↦ rw busy (Touches-refl (Expired now) t)
  | inl free ↦ rw free (
    insert-Touches (Expired now) gs _ t (λ row e. free-Expired now (lookup gs t) row free e),
    lookup-insert_same gs _ t,
    small gs refl,
  )
]

acquire_sql-Claims :
    (now token ttl : ℕ) (snapshot t : Table)
    → Claims now token ttl t (acquire_sql now token ttl snapshot t)
unfolding acquire_sql
acquire_sql-Claims now token ttl snapshot t =
    claim-Claims now token ttl t (lowest_free now snapshot 1024 0)
      (λ worker e. lowest_free-bound now snapshot 1024 0 worker e)

-- The tokens of the attempts have the property.
abbrev pub Tokens : (ℕ → Type 0) → List Attempt → Type 0
Tokens P attempts = All (λ a. (token : ℕ) → a.token ≡ some token → P token) attempts

-- What an acquisition leaves: expired rows may change, and a lease has its row for `ttl` from now.
abbrev pub Grants : ℕ → ℕ → (ℕ → Type 0) → Table → Result StoreError Lease × Table → Type 0
Grants now ttl P t (err e, t') = Touches (Expired now) t t'
Grants now ttl P t (ok lease, t') =
    Touches (Expired now) t t'
    × (lookup lease.worker_id t'
        ≡ some (record { lease_token = lease.token; expires_at = now + ttl }))
    × (lease.worker_id < 1024)
    × P lease.token

settled-Grants :
    (now ttl token : ℕ) (P : ℕ → Type 0) (t : Table) (answered : Bool) (claimed : Option ℕ × Table)
    (later : Result StoreError Lease × Table)
    → P token
    → Claims now token ttl t claimed
    → Grants now ttl P claimed.1 later
    → Grants now ttl P t (
        if is_retry answered claimed.0
        then later
        else (answer answered claimed.0 token later.0, claimed.1))
settled-Grants now ttl token P t true (some worker, t') later p (f, at, small) g = (f, at, small, p)
settled-Grants now ttl token P t false (some worker, t') later p (f, at, small) g = f
settled-Grants now ttl token P t false (none, t') later p f g = f
settled-Grants now ttl token P t true (none, t') (err e, t'') p f g =
    Touches-trans (Expired now) t t' t'' f g
settled-Grants now ttl token P t true (none, t') (ok lease, t'') p f (g, at, small, q) =
    (Touches-trans (Expired now) t t' t'' f g, at, small, q)

attempt-Grants :
    (now ttl : ℕ) (P : ℕ → Type 0) (a : Attempt) (t : Table)
    (later : Table → Result StoreError Lease × Table)
    → ((token : ℕ) → a.token ≡ some token → P token)
    → ((t' : Table) → Grants now ttl P t' (later t'))
    → (o : Option ℕ) → a.token ≡ o
    → Grants now ttl P t (elim o [
      | none ↦ (err Repo.generate_token, t)
      | some token ↦
          let (claimed, t') = acquire_sql now token ttl a.snapshot t in
          let (next, t'') = later t' in
          if is_retry a.answered claimed
          then (next, t'')
          else (answer a.answered claimed token next, t')
    ])
attempt-Grants now ttl P a t later h g none e = Touches-refl (Expired now) t
attempt-Grants now ttl P a t later h g (some token) e =
    settled-Grants now ttl token P t a.answered (acquire_sql now token ttl a.snapshot t)
      (later (acquire_sql now token ttl a.snapshot t).1) (h token e)
      (acquire_sql-Claims now token ttl a.snapshot t) (g (acquire_sql now token ttl a.snapshot t).1)

acquire_from-Grants :
    (n now ttl : ℕ) (P : ℕ → Type 0) (attempts : List Attempt) (t : Table)
    → Tokens P attempts
    → Grants now ttl P t (acquire_from n now ttl attempts t)
unfolding acquire_from
acquire_from-Grants zero now ttl P attempts t h = Touches-refl (Expired now) t
acquire_from-Grants (suc n) now ttl P [] t h = Touches-refl (Expired now) t
acquire_from-Grants (suc n) now ttl P (a ∷ attempts) t h =
    attempt-Grants now ttl P a t (acquire_from n now ttl attempts) h.0
      (λ t'. acquire_from-Grants n now ttl P attempts t' h.1) a.token refl

pub acquire-Grants :
    (now ttl : ℕ) (P : ℕ → Type 0) (attempts : List Attempt) (t : Table)
    → Tokens P attempts
    → Grants now ttl P t (acquire now ttl attempts t)
unfolding acquire
acquire-Grants now ttl P attempts t h = acquire_from-Grants acquire_attempts now ttl P attempts t h

-- A renewal changes the lease's own row alone, and one that holds leaves it `ttl` from now.
pub renew_sql-Touches :
    (now ttl : ℕ) (lease : Lease) (t : Table)
    → Touches (Owned lease.token) t (renew_sql now lease ttl t).1
unfolding renew_sql
renew_sql-Touches now ttl lease t =
    elim (Bool-cases (is_held now lease (lookup lease.worker_id t))) [
      | inl held ↦ rw held (
          insert-Touches (Owned lease.token) lease.worker_id _ t
            (λ row e. held-Owned now lease (lookup lease.worker_id t) row held e))
      | inr lost ↦ rw lost (Touches-refl (Owned lease.token) t)
    ]

pub renew_sql-held :
    (now ttl : ℕ) (lease : Lease) (t : Table)
    → (renew_sql now lease ttl t).0 ≡ true
    → lookup lease.worker_id (renew_sql now lease ttl t).1
      ≡ some (record { lease_token = lease.token; expires_at = now + ttl })
unfolding renew_sql
renew_sql-held now ttl lease t = elim (Bool-cases (is_held now lease (lookup lease.worker_id t))) [
  | inl held ↦ rw held (λ _. lookup-insert_same lease.worker_id _ t)
  | inr lost ↦ rw lost (λ e. absurd (ground arith))
]

-- A renewal that finds no row changes nothing.
pub renew_sql-lost :
    (now ttl : ℕ) (lease : Lease) (t : Table)
    → (renew_sql now lease ttl t).0 ≡ false
    → (renew_sql now lease ttl t).1 ≡ t
unfolding renew_sql
renew_sql-lost now ttl lease t = elim (Bool-cases (is_held now lease (lookup lease.worker_id t))) [
  | inl held ↦ rw held (λ e. absurd (ground arith))
  | inr lost ↦ rw lost (λ _. refl)
]

pub release_sql-Touches :
    (lease : Lease) (t : Table) → Touches (Owned lease.token) t (release_sql lease t)
unfolding release_sql
release_sql-Touches lease t = elim (Bool-cases (has_token lease (lookup lease.worker_id t))) [
  | inl own ↦ rw own (
      delete-Touches (Owned lease.token) lease.worker_id t
        (λ row e. token-Owned lease (lookup lease.worker_id t) row own e))
  | inr other ↦ rw other (Touches-refl (Owned lease.token) t)
]

claim-busy :
    (now token ttl : ℕ) (t : Table) (o : Option ℕ) (worker : ℕ) (row : Row)
    → lookup worker t ≡ some row
    → now < row.expires_at
    → (claim now token ttl t o).0 ≢ some worker
claim-busy now token ttl t none worker row held later = λ e. cc
claim-busy now token ttl t (some gs) worker row held later =
    elim (Bool-cases (is_free now (lookup gs t))) [
      | inr busy ↦ rw busy (λ e. cc)
      | inl free ↦ rw free (λ e.
          let gone =
            free-Expired now (lookup gs t) row free (ap (λ w. lookup w t) (ground arith) ∙ held) in
          omega (arith, gone))
    ]

-- An unexpired row is not claimed, whatever the snapshot shows.
pub acquire_sql-busy :
    (now token ttl : ℕ) (snapshot t : Table) (worker : ℕ) (row : Row)
    → lookup worker t ≡ some row
    → now < row.expires_at
    → (acquire_sql now token ttl snapshot t).0 ≢ some worker
unfolding acquire_sql
acquire_sql-busy now token ttl snapshot t worker row held later =
    claim-busy now token ttl t (lowest_free now snapshot 1024 0) worker row held later
