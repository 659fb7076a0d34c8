-- ===== src/Account/Kept.antt =====
-- On the statements of the account repositories and the soundness of the tables.
use blabby.Prelude.{
  ℕ, List, [], ◌∷◌, Option, none, some, true, false, ok, err, ◌≡◌, inl, inr, refl, ap, ◌∙◌, arith,
  Bool-cases, Option-cases,
}
use blabby.Text.{Bytes}
use blabby.Map.{lookup, insert, has_key, is_some}
use blabby.Domain.User.{pending}
use blabby.Account.World.{User, Account, Verification, Tables, Arrival, World, mint_user_id}
use blabby.Account.Users
use blabby.Account.Users.{
  Constraint, UserCreateParams, conflict, admit, arrive, insert_user, new_user, fresh_challenge,
  mint_public_code, find_one, find_by_email, update_user, set_status, classify_create_error,
  with_arrival,
}
use blabby.Account.Verifications
use blabby.Account.Verifications.{insert_challenge, put, may_resend, resent}
use blabby.Account.Sound.{IsSound, Within, add-IsSound, change-IsSound}
use blabby.Account.Triples.{
  Assertion, At, Both, Post, Triple, Triple-Reads, Triple-statement, Reads,
}

pub mint_user_id-Reads : Reads mint_user_id
unfolding mint_user_id
mint_user_id-Reads w = ground arith

pub mint_public_code-Reads : Reads mint_public_code
unfolding mint_public_code
mint_public_code-Reads w = ground arith

module _ (max_resends : ℕ) where
  abbrev pub Sound : Tables → Type 0
  Sound = IsSound max_resends

  admit-IsSound : (arrival : Option Arrival) (t : Tables) → Sound t → Sound (admit arrival t)
  unfolding admit
  admit-IsSound none t h = h
  admit-IsSound (some a) t h = elim (Option-cases (conflict a.id a.user t.users)) [
    | inl free ↦
        rw (free, admit)
          (add-IsSound max_resends a.id (record a.user { status = pending })
            (fresh_challenge a.pin_hash a.expires_at a.sent_at) t h refl (omega arith))
    | inr (violated, e) ↦ rw (e, admit) h
  ]

  arrive-IsSound : (w : World) → At (Both Sound) w → At (Both Sound) (arrive w)
  unfolding arrive
  arrive-IsSound w h = go w.arrivals
    where
      go :
          (arrivals : List (Option Arrival))
          → At
              (Both Sound)
              (elim arrivals [ [] ↦ w | arrival ∷ rest ↦ with_arrival arrival rest w ])
      go [] = h
      go (arrival ∷ rest) =
          (admit-IsSound arrival w.committed h.0, admit-IsSound arrival w.tables h.1)

  -- A pending account that has no challenge yet, in tables that are sound but for it.
  abbrev pub Added : Account → Assertion
  Added account c t =
      Sound c
      × ((v : Verification)
          → Within max_resends v
          → Sound (record t { challenges = insert account.0 v t.challenges }))
      × (has_key account.0 t.challenges ≡ false)

  fresh_id :
      (i : ℕ) (u : User) (t : Tables)
      → Sound t
      → conflict i u t.users ≡ none
      → has_key i t.challenges ≡ false
  unfolding conflict
  fresh_id i u t h free = elim (Option-cases (lookup i t.users)) [
    | inl gone ↦ h.paired i ∙ rw gone refl
    | inr (v, e) ↦ absurd (ground (arith, ap is_some e))
  ]

  insert_user-Added :
      (i : ℕ) (u : User) → u.status ≡ pending → Triple Sound (Both Sound) Added (insert_user i u)
  unfolding insert_user
  insert_user-Added i u new w h = go (conflict i u w.tables.users) refl
    where
      go :
          (o : Option Constraint)
          → conflict i u w.tables.users ≡ o
          → Post Sound Added (elim o [
            | some violated ↦ (err (classify_create_error violated), w)
            | none ↦ (
              ok (i, u),
              record w { tables = record w.tables { users = insert i u w.tables.users } },
            )
          ])
      go (some violated) e = h.0
      go none free = (
        h.0,
        (λ v small. add-IsSound max_resends i u v w.tables h.1 new small),
        fresh_id i u w.tables h.1 free,
      )

  pub create-Added :
      (params : UserCreateParams)
      → params.status ≡ pending
      → Triple Sound (Both Sound) Added (Users.create params)
  unfolding Users.create
  create-Added params new =
      Triple-Reads Sound (Both Sound) Added mint_user_id _ (λ c t h. h.0) mint_user_id-Reads
        (λ i.
          Triple-Reads Sound (Both Sound) Added mint_public_code _ (λ c t h. h.0)
            mint_public_code-Reads
            (λ code.
              Triple-statement Sound (Both Sound) Added _ (λ c t h. h.0)
                (λ w h.
                  insert_user-Added i (new_user code params w.now) new (arrive w)
                    (arrive-IsSound w h))))

  insert_challenge-IsSound :
      (account : Account) (v : Verification)
      → Within max_resends v
      → Triple Sound (Added account) (λ _. Both Sound) (insert_challenge account.0 v)
  unfolding insert_challenge
  insert_challenge-IsSound account v small w h = rw (h.2, Post) (h.0, h.1 v small)

  pub create_challenge-IsSound :
      (account : Account) (pin_hash : Bytes) (expires_at sent_at : ℕ)
      → Triple Sound
          (Added account)
          (λ _. Both Sound)
          (Verifications.create (record {
            user_id = account.0;
            pin_hash = pin_hash;
            expires_at = expires_at;
            sent_at = sent_at;
          }))
  unfolding Verifications.create
  create_challenge-IsSound account pin_hash expires_at sent_at =
      Triple-statement Sound (Added account) (λ _. Both Sound) _ (λ c t h. h.0)
        (insert_challenge-IsSound account _ (omega arith))

  resent-IsSound :
      (params : Verifications.ResendParams) (policy : Verifications.ResendPolicy) (v : Verification)
      (t : Tables)
      → policy.max_resend_count ≡ max_resends
      → may_resend policy v ≡ true
      → lookup params.user_id t.challenges ≡ some v
      → Sound t
      → Sound (record t { challenges = insert params.user_id (resent params v) t.challenges })
  resent-IsSound params policy v t same allowed e h =
      change-IsSound max_resends params.user_id v (resent params v) t h e
        (ground (arith, same, allowed))

  pub resend-IsSound :
      (params : Verifications.ResendParams) (policy : Verifications.ResendPolicy)
      → policy.max_resend_count ≡ max_resends
      → Triple Sound (Both Sound) (λ _. Both Sound) (Verifications.resend params policy)
  unfolding Verifications.resend
  resend-IsSound params policy same =
      Triple-statement Sound (Both Sound) (λ _. Both Sound) _ (λ c t h. h.0)
        (λ w h. elim (Option-cases (lookup params.user_id w.tables.challenges)) [
          | inl gone ↦ rw (gone, Post) h.0
          | inr (v, e) ↦ elim (Bool-cases (may_resend policy v)) [
            | inl allowed ↦
                rw (e, allowed, Post)
                  (h.0, resent-IsSound params policy v w.tables same allowed e h.1)
            | inr limited ↦ rw (e, limited, Post) h.0
          ]
        ])
