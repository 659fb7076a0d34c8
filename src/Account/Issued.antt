-- ===== src/Account/Issued.antt =====
-- On the statements of a registration: the account and the challenge that they leave.
use blabby.Prelude.{
  ℕ, ◌+◌, List, [], ◌∷◌, Option, none, some, true, false, ◌==◌, Result, ok, err, ◌≡◌, inl, inr,
  refl, ap, ◌∙◌, arith, Bool-cases,
}
use blabby.Text.{Bytes, bytes_eq}
use blabby.Text.Ascii.{bytes_eq_refl}
use blabby.Map.{lookup, insert, has_key, is_some}
use blabby.Map.Laws.{lookup-insert}
use blabby.Domain.User.{pending, is_pending}
use blabby.Pin.{new_pin}
use blabby.Auth.Password.{Crypto}
use blabby.Account.World.{
  User, Account, Verification, Tables, World, Error, Action, ◌>>=◌, pure, read_clock, mint_user_id,
}
use blabby.Account.Users
use blabby.Account.Users.{
  UserCreateParams, Constraint, classify_create_error, conflict, find_user, has_mail, has_code,
  has_handle, insert_user, new_user, arrive, mint_public_code, find_by_email, fresh_challenge,
}
use blabby.Account.Verifications
use blabby.Account.Verifications.{insert_challenge, may_resend, resent, put}
use blabby.Account.Registration.{
  RegistrationPolicy, RegisterParams, draw_number, draw_salt, or_raise, new_hashed_pin, mark_race,
  pending_user, store_challenge, create_pending,
}
use blabby.Account.Triples.{
  Assertion, Post, Post-continue, Triple, Triple-Reads, Triple-statement, read_clock-Reads,
}
use blabby.Account.Kept.{mint_user_id-Reads, mint_public_code-Reads}
use blabby.Account.Transactions.{draw_number-Reads, draw_salt-Reads}

-- No property is asked of the committed tables here.
abbrev pub Any : Tables → Type 0
Any t = Unit

abbrev pub Always : Assertion
Always c t = Unit

pub has_key-insert :
    (i : ℕ) (v : Verification) (m : List (ℕ × Verification)) → lookup i (insert i v m) ≡ some v
has_key-insert i v m = lookup-insert i i v m ∙ ground arith

-- A row that violates no constraint is found by its address once it is inserted.
find_user-insert :
    (i : ℕ) (u : User) (users : List Account)
    → has_key i users ≡ false
    → is_some (find_user (has_mail u.mail_address) users) ≡ false
    → find_user (has_mail u.mail_address) (insert i u users) ≡ some (i, u)
unfolding find_user insert lookup
find_user-insert i u [] fresh alone = rw (bytes_eq_refl u.mail_address) refl
find_user-insert i u ((j, v) ∷ users) fresh alone = elim (Bool-cases (j == i)) [
  | inl same ↦ absurd (ground arith)
  | inr other ↦ elim (Bool-cases (bytes_eq v.mail_address u.mail_address)) [
    | inl taken ↦ absurd (ground arith)
    | inr free ↦ rw (other, free) (find_user-insert i u users (ground arith) (ground arith))
  ]
]

conflict-none :
    (i : ℕ) (u : User) (users : List Account)
    → conflict i u users ≡ none
    → (has_key i users ≡ false) × (is_some (find_user (has_mail u.mail_address) users) ≡ false)
unfolding conflict
conflict-none i u users e = ground arith

module _ (crypto : Crypto) (policy : RegistrationPolicy) where
  -- The hash is bcrypt's of the PIN under some salt.
  abbrev pub Hashed : Bytes → Bytes → Type 0
  Hashed pin hash = (salt : ℕ) × (crypto.generate crypto.default_cost salt pin ≡ some hash)

  -- A challenge for the PIN, with no failed attempt, that expires `pin_ttl` after it was sent.
  abbrev pub Issues : Bytes → ℕ → Tables → Type 0
  Issues pin i t =
      (v : Verification) × (lookup i t.challenges ≡ some v)
      × Hashed pin v.pin_hash
      × (v.attempts ≡ 0)
      × ((sent_at : ℕ) × (v.last_sent_at ≡ some sent_at)
          × (v.expires_at ≡ sent_at + policy.pin_ttl))

  -- The account that the address leads to is pending.
  abbrev pub Pending : Bytes → Account → Tables → Type 0
  Pending mail (i, u) t =
      (find_user (has_mail mail) t.users ≡ some (i, u)) × (is_pending u.status ≡ true)

  -- A PIN with a hash of it.
  abbrev Drawn : Assertion → Bytes × Bytes → Assertion
  Drawn P (pin, hash) c t = Hashed pin hash × P c t

  hashed_pin :
      (P : Assertion) (n salt : ℕ) (hash : Option Bytes)
      → crypto.generate crypto.default_cost salt (new_pin n) ≡ hash
      → Triple Any {A = Bytes × Bytes} P
          (Drawn P)
          (or_raise Error.generate_pin hash >>= λ h. pure (new_pin n, h))
  hashed_pin P n salt none e w p = tt
  hashed_pin P n salt (some hash) e w p = ((salt, e), p)

  new_hashed_pin-Drawn : (P : Assertion) → Triple Any P (Drawn P) (new_hashed_pin crypto policy)
  unfolding new_hashed_pin
  new_hashed_pin-Drawn P =
      Triple-Reads Any P (Drawn P) draw_number _ (λ c t p. tt) draw_number-Reads
        (λ n.
          Triple-Reads Any P (Drawn P) (draw_salt Error.generate_pin) _ (λ c t p. tt)
            (draw_salt-Reads Error.generate_pin)
            (λ salt.
              hashed_pin P n salt (crypto.generate crypto.default_cost salt (new_pin n)) refl))

  pub with_pin :
      {B : Type 0} (P : Assertion) (R : B → Assertion) (f : Bytes × Bytes → Action B)
      → ((pin hash : Bytes) → Hashed pin hash → Triple Any P R (f (pin, hash)))
      → Triple Any P R (new_hashed_pin crypto policy >>= f)
  with_pin P R f h w p =
      Post-continue Any (Drawn P) R f (new_hashed_pin crypto policy w) (new_hashed_pin-Drawn P w p)
        (λ (pin, hash) w (drawn, p). h pin hash drawn w p)

  -- The new account is the one of its address.
  abbrev New : Bytes → Account → Assertion
  New mail account c t = Pending mail account t

  insert_user-New :
      (i : ℕ) (u : User)
      → u.status ≡ pending
      → Triple Any Always (New u.mail_address) (insert_user i u)
  unfolding insert_user
  insert_user-New i u waiting w p = go (conflict i u w.tables.users) refl
    where
      go :
          (o : Option Constraint)
          → conflict i u w.tables.users ≡ o
          → Post Any (New u.mail_address) (elim o [
            | some violated ↦ (err (classify_create_error violated), w)
            | none ↦ (
              ok (i, u),
              record w { tables = record w.tables { users = insert i u w.tables.users } },
            )
          ])
      go (some violated) e = tt
      go none e =
          let (fresh, alone) = conflict-none i u w.tables.users e in
          (find_user-insert i u w.tables.users fresh alone, ap is_pending waiting)

  create-New :
      (params : UserCreateParams)
      → params.status ≡ pending
      → Triple Any Always (New params.mail_address) (Users.create params)
  unfolding Users.create
  create-New params waiting =
      Triple-Reads Any Always _ mint_user_id _ (λ c t p. tt) mint_user_id-Reads
        (λ i.
          Triple-Reads Any Always _ mint_public_code _ (λ c t p. tt) mint_public_code-Reads
            (λ code.
              Triple-statement Any Always _ _ (λ c t p. tt)
                (λ w p. insert_user-New i (new_user code params w.now) waiting (arrive w) tt)))

  mark_race-Post :
      (Q : Account → Assertion) (r : Result Error Account × World)
      → Post Any Q r
      → Post Any Q (mark_race crypto policy r)
  unfolding mark_race
  mark_race-Post Q (ok a, w) h = h
  mark_race-Post Q (err Error.mail_taken, w) h = tt
  mark_race-Post Q (err e, w) h = ground arith

  -- A pending account with a challenge for the PIN.
  abbrev pub Ready : Bytes → Account → Bytes → Tables → Type 0
  Ready mail account pin t = Pending mail account t × Issues pin account.0 t

  insert_challenge-Ready :
      (mail pin hash : Bytes) (account : Account) (sent_at : ℕ)
      → Hashed pin hash
      → Triple Any
          (New mail account)
          (λ _ c t. Ready mail account pin t)
          (insert_challenge account.0 (fresh_challenge hash (sent_at + policy.pin_ttl) sent_at))
  unfolding insert_challenge
  insert_challenge-Ready mail pin hash account sent_at drawn w p =
      elim (Bool-cases (has_key account.0 w.tables.challenges)) [
        | inl taken ↦ rw (taken, Post) tt
        | inr free ↦
            rw (free, Post)
              (
                p,
                (
                  fresh_challenge hash (sent_at + policy.pin_ttl) sent_at,
                  has_key-insert account.0 _ w.tables.challenges,
                  drawn,
                  refl,
                  (sent_at, refl, refl),
                ),
              )
      ]

  abbrev pub ReadyNew : Bytes → Account × Bytes → Assertion
  ReadyNew mail (account, pin) c t = Ready mail account pin t

  store_challenge-Ready :
      (mail pin hash : Bytes) (account : Account)
      → Hashed pin hash
      → Triple Any
          (New mail account)
          (ReadyNew mail)
          (store_challenge crypto policy (pin, hash) account)
  unfolding store_challenge Verifications.create
  store_challenge-Ready mail pin hash account drawn =
      Triple-Reads Any (New mail account) (ReadyNew mail) read_clock _ (λ c t p. tt)
        read_clock-Reads
        (λ now w p.
          Post-continue Any (λ _ c t. Ready mail account pin t) (ReadyNew mail)
            (λ _. pure (account, pin)) _
            (Triple-statement Any (New mail account) (λ _ c t. Ready mail account pin t) _
              (λ c t p. tt) (insert_challenge-Ready mail pin hash account now drawn) w p)
            (λ _ w p. p))

  pub create_pending-Ready :
      (params : RegisterParams) (hash : Bytes)
      → Triple Any Always (ReadyNew params.mail_address) (create_pending crypto policy params hash)
  unfolding create_pending
  create_pending-Ready params hash =
      with_pin Always (ReadyNew params.mail_address) _ (λ pin pin_hash drawn w p.
        Post-continue Any (New params.mail_address) (ReadyNew params.mail_address)
          (store_challenge crypto policy (pin, pin_hash)) _
          (mark_race-Post _ (Users.create (pending_user crypto policy params hash) w)
            (create-New (pending_user crypto policy params hash) refl w tt))
          (λ account. store_challenge-Ready params.mail_address pin pin_hash account drawn))
