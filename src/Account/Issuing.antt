-- ===== src/Account/Issuing.antt =====
-- On the PIN that the transaction of a registration returns, and the hash that it stores.
use blabby.Prelude.{
  ℕ, ◌+◌, Option, none, some, Result, ok, err, ◌≡◌, inl, inr, refl, ap, ◌∙◌, arith, Bool-cases,
  Option-cases,
}
use blabby.Text.{Bytes}
use blabby.Map.{lookup}
use blabby.Domain.User.{is_pending}
use blabby.PublicCode.{format_user}
use blabby.Auth.Password.{Crypto, hash_password}
use blabby.Account.World.{Account, Tables, Delivery, World, Error, ◌>>=◌, pure, read_clock}
use blabby.Account.Users.{find_user, has_mail, find_by_email}
use blabby.Account.Verifications
use blabby.Account.Verifications.{may_resend, resent, put}
use blabby.Account.Registration.{
  RegistrationPolicy, RegisterParams, draw_salt, or_raise, replace_challenge, resend_pending,
  register_again, register_hashed, register_new, register_found, register_op,
}
use blabby.Account.Triples.{
  Assertion, Post, Post-continue, Triple, Triple-Reads, Triple-statement, read_clock-Reads,
}
use blabby.Account.Transactions.{draw_salt-Reads, find_by_email-Reads}
use blabby.Account.Activation.{find_by_email-found}
use blabby.Account.Issued.{
  Any, Always, has_key-insert, Hashed, Pending, Ready, ReadyNew, with_pin, create_pending-Ready,
}

module _ (crypto : Crypto) (policy : RegistrationPolicy) where
  abbrev Waiting : Bytes → Account → Assertion
  Waiting mail account c t = Pending crypto policy mail account t

  resend-Ready :
      (mail pin hash : Bytes) (account : Account) (sent_at : ℕ)
      (limits : Verifications.ResendPolicy)
      → Hashed crypto policy pin hash
      → Triple Any
          (Waiting mail account)
          (λ _ c t. Ready crypto policy mail account pin t)
          (Verifications.resend
            (record {
              user_id = account.0;
              pin_hash = hash;
              expires_at = sent_at + policy.pin_ttl;
              sent_at = sent_at;
            })
            limits)
  unfolding Verifications.resend
  resend-Ready mail pin hash account sent_at limits drawn =
      Triple-statement Any (Waiting mail account) _ _ (λ c t p. tt)
        (λ w p. elim (Option-cases (lookup account.0 w.tables.challenges)) [
          | inl gone ↦ rw (gone, Post) tt
          | inr (v, e) ↦ elim (Bool-cases (may_resend limits v)) [
            | inl allowed ↦
                rw (e, allowed, Post)
                  (
                    p,
                    (
                      resent
                          (record {
                            user_id = account.0;
                            pin_hash = hash;
                            expires_at = sent_at + policy.pin_ttl;
                            sent_at = sent_at;
                          })
                          v,
                      has_key-insert account.0 _ w.tables.challenges,
                      drawn,
                      refl,
                      (sent_at, refl, refl),
                    ),
                  )
            | inr limited ↦ rw (e, limited, Post) tt
          ]
        ])

  abbrev ReadyAgain : Bytes → Account → Bytes → Assertion
  ReadyAgain mail account pin c t = Ready crypto policy mail account pin t

  replace_challenge-Ready :
      (mail pin hash : Bytes) (account : Account)
      → Hashed crypto policy pin hash
      → Triple Any
          (Waiting mail account)
          (ReadyAgain mail account)
          (replace_challenge crypto policy account.0 (pin, hash))
  unfolding replace_challenge
  replace_challenge-Ready mail pin hash account drawn =
      Triple-Reads Any (Waiting mail account) (ReadyAgain mail account) read_clock _ (λ c t p. tt)
        read_clock-Reads
        (λ now w p.
          Post-continue Any (λ _. ReadyAgain mail account pin) (ReadyAgain mail account)
            (λ _. pure pin) _ (resend-Ready mail pin hash account now _ drawn w p) (λ _ w p. p))

  resend_pending-Ready :
      (mail : Bytes) (account : Account)
      → Triple Any
          (Waiting mail account)
          (ReadyAgain mail account)
          (resend_pending crypto policy account.0)
  unfolding resend_pending
  resend_pending-Ready mail account =
      with_pin crypto policy (Waiting mail account) (ReadyAgain mail account) _
        (λ pin hash drawn. replace_challenge-Ready mail pin hash account drawn)

  -- What a registration returns, and the account that it leaves for the PIN.
  abbrev pub Delivers : Bytes → Bytes × Option Delivery → Tables → Type 0
  Delivers mail (code, none) t = ⊥
  Delivers mail (code, some d) t =
      (d.to ≡ mail)
      × ((account : Account) × (code ≡ format_user account.1.public_code)
          × Ready crypto policy mail account d.pin t)

  abbrev pub Registered : Bytes → Bytes × Option Delivery → Assertion
  Registered mail answer c t = Delivers mail answer t

  register_again-Delivers :
      (params : RegisterParams) (account : Account) (w : World)
      → find_user (has_mail params.mail_address) w.tables.users ≡ some account
      → Post Any (Registered params.mail_address) (register_again crypto policy params account w)
  unfolding register_again
  register_again-Delivers params (i, u) w found = elim (Bool-cases (is_pending u.status)) [
    | inr settled ↦ rw settled tt
    | inl waiting ↦ rw waiting (
        Post-continue Any (ReadyAgain params.mail_address (i, u)) (Registered params.mail_address) _
          _ (resend_pending-Ready params.mail_address (i, u) w (found, waiting))
          (λ pin w ready. (refl, ((i, u), refl, ready))))
  ]

  register_hashed-Delivers :
      (params : RegisterParams) (hash : Bytes)
      → Triple Any Always
          (Registered params.mail_address)
          (register_hashed crypto policy params hash)
  unfolding register_hashed
  register_hashed-Delivers params hash w p =
      Post-continue Any (ReadyNew crypto policy params.mail_address)
        (Registered params.mail_address) _ _ (create_pending-Ready crypto policy params hash w tt)
        (λ (account, pin) w ready. (refl, (account, refl, ready)))

  register_salted-Delivers :
      (params : RegisterParams) (hash : Option Bytes)
      → Triple Any Always
          (Registered params.mail_address)
          (or_raise Error.hash_password hash >>= register_hashed crypto policy params)
  register_salted-Delivers params none w p = tt
  register_salted-Delivers params (some hash) w p = register_hashed-Delivers params hash w tt

  register_new-Delivers :
      (params : RegisterParams)
      → Triple Any Always (Registered params.mail_address) (register_new crypto policy params)
  unfolding register_new
  register_new-Delivers params =
      Triple-Reads Any Always (Registered params.mail_address) (draw_salt Error.hash_password) _
        (λ c t p. tt) (draw_salt-Reads Error.hash_password)
        (λ salt. register_salted-Delivers params (hash_password crypto salt params.password))

  register_found-Delivers :
      (params : RegisterParams) (found : Result Error Account) (w : World)
      → ((a : Account)
          → found ≡ ok a
          → find_user (has_mail params.mail_address) w.tables.users ≡ some a)
      → Post Any (Registered params.mail_address) (register_found crypto policy params found w)
  unfolding register_found
  register_found-Delivers params (ok account) w at =
      register_again-Delivers params account w (at account refl)
  register_found-Delivers params (err Error.user_not_found) w at = register_new-Delivers params w tt
  register_found-Delivers params (err e) w at = ground arith

  pub register_op-Delivers :
      (params : RegisterParams) (w : World)
      → Post Any (Registered params.mail_address) (register_op crypto policy params w)
  unfolding register_op
  register_op-Delivers params w =
      let r = find_by_email params.mail_address w in
      register_found-Delivers params r.0 r.1 (λ a e.
        ap (λ t. find_user (has_mail params.mail_address) t.users)
          (find_by_email-Reads params.mail_address w).1
        ∙ find_by_email-found params.mail_address w a e)
