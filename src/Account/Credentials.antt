-- ===== src/Account/Credentials.antt =====
-- On accepted credentials and resolved token subjects (internal/gateway/user_directory.go).
use blabby.Prelude.{
  ℕ, List, ◌∷◌, Option, none, some, Bool, true, false, Result, ok, err, ◌≡◌, ◌⊎◌, refl, ◌∙◌, arith,
  Bool-cases, inl, inr,
}
use blabby.Text.{Bytes}
use blabby.Domain.User.{UserStatus, pending, active, disabled}
use blabby.Domain.MailAddress.{new_mail_address}
use blabby.Auth.Password.{Crypto, verify_password}
use blabby.Account.World.{Account, User, World, Error, continue, pure}
use blabby.Account.Users.{
  find_user, has_mail, has_code, find_one, find_by_email, resolve_by_public_code,
}
use blabby.Account.Triples.{statement-cases, statement-split}
use blabby.Account.Directory.{
  VerifiedUser, AuthError, admit_status, verify_found, verify_address, verify_credentials,
  resolve_user_id, resolved,
}

-- The next statement is due to fail.
abbrev pub StatementFails : World → Type 0
StatementFails w = (rest : List Bool) × (w.faults ≡ true ∷ rest)

-- What each outcome of the lookup by address says.
abbrev Looked : Bytes → World → Result Error Account → Type 0
Looked addr w (ok a) = find_user (has_mail addr) w.tables.users ≡ some a
Looked addr w (err Error.user_not_found) = find_user (has_mail addr) w.tables.users ≡ none
Looked addr w (err Error.database) = StatementFails w
Looked addr w (err e) = ⊥

find_one-Looked :
    (addr : Bytes) (w w' : World) (o : Option Account)
    → find_user (has_mail addr) w.tables.users ≡ o
    → Looked addr w (find_one o w').0
unfolding find_one
find_one-Looked addr w w' none at = at
find_one-Looked addr w w' (some a) at = at

find_by_email-Looked : (addr : Bytes) (w : World) → Looked addr w (find_by_email addr w).0
unfolding find_by_email
find_by_email-Looked addr w =
    statement-split (λ r. Looked addr w r.0)
      (λ w. find_one (find_user (has_mail addr) w.tables.users) w) w (λ rest e. (rest, e))
      (λ rest.
        find_one-Looked addr w (record w { faults = rest })
          (find_user (has_mail addr) w.tables.users) refl)

module _ (crypto : Crypto) where
  -- The account of the address, whose password it is, has the status.
  abbrev Owns : Bytes → Bytes → World → UserStatus → Account → Type 0
  Owns addr password w status (i, u) =
      (find_user (has_mail addr) w.tables.users ≡ some (i, u))
      × (verify_password crypto u.password_hash password ≡ true)
      × (u.status ≡ status)

  -- Nobody has the address; or the password is wrong; or it is right for an account that is disabled.
  abbrev Refused : Bytes → Bytes → World → Type 0
  Refused addr password w =
      (find_user (has_mail addr) w.tables.users ≡ none)
      ⊎ ((account : Account) × (find_user (has_mail addr) w.tables.users ≡ some account)
          × ((verify_password crypto account.1.password_hash password ≡ false)
              ⊎ Owns addr password w disabled account))

  -- What each answer to a login says of the account, and of the database.
  abbrev pub Justified : Bytes → Bytes → World → Result AuthError VerifiedUser → Type 0
  Justified addr password w (ok v) =
      (u : User) × Owns addr password w active (v.user_id, u) × (v.public_code ≡ u.public_code)
  Justified addr password w (err AuthError.account_pending) =
      (account : Account) × Owns addr password w pending account
  Justified addr password w (err AuthError.invalid_credentials) = Refused addr password w
  Justified addr password w (err AuthError.backend) = StatementFails w
  Justified addr password w (err AuthError.public_code_unknown) = ⊥

  admitted :
      (addr password : Bytes) (w w' : World) (i : ℕ) (u : User) (status : UserStatus)
      → find_user (has_mail addr) w.tables.users ≡ some (i, u)
      → verify_password crypto u.password_hash password ≡ true
      → u.status ≡ status
      → Justified addr password w (admit_status crypto password (i, u) status w').0
  unfolding admit_status
  admitted addr password w w' i u pending found right e = ((i, u), (found, right, e))
  admitted addr password w w' i u active found right e = (u, (found, right, e), refl)
  admitted addr password w w' i u disabled found right e =
      inr ((i, u), found, inr (found, right, e))

  found-Justified :
      (addr password : Bytes) (w w' : World) (found : Result Error Account)
      → Looked addr w found
      → Justified addr password w (verify_found crypto password found w').0
  unfolding verify_found
  found-Justified addr password w w' (ok (i, u)) at =
      elim (Bool-cases (verify_password crypto u.password_hash password)) [
        | inl right ↦ rw right (admitted addr password w w' i u u.status at right refl)
        | inr wrong ↦ rw wrong (inr ((i, u), at, inl wrong))
      ]
  found-Justified addr password w w' (err Error.user_not_found) at = inl at
  found-Justified addr password w w' (err Error.database) at = at
  found-Justified addr password w w' (err e) at = absurd at

-- What any answer to a login rests on.
abbrev pub JustifiedLogin :
    Crypto → Bytes → Option Bytes → World → Result AuthError VerifiedUser → Type 0
JustifiedLogin crypto password none w r = r ≡ err AuthError.invalid_credentials
JustifiedLogin crypto password (some addr) w r = Justified crypto addr password w r

address-JustifiedLogin :
    (crypto : Crypto) (password : Bytes) (addr : Option Bytes) (w : World)
    → JustifiedLogin crypto password addr w (verify_address crypto password addr w).0
unfolding verify_address
address-JustifiedLogin crypto password none w = refl
address-JustifiedLogin crypto password (some addr) w =
    found-Justified crypto addr password w (find_by_email addr w).1 (find_by_email addr w).0
      (find_by_email-Looked addr w)

-- What each answer to a login means. Success: the address is that of an active account whose stored hash
-- accepts the password, and the answer has its id and code. A pending account: the same of one that is
-- pending. Invalid credentials: the address is malformed, or nobody has it, or the hash of its account
-- does not accept the password, or it does and the account is disabled. Any other error: the lookup's
-- statement failed.
pub verify_credentials-JustifiedLogin :
    (crypto : Crypto) (mail_address password : Bytes) (w : World)
    → JustifiedLogin crypto password
        (new_mail_address crypto.nfc mail_address)
        w
        (verify_credentials crypto mail_address password w).0
unfolding verify_credentials
verify_credentials-JustifiedLogin crypto mail_address password w =
    address-JustifiedLogin crypto password (new_mail_address crypto.nfc mail_address) w

-- The account of which `r` gives the id.
abbrev Identified : Bytes → World → ℕ → Result Error Account × World → Type 0
Identified code w i r =
    resolved (continue r.0 (λ (j, u). pure j) r.1).0 ≡ ok i
    → (u : User) × (find_user (has_code code) w.tables.users ≡ some (i, u))

find_one-Identified :
    (code : Bytes) (w w' : World) (i : ℕ) (o : Option Account)
    → find_user (has_code code) w.tables.users ≡ o
    → Identified code w i (find_one o w')
unfolding find_one
find_one-Identified code w w' i none at e = absurd (ground arith)
find_one-Identified code w w' i (some (j, u)) at e = (u, at ∙ cc)

-- A code resolves to the account that carries it.
pub resolve_user_id-found :
    (code : Bytes) (w : World) (i : ℕ)
    → (resolve_user_id code w).0 ≡ ok i
    → (u : User) × (find_user (has_code code) w.tables.users ≡ some (i, u))
unfolding resolve_user_id resolve_by_public_code
resolve_user_id-found code w i =
    statement-cases (Identified code w i)
      (λ w. find_one (find_user (has_code code) w.tables.users) w) w
      (λ rest e. absurd (ground arith))
      (λ rest.
        find_one-Identified code w (record w { faults = rest }) i
          (find_user (has_code code) w.tables.users) refl)
