-- ===== src/Account/Activation.antt =====
-- On verifications that report success (internal/gateway/verification.go).
use blabby.Prelude.{Option, none, some, Result, ok, err, ◌≡◌, refl, sym, ap, ◌∙◌, subst, arith}
use blabby.Text.{Bytes}
use blabby.Auth.Password.{Crypto}
use blabby.Account.World.{Account, Tables, World, Error, within_tx}
use blabby.Account.Users.{find_user, has_mail, find_one, find_by_email}
use blabby.Account.Registration.{RegistrationPolicy}
use blabby.Account.Verify.{Outcome, verify_op, verify, verify_found, settle}
use blabby.Account.Triples.{statement-cases}
use blabby.Account.Transactions.{find_by_email-Reads}
use blabby.Account.Landing.{within_tx-Landed}
use blabby.Account.Verdicts.{Succeeds, verify_found-Succeeds}

pub find_one-found :
    (o : Option Account) (w : World) (a : Account) → (find_one o w).0 ≡ ok a → o ≡ some a
unfolding find_one
find_one-found none w a e = absurd (ground arith)
find_one-found (some b) w a e = ground arith

pub find_by_email-found :
    (mail : Bytes) (w : World) (a : Account)
    → (find_by_email mail w).0 ≡ ok a
    → find_user (has_mail mail) w.tables.users ≡ some a
unfolding find_by_email
find_by_email-found mail w a =
    statement-cases (λ r. r.0 ≡ ok a → find_user (has_mail mail) w.tables.users ≡ some a)
      (λ w. find_one (find_user (has_mail mail) w.tables.users) w) w
      (λ rest e. absurd (ground arith))
      (λ rest e.
        find_one-found (find_user (has_mail mail) w.tables.users) (record w { faults = rest }) a e)

settle-ok : (r : Result Error Outcome × World) → (settle r).0 ≡ ok tt → r.0 ≡ ok (ok tt)
settle-ok (ok (ok _), w) e = refl
settle-ok (ok (err x), w) e = absurd (ground arith)
settle-ok (err x, w) e = absurd (ground arith)

settle-world : (r : Result Error Outcome × World) → (settle r).1 ≡ r.1
settle-world (ok outcome, w) = refl
settle-world (err e, w) = refl

module _ (crypto : Crypto) (policy : RegistrationPolicy) where
  verify_op-Succeeds :
      (mail pin : Bytes) (w : World)
      → (verify_op crypto policy mail pin w).0 ≡ ok (ok tt)
      → (account : Account) × (find_user (has_mail mail) w.tables.users ≡ some account)
        × Succeeds crypto policy pin account w.tables (verify_op crypto policy mail pin w).1
  unfolding verify_op
  verify_op-Succeeds mail pin w e =
      let r = find_by_email mail w in
      let (account, found, succeeds) = verify_found-Succeeds crypto policy pin r.0 r.1 e in
      (
        account,
        find_by_email-found mail w account found,
        subst (λ t. Succeeds crypto policy pin account t (verify_found crypto policy pin r.0 r.1).1)
            (find_by_email-Reads mail w).1 succeeds,
      )

  -- A success speaks of the tables and of the time alone.
  later :
      (pin : Bytes) (account : Account) (t : Tables) (w w' : World)
      → w'.tables ≡ w.tables
      → w'.now ≡ w.now
      → Succeeds crypto policy pin account t w
      → Succeeds crypto policy pin account t w'
  later pin account t w w' same now succeeds = rw (same, now) succeeds

-- A verification that reports success: the address is that of a pending account, whose challenge has
-- attempts left, has not expired, and accepts the PIN; the account is then active, its challenge is
-- gone, no other row has changed, and all of this is committed.
pub verify_activates :
    (crypto : Crypto) (policy : RegistrationPolicy) (mail pin : Bytes) (w : World)
    → (verify crypto policy mail pin w).0 ≡ ok tt
    → (account : Account) × (find_user (has_mail mail) w.tables.users ≡ some account)
      × Succeeds crypto policy pin account w.tables (verify crypto policy mail pin w).1
      × ((verify crypto policy mail pin w).1.committed ≡ (verify crypto policy mail pin w).1.tables)
unfolding verify
verify_activates crypto policy mail pin w e =
    let r = within_tx (verify_op crypto policy mail pin) w in
    let (w', (c, t), run, c', t', n) =
      within_tx-Landed (verify_op crypto policy mail pin) w (ok tt) (settle-ok r e) in
    let (account, found, succeeds) = verify_op-Succeeds crypto policy mail pin w' run in
    let body = (verify_op crypto policy mail pin w').1 in
    rw (settle-world r) (
      account,
      ap (λ t. find_user (has_mail mail) t.users) (sym t) ∙ found,
      subst (λ t. Succeeds crypto policy pin account t r.1) t
          (later crypto policy pin account w'.tables body r.1 t' n succeeds),
      c' ∙ sym t',
    )
