-- ===== src/Account/Examples.antt =====
-- The theorems on accounts at Ann, who registers with a PIN and submits it.
use blabby.Prelude.{
  Bool-cases, inl, inr, ◌==◌, ◌<◌, subst, ℕ, ◌+◌, ◌*◌, ◌^◌, ◌-◌, [], ◌∷◌, Option, none, some, Bool,
  true, false, if◌then◌else◌, ok, ◌≡◌, refl, pos, arith,
}
use blabby.Text.{Bytes, codes, bytes_eq}
use blabby.Map.{lookup}
use blabby.Text.Ascii.{bytes_eq_refl}
use blabby.Pin.{parse_pin}
use blabby.PublicCode.{format_user}
use blabby.Domain.User.{UserStatus}
use blabby.Domain.MailAddress.{new_mail_address}
use blabby.Auth.Password.{Crypto}
use blabby.Account.World.{User, Account, Verification, Tables, World, Action, mail_race, raise}
use blabby.Account.Users.{find_user, has_mail}
use blabby.Account.Registration.{
  RegistrationPolicy, RegisterParams, default_registration_policy, register,
  run_with_registration_retry,
}
use blabby.Account.Verify.{verify}
use blabby.Account.Sweep.{sweep}
use blabby.Account.Directory.{verify_credentials}
use blabby.Account.Sound.{IsSound, Within}
use blabby.Account.System.{
  Reaches, done, further, registers, verifies, sweeps, no_tables, reached-IsSound,
}
use blabby.Account.Verdicts.{Succeeds}
use blabby.Account.Activation.{verify_activates}
use blabby.Account.Issued.{Ready}
use blabby.Account.Acceptance.{calm, verify-Ready}
use blabby.Account.Delivered.{Sent, register-Sent}
use blabby.Account.Sweeping.{Sweeps, sweep-Sweeps}
use blabby.Account.Retries.{Retried, run_with_registration_retry-Retried}
use blabby.Account.Credentials.{JustifiedLogin, verify_credentials-JustifiedLogin}

-- A hash is its salt and the secret.
abbrev matches : Bytes → Bytes → Bool
matches [] secret = false
matches (salt ∷ hash) secret = bytes_eq hash secret

abbrev crypto : Crypto
crypto = record {
  nfc = λ s. s;
  digest = λ s. s;
  generate = λ cost salt secret. some (salt ∷ secret);
  compare = matches;
  cost = λ hash. some 12;
  default_cost = 10;
}

abbrev policy : RegistrationPolicy
policy = default_registration_policy

abbrev ann : RegisterParams
ann = record {
  mail_address = codes "ann@example.com";
  handle = codes "ann";
  password = codes "secret";
}

abbrev start : World
start = record {
  now = 10 ^ 18;
  committed = no_tables;
  tables = no_tables;
  ticks = [];
  faults = [];
  mints = some (pos 7) ∷ [];
  code_bytes = some (0 ∷ 1 ∷ 2 ∷ 3 ∷ 4 ∷ 5 ∷ 6 ∷ 7 ∷ 8 ∷ 9 ∷ []) ∷ [];
  draws = some 123456 ∷ [];
  salts = some 1 ∷ some 2 ∷ [];
  arrivals = [];
  rivals = [];
  outbox = [];
}

abbrev code : Bytes
code = codes "U0123456789"

registered : (register crypto policy ann start).0 ≡ ok code
unfolding blabby.Id.new_id blabby.PublicCode.crockford_symbol blabby.PublicCode.format_user
    blabby.Auth.Password.hash_password blabby.Account.Registration.register
registered = refl

register-Sent_example :
    Sent crypto policy (codes "ann@example.com") code (register crypto policy ann start).1
register-Sent_example = register-Sent crypto policy ann start code registered

-- Ann as the registration leaves her.
abbrev ann_row : User
ann_row = record {
  public_code = codes "0123456789";
  mail_address = codes "ann@example.com";
  handle = codes "ann";
  display_name = codes "ann";
  password_hash = 1 ∷ codes "secret";
  status = UserStatus.pending;
  created_at = 100;
  updated_at = 100;
}

abbrev challenge : Verification
challenge = record {
  pin_hash = 2 ∷ codes "123456";
  expires_at = 100 + 10 * 60 * 10 ^ 9;
  attempts = 0;
  resend_count = 0;
  last_sent_at = some 100;
}

abbrev tables : Tables
tables = record { users = (7, ann_row) ∷ []; challenges = (7, challenge) ∷ [] }

abbrev later : ℕ → World
later now = record start { now = now; committed = tables; tables = tables }

verified : (verify crypto policy (codes "ann@example.com") (codes "123456") (later 200)).0 ≡ ok tt
unfolding blabby.Pin.is_digit blabby.Pin.validate_pin_digits blabby.Pin.parse_pin
    blabby.Account.Verify.verify blabby.Text.decode_rune blabby.Text.runes_from blabby.Text.is_space
    blabby.Text.trim_space blabby.Text.bytes_eq blabby.Text.Charset.all_test
verified = refl

verify_activates_example :
    (account : Account) × (find_user (has_mail (codes "ann@example.com")) tables.users
      ≡ some account)
    × Succeeds crypto policy
        (codes "123456")
        account
        tables
        (verify crypto policy (codes "ann@example.com") (codes "123456") (later 200)).1
    × ((verify crypto policy (codes "ann@example.com") (codes "123456") (later 200)).1.committed
        ≡ (verify crypto policy (codes "ann@example.com") (codes "123456") (later 200)).1.tables)
verify_activates_example =
    verify_activates crypto policy (codes "ann@example.com") (codes "123456") (later 200) verified

swept : (sweep 100 true (10 ^ 12) (later (10 ^ 12))).0 ≡ ok 1
unfolding blabby.Account.Sweep.sweep
swept = refl

sweep-Sweeps_example :
    Sweeps true (10 ^ 12 - 100) 1 tables (sweep 100 true (10 ^ 12) (later (10 ^ 12))).1.committed
unfolding lookup
sweep-Sweeps_example = sweep-Sweeps 100 true (10 ^ 12) (later (10 ^ 12)) 1 (refl, tt) swept

-- Ann registers, fails once, and is swept.
abbrev one : World
one = (register crypto policy ann start).1

abbrev two : World
two = (verify crypto policy (codes "ann@example.com") (codes "000000") one).1

history : Reaches crypto policy 100 start (sweep 100 true (2 * 10 ^ 18) two).1
history = further start one (sweep 100 true (2 * 10 ^ 18) two).1 (registers start ann) (
    further one two (sweep 100 true (2 * 10 ^ 18) two).1
      (verifies one (codes "ann@example.com") (codes "000000"))
      (further two (sweep 100 true (2 * 10 ^ 18) two).1 (sweep 100 true (2 * 10 ^ 18) two).1
        (sweeps two true (2 * 10 ^ 18)) (done (sweep 100 true (2 * 10 ^ 18) two).1)))

reached-IsSound_example : IsSound 5 (sweep 100 true (2 * 10 ^ 18) two).1.committed
reached-IsSound_example =
    reached-IsSound crypto policy 100 start (sweep 100 true (2 * 10 ^ 18) two).1 refl refl history

abbrev racing : Action ℕ
racing = raise mail_race

run_with_registration_retry-Retried_example :
    Retried racing 1 3 start (run_with_registration_retry 3 racing start)
run_with_registration_retry-Retried_example = run_with_registration_retry-Retried 3 racing start

verify_credentials-JustifiedLogin_example :
    JustifiedLogin crypto
      (codes "secret")
      (new_mail_address (λ s. s) (codes " Ann@example.com"))
      (later 200)
      (verify_credentials crypto (codes " Ann@example.com") (codes "secret") (later 200)).0
verify_credentials-JustifiedLogin_example =
    verify_credentials-JustifiedLogin crypto (codes " Ann@example.com") (codes "secret") (later 200)

at_ann :
    {A : Type 0} (P : Option A → Type 0) (a : A) (i : ℕ)
    → P (some a)
    → P none
    → P (if 7 == i then some a else none)
at_ann P a i here gone = elim (Bool-cases (7 == i)) [
  | inl same ↦ rw same here
  | inr other ↦ rw other gone
]

tables-IsSound : IsSound 5 tables
unfolding lookup
tables-IsSound = record {
  distinct = (refl, tt);
  paired = λ i. elim (Bool-cases (7 == i)) [ inl same ↦ rw same refl | inr other ↦ rw other refl ];
  bounded = λ i v.
      at_ann (λ o. o ≡ some v → Within 5 v) challenge i (λ e. small v e)
        (λ e. absurd (ground arith));
}
  where
    small :
        (v : Verification) → ◌≡◌ {A = Option Verification} (some challenge) (some v) → Within 5 v
    small v e = let eq : challenge ≡ v = ground arith in subst (Within 5) eq (omega arith)

matches-generate :
    (salt : ℕ) (secret hash : Bytes)
    → crypto.generate 10 salt secret ≡ some hash
    → crypto.compare hash secret ≡ true
matches-generate salt secret [] e = absurd (ground arith)
matches-generate salt secret (b ∷ hash) e =
    subst (λ h. bytes_eq h secret ≡ true) (ground arith) (bytes_eq_refl secret)

canonical : parse_pin (codes "123456") ≡ ok (codes "123456")
unfolding blabby.Pin.is_digit blabby.Pin.validate_pin_digits blabby.Pin.parse_pin
    blabby.Text.decode_rune blabby.Text.runes_from blabby.Text.is_space blabby.Text.trim_space
    blabby.Text.Charset.all_test
canonical = refl

ann-Ready : Ready crypto policy (codes "ann@example.com") (7, ann_row) (codes "123456") tables
unfolding blabby.Account.Directory.verify_credentials blabby.Text.bytes_eq
ann-Ready = ((refl, refl), (challenge, refl, (2, refl), refl, (100, refl, refl)))

in_time : (v : Verification) → lookup 7 tables.challenges ≡ some v → 200 < v.expires_at
unfolding lookup
in_time v e =
    let eq : challenge ≡ v = ground arith in
    subst {A = Verification} (λ v. 200 < v.expires_at) eq (omega arith)

verify-Ready_example :
    (verify crypto policy (codes "ann@example.com") (codes "123456") (calm (later 200))).0 ≡ ok tt
verify-Ready_example =
    verify-Ready crypto policy (codes "ann@example.com") (codes "123456") (7, ann_row) (later 200)
      tables-IsSound matches-generate (omega arith) canonical ann-Ready in_time
