-- ===== src/Auth/Password.antt =====
-- internal/auth/password.go: how passwords are hashed and checked. The library functions that it calls
-- are the fields of `Crypto`.
use blabby.Prelude.{ℕ, Option, none, some, Bool, false, ltb, length, not}
use blabby.Text.{Bytes}

-- `nfc` is `norm.NFC.String`, `digest` the base64 text of `sha256.Sum256`; the rest is bcrypt:
-- `generate` of a cost, a salt and a secret, `compare` of a hash and a secret, `cost` of a hash, and its default.
pub record Crypto : Type 0 where
  pub nfc : Bytes → Bytes
  pub digest : Bytes → Bytes
  pub generate : ℕ → ℕ → Bytes → Option Bytes
  pub compare : Bytes → Bytes → Bool
  pub cost : Bytes → Option ℕ
  pub default_cost : ℕ

abbrev pub password_target_cost : ℕ
password_target_cost = 12

abbrev pub min_password_len : ℕ
min_password_len = 12

module _ (crypto : Crypto) where
  -- `ValidatePasswordStrength`: whether it returns nil
  unfoldable pub validate_password_strength : Bytes → Bool
  validate_password_strength plain = not (ltb (length (crypto.nfc plain)) min_password_len)

  -- `prehash`
  unfoldable pub prehash : Bytes → Bytes
  prehash plain = crypto.digest (crypto.nfc plain)

  -- `HashPassword` with the salt that bcrypt draws
  unfoldable pub hash_password : ℕ → Bytes → Option Bytes
  unfolding prehash
  hash_password salt plain = crypto.generate password_target_cost salt (prehash plain)

  -- `VerifyPassword`: whether it returns nil
  unfoldable pub verify_password : Bytes → Bytes → Bool
  unfolding prehash
  verify_password hash plain = crypto.compare hash (prehash plain)

  -- `PasswordNeedsRehash`
  unfoldable pub password_needs_rehash : Bytes → Bool
  password_needs_rehash hash = below (crypto.cost hash)
    where
      below : Option ℕ → Bool
      below none = false
      below (some cost) = ltb cost password_target_cost
