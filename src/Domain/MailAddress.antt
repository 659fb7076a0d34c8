-- ===== src/Domain/MailAddress.antt =====
-- internal/domain/mail_address.go: mail addresses, an ASCII subset of RFC 5321.
use blabby.Prelude.{
  ℕ, List, [], ◌∷◌, Option, none, some, Bool, true, false, not, ◌||◌, ◌&&◌, ◌==◌, ltb, length,
  if◌then◌else◌,
}
use blabby.Text.{Bytes, codes, trim_space, to_lower, within}
use blabby.Domain.Refs.{is_blank}

abbrev pub max_mail_address_bytes : ℕ
max_mail_address_bytes = 254

abbrev max_mail_local_part_bytes : ℕ
max_mail_local_part_bytes = 64

abbrev max_mail_domain_label_bytes : ℕ
max_mail_domain_label_bytes = 63

abbrev push : ℕ → List Bytes → List Bytes
push b [] = (b ∷ []) ∷ []
push b (part ∷ parts) = (b ∷ part) ∷ parts

-- `strings.Split` at one byte
unfoldable pub split_on : ℕ → Bytes → List Bytes
split_on sep [] = [] ∷ []
split_on sep (b ∷ s) = let parts = split_on sep s in if b == sep then [] ∷ parts else push b parts

unfoldable pub contains : ℕ → Bytes → Bool
contains b [] = false
contains b (c ∷ s) = c == b || contains b s

-- What stands before and after the last '@', by `strings.LastIndexByte`.
unfoldable pub split_last_at : Bytes → Option (Bytes × Bytes)
unfolding contains
split_last_at [] = none
split_last_at (b ∷ s) = elim (split_last_at s) [
  | some (before, after) ↦ some (b ∷ before, after)
  | none ↦ if b == b'@' then some ([], s) else none
]

abbrev is_alphanumeric : ℕ → Bool
is_alphanumeric b = within b'A' b'Z' b || (within b'a' b'z' b || within b'0' b'9' b)

-- `isMailAtext`
unfoldable pub is_mail_atext : ℕ → Bool
unfolding contains
is_mail_atext b = is_alphanumeric b || contains b (codes "!#$%&'*+-/=?^_`{|}~")

unfoldable pub all_bytes : (ℕ → Bool) → Bytes → Bool
all_bytes p [] = true
all_bytes p (b ∷ s) = p b && all_bytes p s

unfoldable pub are_atoms : List Bytes → Bool
unfolding all_bytes is_mail_atext
are_atoms [] = true
are_atoms (atom ∷ atoms) = (not (is_blank atom) && all_bytes is_mail_atext atom) && are_atoms atoms

-- `isValidMailLocalPart`
unfoldable pub is_valid_mail_local_part : Bytes → Bool
unfolding are_atoms split_on
is_valid_mail_local_part s =
    if is_blank s || ltb max_mail_local_part_bytes (length s)
    then false
    else are_atoms (split_on b'.' s)

-- The bytes of a label from its first on, or from a later one.
unfoldable pub are_label_bytes : Bool → Bytes → Bool
are_label_bytes first [] = true
are_label_bytes first (b ∷ []) = is_alphanumeric b
are_label_bytes first (b ∷ c ∷ s) =
    let rest = are_label_bytes false (c ∷ s) in
    (is_alphanumeric b || (b == b'-' && not first)) && rest

unfoldable pub are_labels : List Bytes → Bool
unfolding are_label_bytes
are_labels [] = true
are_labels (label ∷ labels) =
    (not (is_blank label || ltb max_mail_domain_label_bytes (length label))
      && are_label_bytes true label)
    && are_labels labels

-- `isValidMailDomain`
unfoldable pub is_valid_mail_domain : Bytes → Bool
unfolding are_labels split_on
is_valid_mail_domain s = if is_blank s then false else are_labels (split_on b'.' s)

abbrev is_valid_address : Option (Bytes × Bytes) → Bool
is_valid_address none = false
is_valid_address (some (local, domain)) =
    is_valid_mail_local_part local && is_valid_mail_domain domain

-- `NewMailAddress`; `none` is its one error, and the value is the normalized address.
unfoldable pub new_mail_address : (Bytes → Bytes) → Bytes → Option Bytes
unfolding split_last_at is_valid_mail_local_part is_valid_mail_domain
new_mail_address nfc raw =
    let trimmed = trim_space (nfc raw) in
    if is_blank trimmed || ltb max_mail_address_bytes (length trimmed)
    then none
    else if is_valid_address (split_last_at trimmed)
    then some (to_lower trimmed)
    else none
