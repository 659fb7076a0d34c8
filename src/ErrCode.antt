-- ===== src/ErrCode.antt =====
-- internal/errcode/errcode.go: the taxonomy of error codes and their status strings. The recognised
-- values of `Code` are the constructors of a data type; a raw int32 is an integer.
mod Examples
use blabby.Prelude.{
  ℕ, List, [], ◌∷◌, Option, none, some, String, str_eq, eq_iff, Result, ok, err, Bool, true, ◌==◌,
  if◌then◌else◌, ◌≡◌, ◌↔◌, arith, refl, ap, sym, ◌∙◌, ℤ, pos, negsuc, ==_iff, Bool-cases, inl, inr,
}

pub data Code : Type 0 where
  auth_invalid_token auth_expired_token auth_missing_token auth_account_pending room_not_member
        room_already_member room_not_found room_owner_cannot_leave room_permission_denied
        rate_limit_exceeded verification_rate_limited invalid_request missing_field
        payload_too_large invalid_email weak_password internal_error service_unavailable
        email_already_registered handle_already_taken verification_invalid :
      Code

pub data ParseError : Type 0 where
  unknown_code status_mismatch : ParseError

-- `Int32`
abbrev pub number : Code → ℕ
number auth_invalid_token = 1001
number auth_expired_token = 1002
number auth_missing_token = 1003
number auth_account_pending = 1004
number room_not_member = 2001
number room_already_member = 2002
number room_not_found = 2003
number room_owner_cannot_leave = 2004
number room_permission_denied = 2005
number rate_limit_exceeded = 3001
number verification_rate_limited = 3002
number invalid_request = 4001
number missing_field = 4002
number payload_too_large = 4003
number invalid_email = 4004
number weak_password = 4005
number internal_error = 5001
number service_unavailable = 5002
number email_already_registered = 6001
number handle_already_taken = 6002
number verification_invalid = 6003

-- The canonical status string of a recognised code.
abbrev pub status_of : Code → String
status_of auth_invalid_token = "AUTH_INVALID_TOKEN"
status_of auth_expired_token = "AUTH_EXPIRED_TOKEN"
status_of auth_missing_token = "AUTH_MISSING_TOKEN"
status_of auth_account_pending = "AUTH_ACCOUNT_PENDING"
status_of room_not_member = "ROOM_NOT_MEMBER"
status_of room_already_member = "ROOM_ALREADY_MEMBER"
status_of room_not_found = "ROOM_NOT_FOUND"
status_of room_owner_cannot_leave = "ROOM_OWNER_CANNOT_LEAVE"
status_of room_permission_denied = "ROOM_PERMISSION_DENIED"
status_of rate_limit_exceeded = "RATE_LIMIT_EXCEEDED"
status_of verification_rate_limited = "VERIFICATION_RATE_LIMITED"
status_of invalid_request = "INVALID_REQUEST"
status_of missing_field = "MISSING_FIELD"
status_of payload_too_large = "PAYLOAD_TOO_LARGE"
status_of invalid_email = "INVALID_EMAIL"
status_of weak_password = "WEAK_PASSWORD"
status_of internal_error = "INTERNAL_ERROR"
status_of service_unavailable = "SERVICE_UNAVAILABLE"
status_of email_already_registered = "EMAIL_ALREADY_REGISTERED"
status_of handle_already_taken = "HANDLE_ALREADY_TAKEN"
status_of verification_invalid = "VERIFICATION_INVALID"

abbrev pub all_codes : List Code
all_codes =
    auth_invalid_token ∷ auth_expired_token ∷ auth_missing_token ∷ auth_account_pending
    ∷ room_not_member ∷ room_already_member ∷ room_not_found ∷ room_owner_cannot_leave
    ∷ room_permission_denied ∷ rate_limit_exceeded ∷ verification_rate_limited ∷ invalid_request
    ∷ missing_field ∷ payload_too_large ∷ invalid_email ∷ weak_password ∷ internal_error
    ∷ service_unavailable ∷ email_already_registered ∷ handle_already_taken ∷ verification_invalid
    ∷ []

unfoldable pub find_code : (Code → Bool) → List Code → Option Code
find_code p [] = none
find_code p (c ∷ cs) = if p c then some c else find_code p cs

-- The recognition half of the method `status`.
unfoldable pub recognise : ℤ → Option Code
unfolding find_code
recognise (pos n) = find_code (λ c. number c == n) all_codes
recognise (negsuc n) = none

-- `Status`
unfoldable pub status : ℤ → String
unfolding recognise
status value = elim (recognise value) [ some c ↦ status_of c | none ↦ "UNKNOWN_ERROR" ]

abbrev pub match_status : Code → String → Result ParseError Code
match_status c raw = if str_eq raw (status_of c) then ok c else err status_mismatch

-- `Parse`
unfoldable pub parse : ℤ → String → Result ParseError Code
unfolding recognise
parse value raw = elim (recognise value) [ none ↦ err unknown_code | some c ↦ match_status c raw ]

recognise-number : (c : Code) → recognise (pos (number c)) ≡ some c
unfolding recognise
recognise-number auth_invalid_token = refl
recognise-number _ = refl

find_code-passes :
    (p : Code → Bool) (cs : List Code) (c : Code) → find_code p cs ≡ some c → p c ≡ true
unfolding find_code
find_code-passes p [] c h = cc
find_code-passes p (d ∷ cs) c h = elim (Bool-cases (p d)) [
  | inl hit ↦ ground arith
  | inr miss ↦ find_code-passes p cs c (rw miss at h)
]

recognise_iff : (value : ℤ) (c : Code) → (recognise value ≡ some c) ↔ (value ≡ pos (number c))
recognise_iff value c = (to value, λ e. rw e (recognise-number c))
  where
    to : (v : ℤ) → recognise v ≡ some c → v ≡ pos (number c)
    to (negsuc n) h = unfold recognise in cc
    to (pos n) h =
        unfold recognise in
        ap pos (sym ((==_iff _ n).0 (find_code-passes (λ d. number d == n) all_codes c h)))

-- A raw pair is accepted exactly when it is the number of a code of the taxonomy with the status
-- string of that code.
pub parse_iff :
    (value : ℤ) (raw : String) (c : Code)
    → (parse value raw ≡ ok c) ↔ ((value ≡ pos (number c)) × (raw ≡ status_of c))
unfolding parse
parse_iff value raw c = go (recognise value) refl
  where
    go :
        (o : Option Code)
        → recognise value ≡ o
        → (parse value raw ≡ ok c) ↔ ((value ≡ pos (number c)) × (raw ≡ status_of c))
    go none e = (
      (λ h. absurd (ground arith)),
      (λ h. absurd (ground (arith, (recognise_iff value c).1 h.0))),
    )
    go (some d) e = (
      (λ h.
          let same : d ≡ c = ground arith in
          let hit : str_eq raw (status_of d) ≡ true = ground arith in
          (
            (recognise_iff value c).0 (e ∙ ap some same),
            (eq_iff raw (status_of d)).0 hit ∙ ap status_of same,
          )),
      (λ h.
          let same : some d ≡ some c = sym e ∙ (recognise_iff value c).1 h.0 in
          let hit = (eq_iff raw (status_of c)).1 h.1 in ground arith),
    )

code_of_status : String → Option Code
code_of_status raw = find_code (λ c. str_eq (status_of c) raw) all_codes

code_of_status-status_of : (c : Code) → code_of_status (status_of c) ≡ some c
unfolding code_of_status find_code
code_of_status-status_of auth_invalid_token = refl
code_of_status-status_of _ = refl

-- No two codes share a number, and no two share a status string.
pub code_distinct :
    (c d : Code) → ((number c ≡ number d) ↔ (c ≡ d)) × ((status_of c ≡ status_of d) ↔ (c ≡ d))
code_distinct c d = ((numbers, ap number), (statuses, ap status_of))
  where
    numbers : number c ≡ number d → c ≡ d
    numbers e = cc (recognise-number c, recognise-number d)

    statuses : status_of c ≡ status_of d → c ≡ d
    statuses e = cc (code_of_status-status_of c, code_of_status-status_of d)
