-- ===== src/Account/Sweep.antt =====
-- internal/persistence/accountgc/sweep.go: the deletion of abandoned pending accounts.
use blabby.Prelude.{
  ℕ, ◌+◌, ◌-◌, List, [], ◌∷◌, Option, none, some, Bool, false, ◌&&◌, ltb, if◌then◌else◌, ok,
}
use blabby.Map.{lookup, delete}
use blabby.Domain.User.{is_pending}
use blabby.Account.World.{User, Account, Verification, Action, ◌>>=◌, pure, statement, within_tx}

abbrev expires_before : ℕ → Option Verification → Bool
expires_before cutoff none = false
expires_before cutoff (some v) = ltb v.expires_at cutoff

-- The WHERE of `sweepSQL`.
abbrev pub is_abandoned : ℕ → List (ℕ × Verification) → ℕ → User → Bool
is_abandoned cutoff challenges i u =
    is_pending u.status && expires_before cutoff (lookup i challenges)

-- A deleted account takes its challenge along (ON DELETE CASCADE).
unfoldable pub sweep_users :
    ℕ → List (ℕ × Verification) → List Account → ℕ × List Account × List (ℕ × Verification)
unfolding lookup delete
sweep_users cutoff challenges [] = (0, [], challenges)
sweep_users cutoff challenges ((i, u) ∷ users) =
    let (n, kept, left) = sweep_users cutoff challenges users in
    if is_abandoned cutoff challenges i u
    then (n + 1, kept, delete i left)
    else (n, (i, u) ∷ kept, left)

unfoldable pub delete_abandoned : ℕ → Action ℕ
unfolding sweep_users
delete_abandoned cutoff w =
    let (n, kept, left) = sweep_users cutoff w.tables.challenges w.tables.users in
    (ok n, record w { tables = record { users = kept; challenges = left } })

-- The closure of `Sweep`; the flag says whether the advisory lock is granted.
unfoldable pub sweep_op : Bool → ℕ → Action ℕ
unfolding delete_abandoned statement
sweep_op locked cutoff = do
  granted ← statement (pure locked)
  if granted then statement (delete_abandoned cutoff) else pure 0

-- `Sweep` at the instant `now`
unfoldable pub sweep : ℕ → Bool → ℕ → Action ℕ
unfolding sweep_op within_tx
sweep grace locked now = within_tx (sweep_op locked (now - grace))
