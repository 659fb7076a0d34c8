-- ===== src/Domain/User.antt =====
-- internal/domain/user.go: the lifecycle status of an account.
use blabby.Prelude.{Option, none, some, Bool, true, false, if◌then◌else◌}
use blabby.Text.{Bytes, codes, bytes_eq}

pub data UserStatus : Type 0 where
  pending active disabled : UserStatus

-- The label under which a status is stored.
unfoldable pub label : UserStatus → Bytes
label pending = codes "pending"
label active = codes "active"
label disabled = codes "disabled"

-- `ParseUserStatus`
unfoldable pub parse_user_status : Bytes → Option UserStatus
unfolding label
parse_user_status raw =
    if bytes_eq raw (label pending)
    then some pending
    else if bytes_eq raw (label active)
    then some active
    else if bytes_eq raw (label disabled)
    then some disabled
    else none

-- status == UserStatusPending
abbrev pub is_pending : UserStatus → Bool
is_pending pending = true
is_pending active = false
is_pending disabled = false
