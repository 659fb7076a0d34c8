-- ===== src/Domain/Membership.antt =====
-- internal/domain/membership.go: the roles of a room's members and who may change them.
use blabby.Prelude.{
  String, Bool, true, false, ◌||◌, Option, none, some, str_eq, if◌then◌else◌, ◌≡◌, ◌≢◌, arith, refl,
  ◌↔◌, eq_iff,
}

-- The constructors are the three labels of the `membership_role` enum.
pub data MembershipRole : Type 0 where
  owner admin member : MembershipRole

pub MembershipRole-discrete : Discrete MembershipRole
MembershipRole-discrete = hlevel

abbrev pub role_label : MembershipRole → String
role_label owner = "owner"
role_label admin = "admin"
role_label member = "member"

unfoldable pub parse_membership_role : String → Option MembershipRole
parse_membership_role raw =
    if str_eq raw "owner"
    then some owner
    else if str_eq raw "admin"
    then some admin
    else if str_eq raw "member"
    then some member
    else none

abbrev pub is_owner : MembershipRole → Bool
is_owner owner = true
is_owner _ = false

abbrev pub is_admin : MembershipRole → Bool
is_admin admin = true
is_admin _ = false

unfoldable pub can_set_role : MembershipRole → MembershipRole → MembershipRole → Bool
can_set_role actor target new =
    if is_owner target || is_owner new then false else is_owner actor || is_admin actor

unfoldable pub can_transfer_ownership : MembershipRole → Bool
can_transfer_ownership actor = is_owner actor

parse_membership_role-label : (r : MembershipRole) → parse_membership_role (role_label r) ≡ some r
unfolding parse_membership_role
parse_membership_role-label owner = refl
parse_membership_role-label _ = refl

-- A label parses to its role, and to nothing else.
pub parse_membership_role_iff :
    (raw : String) (r : MembershipRole)
    → (parse_membership_role raw ≡ some r) ↔ (raw ≡ role_label r)
parse_membership_role_iff raw r = (to, λ h. rw h (parse_membership_role-label r))
  where
    to : parse_membership_role raw ≡ some r → raw ≡ role_label r
    to h =
        unfold parse_membership_role in
        ground (arith, eq_iff raw "owner", eq_iff raw "admin", eq_iff raw "member")

-- The policy in one sentence: the actor ranks above ordinary members, and neither the role that
-- the target has nor the role that it gets is the owner's.
pub can_set_role_iff :
    (actor target new : MembershipRole)
    → (can_set_role actor target new ≡ true) ↔ ((actor ≢ member) × (target ≢ owner) × (new ≢ owner))
unfolding can_set_role
can_set_role_iff actor target new = ((λ h. ground arith), (λ h. ground arith))
