-- ===== src/Access/Granted.antt =====
-- When `check_access` of security/access_control.py grants a resource.
use deepiri_zepgpu.Base.{leb, ℕ, ◌+◌, ◌-◌, ◌≤◌, String, ◌≡◌, ◌↔◌, ◌⊎◌, true, arith}
use deepiri_zepgpu.Access.Control.{
  ResourceType, AccessControl, get_quota, get_usage, limit_of, used_of, remaining_of,
  get_remaining_quota, check_access,
}

-- An amount of a resource is granted exactly if it is nothing, or what is used in the current period
-- and the amount stay within the limit of the user's quota.
pub check_access_iff :
    (control : AccessControl) (now : ℕ) (user : String) (resource : ResourceType) (amount : ℕ)
    → ((check_access control now user resource amount).0 ≡ true) ↔ (
        (amount ≡ 0)
        ⊎ (used_of (get_usage control now user).0 resource + amount
            ≤ limit_of (get_quota control user) resource))
unfolding check_access get_remaining_quota remaining_of
check_access_iff control now user resource amount =
    granted (used_of (get_usage control now user).0 resource)
      (limit_of (get_quota control user) resource)
  where
    granted :
        (used limit : ℕ)
        → (leb amount (limit - used) ≡ true) ↔ ((amount ≡ 0) ⊎ (used + amount ≤ limit))
    granted used limit = ground arith
