-- ===== src/Access/Roles.antt =====
-- models.py, the seeded roles, `User.can_edit_user` and the permission properties.
use mstdnca_proxmox_tool.Base.{◌<◌, ◌≡◌, ◌≢◌, ◌⊎◌, ◌↔◌, true, false, arith, In}
use mstdnca_proxmox_tool.Access.{
  Permission, can_manage_settings, can_manage_credentials, Role, User, default_roles, role_level,
  is_super_admin, can_edit_user,
}

-- A user may edit another exactly when they are the same account, or the first is the super admin,
-- or the first one's level is strictly higher.
pub can_edit_user_iff :
    (u v : User)
    → (can_edit_user u v ≡ true)
      ↔ ((u.id ≡ v.id) ⊎ ((is_super_admin u ≡ true) ⊎ (role_level v < role_level u)))
unfolding can_edit_user
can_edit_user_iff u v = (λ h. ground arith, λ h. ground arith)

-- Of two accounts with different ids, neither of them the super admin, at most one may edit the
-- other; and editing goes down: whom an editable account may edit, its editor may edit too.
pub can_edit_user_order :
    (u v w : User)
    → is_super_admin u ≡ false
    → is_super_admin v ≡ false
    → u.id ≢ v.id
    → v.id ≢ w.id
    → can_edit_user u v ≡ true
    → (can_edit_user v u ≡ false) × (can_edit_user v w ≡ true → can_edit_user u w ≡ true)
unfolding can_edit_user
can_edit_user_order u v w su sv n m h = (ground arith, λ k. ground arith)

-- Of the roles that are seeded, only the super admin's may manage settings or credentials.
pub seeded_settings :
    (r : Role)
    → In r default_roles
    → (r.flag can_manage_settings ≡ true) ⊎ (r.flag can_manage_credentials ≡ true)
    → r.name ≡ "super_admin"
unfolding default_roles
seeded_settings r i h = ground arith

-- Whatever a seeded role may do, every seeded role of a strictly higher level may do, if that level
-- is not 2 (the operator's and the moderator's).
pub seeded_tiers :
    (r s : Role) (p : Permission)
    → In r default_roles
    → In s default_roles
    → r.level < s.level
    → s.level ≢ 2
    → r.flag p ≡ true
    → s.flag p ≡ true
unfolding default_roles
seeded_tiers r s p i j l n h = ground arith
