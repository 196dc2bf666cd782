-- ===== src/Access.antt =====
-- models.py: roles, users, and which guests a user may see or act on.
pub mod Guests
pub mod Roles
pub mod Scope
use mstdnca_proxmox_tool.Base.{
  ℕ, ◌+◌, ◌*◌, ◌/◌, String, Bool, true, false, ◌&&◌, ◌||◌, Option, none, some, List, [], ◌∷◌, ◌==◌,
  ltb, leb, if◌then◌else◌, str_eq, any, keep,
}

-- `Role.PERMISSION_FIELDS`
pub data Permission : Type 0 where
  can_ssh can_update can_manage_users can_manage_settings can_manage_credentials : Permission
  can_view_hosts can_manage_hosts can_manage_guests can_restart_unifi : Permission
  can_view_audit_log can_view_services can_edit_services can_view_unifi can_view_ipmi : Permission
  can_manage_ipmi can_moderate can_use_ai can_view_guests can_moderate_staff : Permission
  can_maintain_mastodon_accounts : Permission

-- `flag` is `role[perm]`: the Boolean columns behind their names.
pub record Role : Type 0 where
  pub name : String
  pub display_name : String
  pub level : ℕ
  pub is_builtin : Bool
  pub flag : Permission → Bool

-- A tag stands for its id.
pub record Guest : Type 0 where
  pub id : ℕ
  pub name : String
  pub enabled : Bool
  pub tags : List ℕ

-- Instants are microseconds, in UTC.
pub record User : Type 0 where
  pub id : ℕ
  pub username : String
  pub password_hash : String
  pub role_obj : Option Role
  pub is_active_user : Bool
  pub tokens_valid_after : Option ℕ
  pub must_change_password : Bool
  pub allowed_tags : List ℕ

operator_flag : Permission → Bool
operator_flag can_ssh = true
operator_flag can_update = true
operator_flag can_view_ipmi = true
operator_flag can_view_guests = true
operator_flag _ = false

admin_flag : Permission → Bool
admin_flag can_manage_settings = false
admin_flag can_manage_credentials = false
admin_flag _ = true

viewer_flag : Permission → Bool
viewer_flag can_view_guests = true
viewer_flag _ = false

moderator_flag : Permission → Bool
moderator_flag can_moderate = true
moderator_flag _ = false

-- `DEFAULT_ROLES`, the five roles that are seeded.
unfoldable pub default_roles : List Role
unfolding operator_flag admin_flag viewer_flag moderator_flag
default_roles =
    record {
      name = "super_admin";
      display_name = "Super Admin";
      level = 4;
      is_builtin = true;
      flag = λ _. true;
    }
    ∷ record {
      name = "admin";
      display_name = "Admin";
      level = 3;
      is_builtin = true;
      flag = admin_flag;
    }
    ∷ record {
      name = "operator";
      display_name = "Operator";
      level = 2;
      is_builtin = true;
      flag = operator_flag;
    }
    ∷ record {
      name = "viewer";
      display_name = "Viewer";
      level = 1;
      is_builtin = true;
      flag = viewer_flag;
    }
    ∷ record {
      name = "moderator";
      display_name = "Moderator";
      level = 2;
      is_builtin = true;
      flag = moderator_flag;
    }
    ∷ []

abbrev second : ℕ
second = 1000000

-- The password stamp: `now` cut to whole seconds, and moved past the previous stamp.
next_stamp : Option ℕ → ℕ → ℕ
next_stamp none now = now / second * second
next_stamp (some previous) now =
    let stamp = now / second * second in if leb stamp previous then previous + second else stamp

-- `User.set_password`; `generate` is werkzeug's `generate_password_hash`.
unfoldable pub set_password : (String → String) → ℕ → String → User → User
unfolding next_stamp
set_password generate now password u = record u {
  password_hash = generate password;
  tokens_valid_after = some (next_stamp u.tokens_valid_after now);
  must_change_password = false;
}

level_of : Option Role → ℕ
level_of none = 1
level_of (some r) = r.level

unfoldable pub role_level : User → ℕ
unfolding level_of
role_level u = level_of u.role_obj

named_super_admin : Option Role → Bool
named_super_admin none = false
named_super_admin (some r) = str_eq r.name "super_admin"

unfoldable pub is_super_admin : User → Bool
unfolding named_super_admin
is_super_admin u = named_super_admin u.role_obj

unfoldable pub is_admin : User → Bool
unfolding role_level
is_admin u = leb 3 (role_level u)

flag_of : Option Role → Permission → Bool
flag_of none p = false
flag_of (some r) p = r.flag p

-- The properties `can_ssh` to `can_maintain_mastodon_accounts`, which have one body.
unfoldable pub has_permission : User → Permission → Bool
unfolding flag_of
has_permission u p = if is_super_admin u then true else flag_of u.role_obj p

-- `bool(set(xs) & set(ys))`
unfoldable pub share_tag : List ℕ → List ℕ → Bool
share_tag xs ys = any (λ x. any (λ y. y == x) ys) xs

is_empty : List ℕ → Bool
is_empty [] = true
is_empty (x ∷ xs) = false

unfoldable pub can_access_guest : User → Guest → Bool
unfolding is_empty
can_access_guest u g =
    if is_super_admin u
    then true
    else if is_empty g.tags
    then false
    else share_tag u.allowed_tags g.tags

unfoldable pub may_access_guest : User → Guest → Bool
unfolding is_admin can_access_guest
may_access_guest u g = is_admin u || can_access_guest u g

-- The rows of `guests` stand for the query's table.
unfoldable pub accessible_guests : User → List Guest → List Guest
unfolding is_empty
accessible_guests u guests =
    if is_super_admin u
    then keep (λ g. g.enabled) guests
    else if is_empty u.allowed_tags
    then []
    else keep (λ g. g.enabled && share_tag g.tags u.allowed_tags) guests

unfoldable pub can_edit_user : User → User → Bool
unfolding role_level
can_edit_user u other =
    if u.id == other.id
    then true
    else if is_super_admin u
    then true
    else ltb (role_level other) (role_level u)
