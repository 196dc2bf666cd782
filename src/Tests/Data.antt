-- ===== src/Tests/Data.antt =====
-- Data that the tests share: an ASCII table with one superscript, users and guests.
use mstdnca_proxmox_tool.Base.{
  ℕ, ◌+◌, ◌-◌, ◌≤◌, ◌<◌, ◌≡◌, Bool, true, false, ◌&&◌, ◌||◌, ◌==◌, leb, Option, none, some, List,
  [], ◌∷◌, if◌then◌else◌, arith, String,
}
use mstdnca_proxmox_tool.Base.Text.{Unicode}
use mstdnca_proxmox_tool.Access.{Role, User, Guest}

ascii_is_digit : ℕ → Bool
ascii_is_digit c = (leb 48 c && leb c 57) || (c == 178)

ascii_decimal : ℕ → Option ℕ
ascii_decimal c = if leb 48 c && leb c 57 then some (c - 48) else none

ascii_is_space : ℕ → Bool
ascii_is_space c = (c == 32) || (leb 9 c && leb c 13)

ascii_to_lower : ℕ → ℕ
ascii_to_lower c = if leb 65 c && leb c 90 then c + 32 else c

decimal_lem : (c d : ℕ) → ascii_decimal c ≡ some d → d < 10
unfolding ascii_decimal
decimal_lem c d h = ground arith

space_lem : (c : ℕ) → 48 ≤ c → c ≤ 57 → ascii_is_space c ≡ false
unfolding ascii_is_space
space_lem c l h = ground arith

digit_lem :
    (c : ℕ) → 48 ≤ c → c ≤ 57 → (ascii_is_digit c ≡ true) × (ascii_decimal c ≡ some (c - 48))
unfolding ascii_is_digit ascii_decimal
digit_lem c l h = (ground arith, ground arith)

-- ASCII, and the superscript two, which is a digit and no decimal.
unfoldable pub ascii : Unicode
unfolding ascii_is_digit ascii_decimal ascii_is_space ascii_to_lower decimal_lem space_lem digit_lem
ascii = record {
  is_digit = ascii_is_digit;
  decimal = ascii_decimal;
  is_space = ascii_is_space;
  to_lower = ascii_to_lower;
  decimal-lt = decimal_lem;
  ascii-space = space_lem;
  ascii-digit = digit_lem;
}

abbrev pub role_at : String → ℕ → Role
role_at name level = record {
  name = name;
  display_name = name;
  level = level;
  is_builtin = true;
  flag = λ p. false;
}

abbrev pub user_with : ℕ → String → Role → List ℕ → User
user_with id name role tags = record {
  id = id;
  username = name;
  password_hash = "";
  role_obj = some role;
  is_active_user = true;
  tokens_valid_after = none;
  must_change_password = false;
  allowed_tags = tags;
}

abbrev pub operator : User
operator = user_with 2 "olga" (role_at "operator" 2) (7 ∷ [])

abbrev pub admin : User
admin = user_with 1 "admin" (role_at "admin" 3) []

abbrev pub viewer : User
viewer = user_with 3 "vera" (role_at "viewer" 1) []

abbrev pub tagged : Guest
tagged = record { id = 10; name = "web"; enabled = true; tags = 7 ∷ [] }

abbrev pub untagged : Guest
untagged = record { id = 11; name = "db"; enabled = true; tags = [] }
