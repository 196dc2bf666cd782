-- ===== src/Apps/Validate.antt =====
-- apps/utils.py: the checks of the settings that end up in a shell on a remote host. `word` is the
-- class `\w` of Python's regular expressions; a `ValueError` is a `Refusal`.
pub mod Safe
use mstdnca_proxmox_tool.Base.{
  ℕ, ◌==◌, ltb, leb, Bool, true, false, not, ◌&&◌, ◌||◌, List, [], ◌∷◌, any, length, if◌then◌else◌,
}
use mstdnca_proxmox_tool.Base.Text.{Text, codes, text_eq}
use mstdnca_proxmox_tool.Base.Split.{split_on, contains}

pub data Verdict : Type 0 where
  accepted : Verdict
  is_empty is_root unsafe_characters has_traversal too_many_parts bad_file_name not_a_branch
        not_a_repo bad_user_name control_characters :
      Verdict

-- `bool(re.fullmatch("[...]+", s))` for a class of characters.
unfoldable pub all_in : (ℕ → Bool) → Text → Bool
all_in class [] = true
all_in class (c ∷ s) = class c && all_in class s

unfoldable pub full : (ℕ → Bool) → Text → Bool
unfolding all_in
full class [] = false
full class (c ∷ s) = all_in class (c ∷ s)

is_blank : Text → Bool
is_blank [] = true
is_blank (c ∷ s) = false

letter : ℕ → Bool
letter c = (leb 65 c && leb c 90) || (leb 97 c && leb c 122)

digit : ℕ → Bool
digit c = leb 48 c && leb c 57

-- `[A-Za-z0-9_]`, what `\w` has of ASCII.
unfoldable pub ascii_word : ℕ → Bool
unfolding letter digit
ascii_word c = letter c || (digit c || (c == 95))

-- The class of `[\x00-\x1f\x7f]`, and the search of it in `_validate_no_control_chars`.
control : ℕ → Bool
control c = ltb c 32 || (c == 127)

unfoldable pub validate_no_control_chars : Text → Verdict
unfolding control
validate_no_control_chars value = if any control value then control_characters else accepted

-- `[A-Za-z_]` and `[A-Za-z0-9_.\-]{0,31}` of `_USERNAME_RE`
name_start : ℕ → Bool
unfolding letter
name_start c = letter c || (c == 95)

name_char : ℕ → Bool
unfolding letter digit
name_char c = letter c || (digit c || ((c == 95) || ((c == 46) || (c == 45))))

user_name : Text → Bool
unfolding name_start name_char all_in
user_name [] = false
user_name (c ∷ s) = name_start c && (all_in name_char s && leb (length s) 31)

unfoldable pub validate_username : Text → Verdict
unfolding is_blank user_name
validate_username value =
    if is_blank value then is_empty else if user_name value then accepted else bad_user_name

module _ (word : ℕ → Bool) where
  -- `[\w.\-]`, `[\w.\-/]` and `[\w.\-/:~]`
  file_char : ℕ → Bool
  file_char c = word c || ((c == 46) || (c == 45))

  path_char : ℕ → Bool
  unfolding file_char
  path_char c = file_char c || (c == 47)

  shell_char : ℕ → Bool
  unfolding path_char
  shell_char c = path_char c || ((c == 58) || (c == 126))

  -- `_validate_shell_param`
  unfoldable pub validate_shell_param : Text → Verdict
  unfolding is_blank full shell_char
  validate_shell_param value =
      if is_blank value
      then is_empty
      else if full shell_char value
      then accepted
      else unsafe_characters

  -- `[\w.\-/]*[\w.\-]`: path characters, and the last one is no slash.
  path_end : Text → Bool
  unfolding file_char path_char
  path_end [] = false
  path_end (c ∷ []) = file_char c
  path_end (c ∷ d ∷ s) = path_char c && path_end (d ∷ s)

  abs_path : Text → Bool
  unfolding path_end
  abs_path [] = false
  abs_path (c ∷ s) = (c == 47) && path_end s

  -- `".." in value.split("/")`
  traverses : Text → Bool
  traverses value = any (λ part. text_eq part (codes "..")) (split_on 47 value)

  -- `_validate_abs_path`
  unfoldable pub validate_abs_path : Text → Verdict
  unfolding is_blank abs_path traverses
  validate_abs_path value =
      if is_blank value
      then is_empty
      else if text_eq value (codes "/")
      then is_root
      else if not (abs_path value)
      then unsafe_characters
      else if traverses value
      then has_traversal
      else accepted

  dots : Text → Bool
  dots part = text_eq part (codes ".") || text_eq part (codes "..")

  bad_part : Text → Bool
  unfolding full file_char dots
  bad_part part = not (full file_char part) || dots part

  -- `_validate_safe_filename`
  unfoldable pub validate_safe_filename : Bool → Text → Verdict
  unfolding is_blank bad_part
  validate_safe_filename allow_subdir value =
      if is_blank value
      then is_empty
      else if ltb (if allow_subdir then 2 else 1) (length (split_on 47 value))
      then too_many_parts
      else if any bad_part (split_on 47 value)
      then bad_file_name
      else accepted

  -- `[A-Za-z0-9][\w.\-/]{0,127}`
  branch_name : Text → Bool
  unfolding letter digit all_in path_char
  branch_name [] = false
  branch_name (c ∷ s) = (letter c || digit c) && (all_in path_char s && leb (length s) 127)

  -- `_validate_git_branch`
  unfoldable pub validate_git_branch : Text → Verdict
  unfolding is_blank branch_name
  validate_git_branch value =
      if is_blank value
      then is_empty
      else if not (branch_name value) || contains (codes "..") value
      then not_a_branch
      else accepted

  -- `[\w.\-]+/[\w.\-]+`: two parts, as the class has no slash.
  repo_slug : List Text → Bool
  unfolding full file_char
  repo_slug (owner ∷ repo ∷ []) = full file_char owner && full file_char repo
  repo_slug parts = false

  -- `_validate_git_repo`
  unfoldable pub validate_git_repo : Text → Verdict
  unfolding is_blank repo_slug
  validate_git_repo value =
      if is_blank value
      then is_empty
      else if not (repo_slug (split_on 47 value)) || contains (codes "..") value
      then not_a_repo
      else accepted
