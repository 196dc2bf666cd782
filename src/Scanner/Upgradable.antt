-- ===== src/Scanner/Upgradable.antt =====
-- core/scanner.py, `parse_upgradable` and `determine_severity`: what apt prints, as packages.
use mstdnca_proxmox_tool.Base.{
  Bool, false, not, ◌&&◌, ◌||◌, Option, none, some, List, [], ◌∷◌, any, if◌then◌else◌,
}
use mstdnca_proxmox_tool.Base.Text.{Text, Unicode, codes, text_eq, strip}
use mstdnca_proxmox_tool.Base.Split.{
  split_on, split_once, words, splitlines, contains, after_last, rstrip,
}

pub record Package : Type 0 where
  pub name : Text
  pub current_version : Text
  pub available_version : Text

-- `parts[1] if len(parts) > 1 else "unknown"`
second_or_unknown : List Text → Text
second_or_unknown (a ∷ b ∷ ws) = b
second_or_unknown _ = codes "unknown"

or_line : Text → Option Text → Text
or_line line none = line
or_line line (some text) = text

module _ (u : Unicode) where
  current_version_of : Text → Text
  unfolding or_line
  current_version_of line =
      if contains (codes "upgradable from:") line
      then strip u (rstrip 93 (or_line line (after_last (codes "upgradable from: ") line)))
      else codes "unknown"

  unfoldable pub parse_line : Text → Option Package
  unfolding second_or_unknown current_version_of
  parse_line line =
      if not (contains (codes "/") line) || contains (codes "Listing...") line
      then none
      else let (name_part, rest) = split_once 47 line in
        some (record {
          name = strip u name_part;
          current_version = current_version_of line;
          available_version = second_or_unknown (words u rest);
        })

  with_line : Option Package → List Package → List Package
  with_line none packages = packages
  with_line (some p) packages = p ∷ packages

  parse_lines : List Text → List Package
  unfolding with_line
  parse_lines [] = []
  parse_lines (line ∷ lines) = with_line (parse_line line) (parse_lines lines)

  unfoldable pub parse_upgradable : Text → List Package
  unfolding parse_lines
  parse_upgradable output = parse_lines (split_on 10 (strip u output))

  names_package : Text → List Text → Bool
  names_package name (verb ∷ package_name ∷ ws) =
      (text_eq verb (codes "Inst") || text_eq verb (codes "Conf")) && text_eq package_name name
  names_package name _ = false

  -- Whether the severity is "critical"; `none` is the missing output.
  unfoldable pub is_critical : Text → Option Text → Bool
  unfolding names_package
  is_critical name none = false
  is_critical name (some output) =
      any (λ line. names_package name (words u line)) (splitlines output)
