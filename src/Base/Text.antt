-- ===== src/Base/Text.antt =====
-- Text as a list of code points, and the parts of Python's `str` and `int` that the program uses.
-- Python's Unicode tables are a parameter, with the laws that its documentation gives.
use Prim.Native.Nat.{ℕ, ◌+◌, ◌-◌, ◌*◌, ◌≤◌, ◌<◌}
use Prim.Native.Char.{code}
use Prim.Native.String.{String}
use mathlib.Core.Path.{◌≡◌, refl}
use mathlib.Core.Bool.{Bool, true, false, ◌&&◌}
use mathlib.Core.Option.{Option, none, some}
use mathlib.Core.List.{List, [], ◌∷◌, reverse}
use mstdnca_proxmox_tool.Base.Tests.{◌==◌, if◌then◌else◌, Bool-cases, ==_iff}
use mathlib.Core.Logic.{inl, inr}
use native.Mathlib.Omega.{arith}
use mstdnca_proxmox_tool.Base.Int.{ℤ, pos, negate}

abbrev pub Text : Type 0
Text = List ℕ

-- The code points of a literal.
abbrev pub codes : String → Text
codes String.[] = []
codes (String.◌∷◌ c s) = code c ∷ codes s

-- Python's character tables: `is_digit` is `str.isdigit` (which holds of superscripts too),
-- `decimal` the value of a decimal digit, `is_space` what `strip` removes, `to_lower` is `lower`
-- on one character.
pub record Unicode : Type 0 where
  pub is_digit : ℕ → Bool
  pub decimal : ℕ → Option ℕ
  pub is_space : ℕ → Bool
  pub to_lower : ℕ → ℕ
  pub decimal-lt : (c d : ℕ) → decimal c ≡ some d → d < 10
  pub ascii-space : (c : ℕ) → 48 ≤ c → c ≤ 57 → is_space c ≡ false
  pub ascii-digit : (c : ℕ) → 48 ≤ c → c ≤ 57 → (is_digit c ≡ true) × (decimal c ≡ some (c - 48))

-- `s == t`
unfoldable pub text_eq : Text → Text → Bool
text_eq [] [] = true
text_eq (a ∷ s) (b ∷ t) = (a == b) && text_eq s t
text_eq s t = false

pub text_eq-elim : (s t : Text) → text_eq s t ≡ true → s ≡ t
unfolding text_eq
text_eq-elim [] [] h = refl
text_eq-elim [] (b ∷ t) h = cc h
text_eq-elim (a ∷ s) [] h = cc h
text_eq-elim (a ∷ s) (b ∷ t) h = elim (Bool-cases (a == b)) [
  | inl e ↦ let i : a ≡ b = (==_iff a b).0 e in let j = text_eq-elim s t (rw e at h) in cc (i, j)
  | inr e ↦ let k = rw e at h in cc k
]

pub text_eq_refl : (s : Text) → text_eq s s ≡ true
unfolding text_eq
text_eq_refl [] = refl
text_eq_refl (a ∷ s) = ground (arith, text_eq_refl s)

-- `s.startswith(t)`, with what follows the prefix.
unfoldable pub after_prefix : Text → Text → Option Text
after_prefix [] s = some s
after_prefix (p ∷ ps) [] = none
after_prefix (p ∷ ps) (c ∷ s) = if p == c then after_prefix ps s else none

module _ (u : Unicode) where
  unfoldable pub drop_spaces : Text → Text
  drop_spaces [] = []
  drop_spaces (c ∷ s) = let rest = drop_spaces s in if u.is_space c then rest else c ∷ s

  -- `s.strip()`
  unfoldable pub strip : Text → Text
  unfolding drop_spaces
  strip s = reverse (drop_spaces (reverse (drop_spaces s)))

  unfoldable pub all_digits : Text → Bool
  all_digits [] = true
  all_digits (c ∷ s) = u.is_digit c && all_digits s

  -- `s.isdigit()`: false on the empty text.
  unfoldable pub isdigit : Text → Bool
  unfolding all_digits
  isdigit [] = false
  isdigit (c ∷ s) = all_digits (c ∷ s)

  unfoldable pub more_digits : ℕ → Option ℕ → Option ℕ
  more_digits acc none = none
  more_digits acc (some d) = some (acc * 10 + d)

  -- The digits of an integer literal after the first: one `_` may stand between two digits.
  -- `after_digit` says whether an underscore may come next.
  unfoldable pub digits_from : Bool → Option ℕ → Text → Option ℕ
  digits_from after_digit none s = none
  digits_from after_digit (some acc) [] = if after_digit then some acc else none
  digits_from after_digit (some acc) (c ∷ s) =
      let next = digits_from true (more_digits acc (u.decimal c)) s in
      let underscore = digits_from false (some acc) s in
      if after_digit && (c == 95) then underscore else next

  unsigned : Text → Option ℕ
  unsigned s = digits_from false (some 0) s

  to_pos : Option ℕ → Option ℤ
  to_pos none = none
  to_pos (some n) = some (pos n)

  to_neg : Option ℕ → Option ℤ
  to_neg none = none
  to_neg (some n) = some (negate n)

  signed : Text → Option ℤ
  signed [] = none
  signed (c ∷ s) =
      if c == 45
      then to_neg (unsigned s)
      else if c == 43
      then to_pos (unsigned s)
      else to_pos (unsigned (c ∷ s))

  -- `int(s)`; `none` is a `ValueError`.
  unfoldable pub parse_int : Text → Option ℤ
  unfolding digits_from more_digits unsigned to_pos to_neg signed strip
  parse_int s = signed (strip s)

  -- `int(s)` on a text without sign, space or underscore, such as one that `isdigit` accepts.
  unfoldable pub parse_digits : Text → Option ℕ
  unfolding digits_from more_digits unsigned
  parse_digits s = unsigned s
