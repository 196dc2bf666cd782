-- ===== src/Apps/Version.antt =====
-- apps/utils.py, `_version_gt`: the order of the release versions.
pub mod Order
pub mod Above
pub mod Printed
use mstdnca_proxmox_tool.Base.{
  ℕ, ◌+◌, ◌*◌, ◌==◌, ltb, Bool, true, false, not, ◌&&◌, ◌||◌, Option, none, some, List, [], ◌∷◌,
  if◌then◌else◌,
}
use mstdnca_proxmox_tool.Base.Text.{Text, Unicode}
use mstdnca_proxmox_tool.Base.Split.{split_on}

pub record Version : Type 0 where
  pub major : ℕ
  pub minor : ℕ
  pub patch : ℕ
  pub pre : Option Text

-- `v.lstrip("v")`
lstrip_v : Text → Text
lstrip_v [] = []
lstrip_v (c ∷ s) = let rest = lstrip_v s in if c == 118 then rest else c ∷ s

first_part : List Text → Text
first_part [] = []
first_part (part ∷ parts) = part

-- The text between `-` and the end, or a final line break: `(.+)$`.
pre_tail : Text → Option Text
pre_tail [] = some []
pre_tail (c ∷ s) =
    let rest = pre_tail s in
    if c == 10
    then elim s [ [] ↦ some [] | d ∷ more ↦ none ]
    else elim rest [ none ↦ none | some t ↦ some (c ∷ t) ]

nonempty_pre : Option Text → Option (Option Text)
nonempty_pre none = none
nonempty_pre (some []) = none
nonempty_pre (some (c ∷ s)) = some (some (c ∷ s))

-- `(?:-(.+))?$` after the three numbers.
parse_pre : Text → Option (Option Text)
unfolding nonempty_pre pre_tail
parse_pre [] = some none
parse_pre (c ∷ s) =
    if c == 45
    then nonempty_pre (pre_tail s)
    else if c == 10
    then elim s [ [] ↦ some none | d ∷ more ↦ none ]
    else none

infixl 5 ◌>>=◌
abbrev pub ◌>>=◌ {ℓ κ} : {A : Type ℓ} {B : Type κ} → Option A → (A → Option B) → Option B
none >>= f = none
some a >>= f = f a

module _ (u : Unicode) where
  -- `(\d+)` and its value; `none` where there is no digit.
  number_from : ℕ → Text → ℕ × Text
  number_from acc [] = (acc, [])
  number_from acc (c ∷ s) = elim (u.decimal c) [
    | none ↦ (acc, c ∷ s)
    | some d ↦ number_from (acc * 10 + d) s
  ]

  number : Text → Option (ℕ × Text)
  unfolding number_from
  number [] = none
  number (c ∷ s) = elim (u.decimal c) [ none ↦ none | some d ↦ some (number_from d s) ]

  dot : Text → Option Text
  dot [] = none
  dot (c ∷ s) = if c == 46 then some s else none

  -- `_parse`
  unfoldable pub parse_version : Text → Option Version
  unfolding lstrip_v first_part number dot parse_pre
  parse_version v = do
    (major, a) ← number (first_part (split_on 43 (lstrip_v v)))
    b ← dot a
    (minor, c) ← number b
    d ← dot c
    (patch, e) ← number d
    pre ← parse_pre e
    some (record { major = major; minor = minor; patch = patch; pre = pre })

-- `>` on the two triples of numbers, and on two strings.
triple_gt : Version → Version → Bool
triple_gt a b =
    ltb b.major a.major
    || ((a.major == b.major)
        && (ltb b.minor a.minor || ((a.minor == b.minor) && ltb b.patch a.patch)))

same_triple : Version → Version → Bool
same_triple a b = (a.major == b.major) && ((a.minor == b.minor) && (a.patch == b.patch))

text_gt : Text → Text → Bool
text_gt [] t = false
text_gt (c ∷ s) [] = true
text_gt (c ∷ s) (d ∷ t) = ltb d c || ((c == d) && text_gt s t)

-- A stable version is above its pre-releases.
pre_gt : Option Text → Option Text → Bool
unfolding text_gt
pre_gt none none = false
pre_gt none (some p) = true
pre_gt (some p) none = false
pre_gt (some p) (some q) = text_gt p q

unfoldable pub newer : Version → Version → Bool
unfolding same_triple triple_gt pre_gt
newer a b = if not (same_triple a b) then triple_gt a b else pre_gt a.pre b.pre

newer? : Option Version → Option Version → Bool
unfolding newer
newer? none b = false
newer? (some a) none = false
newer? (some a) (some b) = newer a b

-- `_version_gt`
unfoldable pub version_gt : Unicode → Text → Text → Bool
unfolding parse_version newer?
version_gt u candidate current = newer? (parse_version u candidate) (parse_version u current)
