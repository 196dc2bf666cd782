-- ===== src/Apps/Version/Printed.antt =====
-- apps/utils.py, `_version_gt` on the texts of versions: `v4.6.0-rc.1+glitch`.
use mstdnca_proxmox_tool.Base.{
  ℕ, ◌+◌, ◌*◌, ◌<◌, ◌≡◌, ◌≢◌, ◌↔◌, refl, sym, ap, ◌∙◌, ◌==◌, true, false, Option, none, some, List,
  [], ◌∷◌, ◌++◌, map, arith, All,
}
use mathlib.Core.List.{append_assoc}
use mstdnca_proxmox_tool.Base.Text.{Text, Unicode}
use mstdnca_proxmox_tool.Base.Split.{split_on, push_char}
use mstdnca_proxmox_tool.Apps.Version.{
  Version, lstrip_v, first_part, pre_tail, nonempty_pre, parse_pre, number_from, number, dot,
  parse_version, version_gt,
}
use mstdnca_proxmox_tool.Apps.Version.Above.{IsAbove, version_gt_iff}

-- The digits of a number, one at least, the first digit first.
abbrev pub Digits : Type 0
Digits = ℕ × List ℕ

pub record Printed : Type 0 where
  pub major : Digits
  pub minor : Digits
  pub patch : Digits
  pub pre : Option Text
  pub build : Option Text

abbrev pub numeral : Digits → Text
numeral (d, ds) = map (λ x. 48 + x) (d ∷ ds)

abbrev pub value_from : ℕ → List ℕ → ℕ
value_from acc [] = acc
value_from acc (d ∷ ds) = value_from (acc * 10 + d) ds

abbrev pub value : Digits → ℕ
value (d, ds) = value_from d ds

abbrev pub marked : ℕ → Option Text → Text
marked mark none = []
marked mark (some s) = mark ∷ s

abbrev pub core : Printed → Text
core p = numeral p.major ++ 46 ∷ (numeral p.minor ++ 46 ∷ (numeral p.patch ++ marked 45 p.pre))

-- `v`, three numbers with dots between, `-` and the pre-release, `+` and the build.
abbrev pub print : Printed → Text
print p = 118 ∷ (core p ++ marked 43 p.build)

abbrev pub meaning : Printed → Version
meaning p = record {
  major = value p.major;
  minor = value p.minor;
  patch = value p.patch;
  pre = p.pre;
}

abbrev pub AreDigits : Digits → Type 0
AreDigits (d, ds) = All (λ x. x < 10) (d ∷ ds)

-- A pre-release is not empty, has no line break, and no `+`, which starts the build.
abbrev pub IsPre : Option Text → Type 0
IsPre none = Unit
IsPre (some []) = ⊥
IsPre (some (c ∷ s)) = All (λ x. (x ≢ 10) × (x ≢ 43)) (c ∷ s)

abbrev pub IsProper : Printed → Type 0
IsProper p = AreDigits p.major × AreDigits p.minor × AreDigits p.patch × IsPre p.pre

first_part-push_char : (c : ℕ) (ws : List Text) → first_part (push_char c ws) ≡ c ∷ first_part ws
unfolding first_part push_char
first_part-push_char c [] = refl
first_part-push_char c (w ∷ ws) = refl

first_part-split_on :
    (s : Text) (build : Option Text)
    → All (λ c. c ≢ 43) s
    → first_part (split_on 43 (s ++ marked 43 build)) ≡ s
unfolding first_part split_on
first_part-split_on [] none a = refl
first_part-split_on [] (some b) a = refl
first_part-split_on (c ∷ s) build a =
    let n : c == 43 ≡ false = let k = a.0 in ground arith in
    rw n (
      first_part-push_char c (split_on 43 (s ++ marked 43 build))
      ∙ ap (λ x. c ∷ x) (first_part-split_on s build a.1))

All-append : (P : ℕ → Type 0) (s t : Text) → All P s → All P t → All P (s ++ t)
All-append P [] t a b = b
All-append P (c ∷ s) t a b = (a.0, All-append P s t a.1 b)

no_plus-numeral : (ds : List ℕ) → All (λ x. x < 10) ds → All (λ c. c ≢ 43) (map (λ x. 48 + x) ds)
no_plus-numeral [] a = tt
no_plus-numeral (d ∷ ds) a = (omega arith, no_plus-numeral ds a.1)

no_plus-text : (s : Text) → All (λ x. (x ≢ 10) × (x ≢ 43)) s → All (λ c. c ≢ 43) s
no_plus-text [] a = tt
no_plus-text (c ∷ s) a = (a.0.1, no_plus-text s a.1)

no_plus-pre : (pre : Option Text) → IsPre pre → All (λ c. c ≢ 43) (marked 45 pre)
no_plus-pre none a = tt
no_plus-pre (some []) a = absurd a
no_plus-pre (some (c ∷ s)) a = (omega arith, no_plus-text (c ∷ s) a)

no_plus-core : (p : Printed) → IsProper p → All (λ c. c ≢ 43) (core p)
no_plus-core p (a, b, c, d) =
    All-append _ (numeral p.major) _ (no_plus-numeral (p.major.0 ∷ p.major.1) a) (
      omega arith,
      All-append _ (numeral p.minor) _ (no_plus-numeral (p.minor.0 ∷ p.minor.1) b) (
        omega arith,
        All-append _ (numeral p.patch) _ (no_plus-numeral (p.patch.0 ∷ p.patch.1) c)
            (no_plus-pre p.pre d),
      ),
    )

pre_tail_lem : (s : Text) → All (λ x. (x ≢ 10) × (x ≢ 43)) s → pre_tail s ≡ some s
unfolding pre_tail
pre_tail_lem [] a = refl
pre_tail_lem (c ∷ s) a = let n = a.0.0 in rw (pre_tail_lem s a.1) (ground arith)

parse_pre_lem : (pre : Option Text) → IsPre pre → parse_pre (marked 45 pre) ≡ some pre
unfolding parse_pre nonempty_pre
parse_pre_lem none a = refl
parse_pre_lem (some []) a = absurd a
parse_pre_lem (some (c ∷ s)) a = rw (pre_tail_lem (c ∷ s) a) refl

some_inj : {A : Type 0} {a b : A} → some a ≡ some b → a ≡ b
some_inj h = cc h

module _ (u : Unicode) where
  -- No digit follows.
  Ends : Text → Type 0
  Ends [] = Unit
  Ends (c ∷ s) = u.decimal c ≡ none

  decimal_lem : (d : ℕ) → d < 10 → u.decimal (48 + d) ≡ some d
  decimal_lem d l = (u.ascii-digit (48 + d) (omega arith) (omega arith)).1 ∙ ap some (omega arith)

  number_from_lem :
      (acc : ℕ) (ds : List ℕ) (rest : Text)
      → All (λ x. x < 10) ds
      → Ends rest
      → number_from u acc (map (λ x. 48 + x) ds ++ rest) ≡ (value_from acc ds, rest)
  unfolding number_from Ends
  number_from_lem acc [] [] a e = refl
  number_from_lem acc [] (c ∷ s) a e = rw e refl
  number_from_lem acc (d ∷ ds) rest a e =
      rw (decimal_lem d a.0) (number_from_lem (acc * 10 + d) ds rest a.1 e)

  number_lem :
      (n : Digits) (rest : Text)
      → AreDigits n
      → Ends rest
      → number u (numeral n ++ rest) ≡ some (value n, rest)
  unfolding number
  number_lem (d, ds) rest a e = rw (decimal_lem d a.0) (ap some (number_from_lem d ds rest a.1 e))

  Ends-pre : (pre : Option Text) → u.decimal 45 ≡ none → Ends (marked 45 pre)
  unfolding Ends
  Ends-pre none h = tt
  Ends-pre (some s) h = h

  lstrip_v_lem :
      (n : Digits) (rest : Text)
      → AreDigits n
      → lstrip_v (118 ∷ (numeral n ++ rest)) ≡ numeral n ++ rest
  unfolding lstrip_v
  lstrip_v_lem (d, ds) rest a = let l = a.0 in ground arith

  -- `+build` is dropped with the `v`.
  stripped : (p : Printed) → IsProper p → first_part (split_on 43 (lstrip_v (print p))) ≡ core p
  stripped p a =
      let rest = 46 ∷ (numeral p.minor ++ 46 ∷ (numeral p.patch ++ marked 45 p.pre)) in
      let e : lstrip_v (print p) ≡ core p ++ marked 43 p.build =
        ap (λ x. lstrip_v (118 ∷ x)) (append_assoc (numeral p.major) rest (marked 43 p.build))
        ∙ lstrip_v_lem p.major (rest ++ marked 43 p.build) a.0
        ∙ sym (append_assoc (numeral p.major) rest (marked 43 p.build)) in
      ap (λ x. first_part (split_on 43 x)) e
      ∙ first_part-split_on (core p) p.build (no_plus-core p a)

  parse_version-print :
      (p : Printed)
      → u.decimal 46 ≡ none
      → u.decimal 45 ≡ none
      → IsProper p
      → parse_version u (print p) ≡ some (meaning p)
  unfolding parse_version dot
  parse_version-print p h k a =
      let after_minor = numeral p.patch ++ marked 45 p.pre in
      let after_major = numeral p.minor ++ 46 ∷ after_minor in
      rw
        (
          stripped p a,
          number_lem p.major (46 ∷ after_major) a.0 (unfold Ends in h),
          number_lem p.minor (46 ∷ after_minor) a.1 (unfold Ends in h),
          number_lem p.patch (marked 45 p.pre) a.2 (Ends-pre p.pre k),
          parse_pre_lem p.pre a.3,
        )
        refl

  -- Two versions are printed as `v`, three decimal numbers with dots between, and at will `-` with a
  -- pre-release (not empty, without a line break or `+`) and `+` with a build; `.` and `-` are no
  -- decimal digits. Then the first is newer exactly if the first of the numbers that differs is larger
  -- in it or, where none differs, it is a release and the other a pre-release, or both are pre-releases
  -- and its name has the larger character, or goes on, after a common beginning. Builds do not count.
  pub version_gt-print :
      (candidate current : Printed)
      → u.decimal 46 ≡ none
      → u.decimal 45 ≡ none
      → IsProper candidate
      → IsProper current
      → (version_gt u (print candidate) (print current) ≡ true)
        ↔ IsAbove (meaning candidate) (meaning current)
  version_gt-print candidate current h k a b =
      let p = parse_version-print candidate h k a in
      let q = parse_version-print current h k b in
      let both = version_gt_iff u (print candidate) (print current) in
      (
        λ g.
            let (v, w, e, f, above) = both.0 g in
            let x : v ≡ meaning candidate = some_inj (sym e ∙ p) in
            let y : w ≡ meaning current = some_inj (sym f ∙ q) in rw (x, y) at above,
        λ above. both.1 (meaning candidate, meaning current, p, q, above),
      )
