-- ===== src/Apps/Version/Above.antt =====
-- apps/utils.py, `_version_gt`: what it decides, without the code's tests.
use mstdnca_proxmox_tool.Base.{
  ℕ, ◌<◌, ◌≡◌, ◌⊎◌, ◌↔◌, refl, inl, inr, ap, true, Option, none, some, [], ◌∷◌, ◌++◌, Bool-cases,
  arith, ltb,
}
use mstdnca_proxmox_tool.Base.Text.{Text, Unicode}
use mstdnca_proxmox_tool.Apps.Version.{
  Version, text_gt, pre_gt, same_triple, triple_gt, newer, newer?, parse_version, version_gt,
}

-- After a common beginning, `t` ends where `s` goes on, or has the smaller code point.
abbrev pub TextAbove : Text → Text → Type 0
TextAbove s t =
    (common : Text) × (c : ℕ) × (more : Text) × (s ≡ common ++ c ∷ more)
    × ((t ≡ common) ⊎ ((d : ℕ) × (rest : Text) × (t ≡ common ++ d ∷ rest) × (d < c)))

-- A release is above its pre-releases, and these are ordered by their names.
abbrev pub PreAbove : Option Text → Option Text → Type 0
PreAbove none none = ⊥
PreAbove none (some q) = Unit
PreAbove (some p) none = ⊥
PreAbove (some p) (some q) = TextAbove p q

-- The first number that differs decides, and the pre-release where none does.
abbrev pub IsAbove : Version → Version → Type 0
IsAbove a b =
    (b.major < a.major)
    ⊎ ((a.major ≡ b.major)
        × ((b.minor < a.minor)
            ⊎ ((a.minor ≡ b.minor)
                × ((b.patch < a.patch) ⊎ ((a.patch ≡ b.patch) × PreAbove a.pre b.pre)))))

TextAbove-cons : (c : ℕ) (s t : Text) → TextAbove s t → TextAbove (c ∷ s) (c ∷ t)
TextAbove-cons c s t (common, d, more, e, inl f) =
    (c ∷ common, d, more, ap (λ x. c ∷ x) e, inl (ap (λ x. c ∷ x) f))
TextAbove-cons c s t (common, d, more, e, inr (g, rest, f, l)) =
    (c ∷ common, d, more, ap (λ x. c ∷ x) e, inr (g, rest, ap (λ x. c ∷ x) f, l))

text_gt-TextAbove : (s t : Text) → text_gt s t ≡ true → TextAbove s t
unfolding text_gt
text_gt-TextAbove [] t h = cc h
text_gt-TextAbove (c ∷ s) [] h = ([], c, s, refl, inl refl)
text_gt-TextAbove (c ∷ s) (d ∷ t) h = elim (Bool-cases (ltb d c)) [
  | inl e ↦ ([], c, s, refl, inr (d, t, refl, ground arith))
  | inr e ↦
      let same : c ≡ d = ground arith in
      let more : text_gt s t ≡ true = ground arith in
      rw same (TextAbove-cons d s t (text_gt-TextAbove s t more))
]

text_gt_longer : (common : Text) (c : ℕ) (more : Text) → text_gt (common ++ c ∷ more) common ≡ true
unfolding text_gt
text_gt_longer [] c more = refl
text_gt_longer (d ∷ common) c more = ground (arith, text_gt_longer common c more)

text_gt_larger :
    (common : Text) (c d : ℕ) (more rest : Text)
    → d < c
    → text_gt (common ++ c ∷ more) (common ++ d ∷ rest) ≡ true
unfolding text_gt
text_gt_larger [] c d more rest l = ground arith
text_gt_larger (b ∷ common) c d more rest l = ground (arith, text_gt_larger common c d more rest l)

TextAbove-text_gt : (s t : Text) → TextAbove s t → text_gt s t ≡ true
TextAbove-text_gt s t (common, c, more, e, inl f) = rw (e, f) (text_gt_longer common c more)
TextAbove-text_gt s t (common, c, more, e, inr (d, rest, f, l)) =
    rw (e, f) (text_gt_larger common c d more rest l)

pre_gt_iff : (p q : Option Text) → (pre_gt p q ≡ true) ↔ PreAbove p q
unfolding pre_gt
pre_gt_iff none none = (λ h. cc h, λ x. absurd x)
pre_gt_iff none (some q) = (λ h. tt, λ x. refl)
pre_gt_iff (some p) none = (λ h. cc h, λ x. absurd x)
pre_gt_iff (some p) (some q) = (text_gt-TextAbove p q, TextAbove-text_gt p q)

newer-IsAbove : (a b : Version) → newer a b ≡ true → IsAbove a b
unfolding newer same_triple triple_gt
newer-IsAbove a b h = ground (arith, (pre_gt_iff a.pre b.pre).0)

IsAbove-newer : (a b : Version) → IsAbove a b → newer a b ≡ true
unfolding newer same_triple triple_gt
IsAbove-newer a b h = ground (arith, (pre_gt_iff a.pre b.pre).1)

newer?_iff :
    (a b : Option Version)
    → (newer? a b ≡ true)
      ↔ ((v : Version) × (w : Version) × (a ≡ some v) × (b ≡ some w) × IsAbove v w)
unfolding newer?
newer?_iff none b = (λ h. cc h, λ (v, w, e, f, k). cc e)
newer?_iff (some a) none = (λ h. cc h, λ (v, w, e, f, k). cc f)
newer?_iff (some a) (some b) = (
  λ h. (a, b, refl, refl, newer-IsAbove a b h),
  λ (v, w, e, f, k).
      let p : a ≡ v = cc e in let q : b ≡ w = cc f in rw (p, q) (IsAbove-newer v w k),
)

-- The first version is newer exactly if both can be read and it is above.
pub version_gt_iff :
    (u : Unicode) (candidate current : Text)
    → (version_gt u candidate current ≡ true) ↔ (
        (v : Version) × (w : Version) × (parse_version u candidate ≡ some v)
        × (parse_version u current ≡ some w)
        × IsAbove v w)
unfolding version_gt
version_gt_iff u candidate current =
    newer?_iff (parse_version u candidate) (parse_version u current)
