-- ===== src/Apps/Version/Order.antt =====
-- apps/utils.py, `_version_gt`: it is a strict order, and total on the versions it can read.
use mstdnca_proxmox_tool.Base.{
  ◌≡◌, refl, inl, inr, sym, ◌∙◌, true, false, Option, none, some, [], ◌∷◌, Bool-cases, arith,
}
use mstdnca_proxmox_tool.Base.Text.{Text, Unicode}
use mstdnca_proxmox_tool.Apps.Version.{
  Version, text_gt, pre_gt, same_triple, triple_gt, newer, newer?, parse_version, version_gt,
}

text_gt_irrefl : (s : Text) → text_gt s s ≡ false
unfolding text_gt
text_gt_irrefl [] = refl
text_gt_irrefl (c ∷ s) = ground (arith, text_gt_irrefl s)

text_gt_trans : (s t v : Text) → text_gt s t ≡ true → text_gt t v ≡ true → text_gt s v ≡ true
unfolding text_gt
text_gt_trans [] t v h k = cc h
text_gt_trans (c ∷ s) [] v h k = cc k
text_gt_trans (c ∷ s) (d ∷ t) [] h k = refl
text_gt_trans (c ∷ s) (d ∷ t) (e ∷ v) h k = ground (arith, text_gt_trans s t v)

text_gt_total : (s t : Text) → text_gt s t ≡ false → text_gt t s ≡ false → s ≡ t
unfolding text_gt
text_gt_total [] [] h k = refl
text_gt_total [] (d ∷ t) h k = cc k
text_gt_total (c ∷ s) [] h k = cc h
text_gt_total (c ∷ s) (d ∷ t) h k =
    let e : c ≡ d = ground arith in
    let p : text_gt s t ≡ false = ground arith in
    let q : text_gt t s ≡ false = ground arith in let r = text_gt_total s t p q in cc (e, r)

pre_gt_irrefl : (p : Option Text) → pre_gt p p ≡ false
unfolding pre_gt
pre_gt_irrefl none = refl
pre_gt_irrefl (some s) = text_gt_irrefl s

pre_gt_trans : (p q r : Option Text) → pre_gt p q ≡ true → pre_gt q r ≡ true → pre_gt p r ≡ true
unfolding pre_gt
pre_gt_trans none none r h k = cc h
pre_gt_trans none (some t) none h k = cc k
pre_gt_trans none (some t) (some v) h k = refl
pre_gt_trans (some s) none r h k = cc h
pre_gt_trans (some s) (some t) none h k = cc k
pre_gt_trans (some s) (some t) (some v) h k = text_gt_trans s t v h k

pre_gt_total : (p q : Option Text) → pre_gt p q ≡ false → pre_gt q p ≡ false → p ≡ q
unfolding pre_gt
pre_gt_total none none h k = refl
pre_gt_total none (some t) h k = cc h
pre_gt_total (some s) none h k = cc k
pre_gt_total (some s) (some t) h k = let e = text_gt_total s t h k in cc e

newer_irrefl : (a : Version) → newer a a ≡ false
unfolding newer same_triple triple_gt
newer_irrefl a = ground (arith, pre_gt_irrefl a.pre)

newer_trans : (a b c : Version) → newer a b ≡ true → newer b c ≡ true → newer a c ≡ true
unfolding newer same_triple triple_gt
newer_trans a b c h k = ground (arith, pre_gt_trans a.pre b.pre c.pre)

newer_total : (a b : Version) → newer a b ≡ false → newer b a ≡ false → a ≡ b
unfolding newer same_triple triple_gt
newer_total a b h k =
    let major : a.major ≡ b.major = ground arith in
    let minor : a.minor ≡ b.minor = ground arith in
    let patch : a.patch ≡ b.patch = ground arith in
    let pre : a.pre ≡ b.pre = pre_gt_total a.pre b.pre (ground arith) (ground arith) in
    cc (major, minor, patch, pre)

newer?_irrefl : (a : Option Version) → newer? a a ≡ false
unfolding newer?
newer?_irrefl none = refl
newer?_irrefl (some a) = newer_irrefl a

newer?_trans : (a b c : Option Version) → newer? a b ≡ true → newer? b c ≡ true → newer? a c ≡ true
unfolding newer?
newer?_trans none b c h k = cc h
newer?_trans (some a) none c h k = cc h
newer?_trans (some a) (some b) none h k = cc k
newer?_trans (some a) (some b) (some c) h k = newer_trans a b c h k

-- Where `b` is newer than `c` and `a` newer than `b`, `a` is newer than `c`, `b` is not newer than `a`
-- and no version is newer than itself.
pub version_gt_order :
    (u : Unicode) (a b c : Text)
    → version_gt u a b ≡ true
    → version_gt u b c ≡ true
    → (version_gt u a c ≡ true) × (version_gt u b a ≡ false) × (version_gt u a a ≡ false)
unfolding version_gt
version_gt_order u a b c h k =
    let x = parse_version u a in
    let y = parse_version u b in
    (
      newer?_trans x y (parse_version u c) h k,
      elim (Bool-cases (newer? y x)) [
        | inl e ↦ let z = newer?_trans x y x h e in cc (sym z ∙ newer?_irrefl x)
        | inr e ↦ e
      ],
      newer?_irrefl x,
    )

-- Two versions that can be read, neither of which is newer than the other, have the same numbers and
-- the same pre-release.
pub version_gt_total :
    (u : Unicode) (a b : Text) (v w : Version)
    → parse_version u a ≡ some v
    → parse_version u b ≡ some w
    → version_gt u a b ≡ false
    → version_gt u b a ≡ false
    → v ≡ w
unfolding version_gt newer?
version_gt_total u a b v w p q h k = newer_total v w (rw (p, q) at h) (rw (p, q) at k)
