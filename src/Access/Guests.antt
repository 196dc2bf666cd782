-- ===== src/Access/Guests.antt =====
-- models.py, `User.may_access_guest` and `User.accessible_guests`: who reaches which guest.
use mstdnca_proxmox_tool.Base.{
  ℕ, ◌≤◌, ◌<◌, ◌≡◌, refl, sym, ◌⊎◌, inl, inr, ◌↔◌, Bool, true, false, ◌&&◌, List, [], ◌∷◌, arith,
  ◌==◌, ==_iff, Bool-cases, In, any, any-intro, any-elim, In-keep-intro, In-keep-elim,
}
use mstdnca_proxmox_tool.Access.{
  User, Guest, is_empty, role_level, is_super_admin, is_admin, share_tag, can_access_guest,
  may_access_guest, accessible_guests,
}

-- One tag stands in both lists.
abbrev pub CommonTag : List ℕ → List ℕ → Type 0
CommonTag xs ys = (t : ℕ) × In t xs × In t ys

pub share_tag-CommonTag : (xs ys : List ℕ) → share_tag xs ys ≡ true → CommonTag xs ys
unfolding share_tag
share_tag-CommonTag xs ys h =
    let (x, i, e) = any-elim (λ x. any (λ y. y == x) ys) xs h in
    let (y, j, f) = any-elim (λ y. y == x) ys e in
    let p : x ≡ y = sym ((==_iff y x).0 f) in (y, rw p at i, j)

pub CommonTag-share_tag : (xs ys : List ℕ) → CommonTag xs ys → share_tag xs ys ≡ true
unfolding share_tag
CommonTag-share_tag xs ys (t, i, j) =
    any-intro (λ x. any (λ y. y == x) ys) t xs i
      (any-intro (λ y. y == t) t ys j ((==_iff t t).1 refl))

pub CommonTag-symm : (xs ys : List ℕ) → CommonTag xs ys → CommonTag ys xs
CommonTag-symm xs ys (t, i, j) = (t, j, i)

is_admin-le : (u : User) → is_admin u ≡ true → 3 ≤ role_level u
unfolding is_admin
is_admin-le u h = ground arith

le-is_admin : (u : User) → 3 ≤ role_level u → is_admin u ≡ true
unfolding is_admin
le-is_admin u h = ground arith

abbrev pub Reaches : User → Guest → Type 0
Reaches u g = (3 ≤ role_level u) ⊎ ((is_super_admin u ≡ true) ⊎ CommonTag u.allowed_tags g.tags)

can_access_guest-elim :
    (u : User) (g : Guest)
    → can_access_guest u g ≡ true
    → (is_super_admin u ≡ true) ⊎ CommonTag u.allowed_tags g.tags
unfolding can_access_guest
can_access_guest-elim u g h = elim (Bool-cases (is_super_admin u)) [
  | inl s ↦ inl s
  | inr s ↦ inr (share_tag-CommonTag u.allowed_tags g.tags (ground arith))
]

share_tag_nil : (xs : List ℕ) → share_tag xs [] ≡ false
unfolding share_tag any
share_tag_nil [] = refl
share_tag_nil (x ∷ xs) = share_tag_nil xs

pub can_access_guest-tag :
    (u : User) (g : Guest) → share_tag u.allowed_tags g.tags ≡ true → can_access_guest u g ≡ true
unfolding can_access_guest
can_access_guest-tag u g h = ground (arith, share_tag_nil u.allowed_tags)

may_access_guest-elim : (u : User) (g : Guest) → may_access_guest u g ≡ true → Reaches u g
unfolding may_access_guest
may_access_guest-elim u g h = elim (Bool-cases (is_admin u)) [
  | inl a ↦ inl (is_admin-le u a)
  | inr a ↦ inr (can_access_guest-elim u g (rw a at h))
]

may_access_guest-intro : (u : User) (g : Guest) → Reaches u g → may_access_guest u g ≡ true
unfolding may_access_guest
may_access_guest-intro u g (inl l) = rw (le-is_admin u l)
may_access_guest-intro u g (inr (inl s)) = unfold can_access_guest in ground arith
may_access_guest-intro u g (inr (inr c)) =
    ground (arith, can_access_guest-tag u g (CommonTag-share_tag u.allowed_tags g.tags c))

-- A user may act on a guest exactly when the role's level is at least 3, or the role is the super
-- admin's, or one tag is both the user's and the guest's; so an untagged guest is out of reach of
-- everybody else.
pub may_access_guest_iff : (u : User) (g : Guest) → (may_access_guest u g ≡ true) ↔ Reaches u g
may_access_guest_iff u g = (may_access_guest-elim u g, may_access_guest-intro u g)

abbrev visible : User → Guest → Bool
visible u g = g.enabled && share_tag g.tags u.allowed_tags

both : (a b : Bool) → (a && b) ≡ true → (a ≡ true) × (b ≡ true)
both a b h = ground arith

below_admin :
    (u : User)
    → is_super_admin u ≡ false
    → (is_super_admin u ≡ true) ⊎ (role_level u < 3)
    → role_level u < 3
below_admin u s (inl t) = cc
below_admin u s (inr l) = l

tag_needed :
    (u : User) (g : Guest)
    → is_super_admin u ≡ false
    → role_level u < 3
    → Reaches u g
    → CommonTag u.allowed_tags g.tags
tag_needed u g s l (inl k) = absurd (omega arith)
tag_needed u g s l (inr (inl t)) = cc
tag_needed u g s l (inr (inr c)) = c

some_tag : (xs ys : List ℕ) → CommonTag xs ys → is_empty xs ≡ false
unfolding is_empty
some_tag [] ys (t, i, j) = absurd i
some_tag (x ∷ xs) ys c = refl

tag_held :
    (u : User) (g : Guest) → CommonTag u.allowed_tags g.tags → is_empty u.allowed_tags ≡ false
tag_held u g c = some_tag u.allowed_tags g.tags c

-- A guest in the list that a user is shown is a row of the table, is enabled, and is one that the
-- user may act on.
pub accessible_guests_sound :
    (u : User) (guests : List Guest) (g : Guest)
    → In g (accessible_guests u guests)
    → In g guests × (g.enabled ≡ true) × (may_access_guest u g ≡ true)
unfolding accessible_guests
accessible_guests_sound u guests g i = elim (Bool-cases (is_super_admin u)) [
  | inl s ↦
      let (j, e) = In-keep-elim (λ (g : Guest). g.enabled) g guests (rw s at i) in
      (j, e, may_access_guest-intro u g (inr (inl s)))
  | inr s ↦ elim (Bool-cases (is_empty u.allowed_tags)) [
    | inl n ↦ absurd (rw (s, n) at i)
    | inr n ↦
        let (j, e) = In-keep-elim (visible u) g guests (rw (s, n) at i) in
        let (on, c) = both g.enabled (share_tag g.tags u.allowed_tags) e in
        (
          j,
          on,
          may_access_guest-intro u g
              (inr (inr (CommonTag-symm _ _ (share_tag-CommonTag g.tags u.allowed_tags c)))),
        )
  ]
]

-- For the super admin, and for everybody below the admin tier, the list is complete: each enabled
-- row that the user may act on is in it.
pub accessible_guests_complete :
    (u : User) (guests : List Guest) (g : Guest)
    → (is_super_admin u ≡ true) ⊎ (role_level u < 3)
    → In g guests
    → g.enabled ≡ true
    → may_access_guest u g ≡ true
    → In g (accessible_guests u guests)
unfolding accessible_guests
accessible_guests_complete u guests g who i e m = elim (Bool-cases (is_super_admin u)) [
  | inl s ↦ rw s (In-keep-intro (λ (g : Guest). g.enabled) g guests i e)
  | inr s ↦
      let c = tag_needed u g s (below_admin u s who) (may_access_guest-elim u g m) in
      rw (s, tag_held u g c)
        (In-keep-intro (visible u) g guests i
          (rw (e, CommonTag-share_tag g.tags u.allowed_tags (CommonTag-symm _ _ c))))
]

-- An admin who is not the super admin and holds no tag is shown no guest at all, although such a
-- user may act on every guest.
pub accessible_guests_admin_gap :
    (u : User) (guests : List Guest)
    → is_super_admin u ≡ false
    → 3 ≤ role_level u
    → u.allowed_tags ≡ []
    → (accessible_guests u guests ≡ []) × ((g : Guest) → may_access_guest u g ≡ true)
unfolding accessible_guests
accessible_guests_admin_gap u guests s l t = (ground arith, λ g. may_access_guest-intro u g (inl l))
