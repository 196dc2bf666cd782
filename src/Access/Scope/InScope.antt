-- ===== src/Access/Scope/InScope.antt =====
-- core/guest_scope.py: its checks agree with `User.may_access_guest`.
use mstdnca_proxmox_tool.Base.{
  ℕ, ◌≡◌, ◌≤◌, refl, ap, ◌∙◌, ◌⊎◌, inl, inr, Bool-cases, true, false, Option, none, some, List, [],
  ◌∷◌, if◌then◌else◌, any, arith, ◌↔◌,
}
use mstdnca_proxmox_tool.Base.Text.{Text, Unicode, strip, isdigit, parse_digits}
use mstdnca_proxmox_tool.Access.{
  Guest, User, is_admin, may_access_guest, share_tag, is_super_admin, can_access_guest, role_level,
  is_empty,
}
use mstdnca_proxmox_tool.Access.Guests.{share_tag-CommonTag, CommonTag-share_tag}
use mstdnca_proxmox_tool.Access.Scope.{
  Service, get_guest, guest_for_page, page_tag_ids, page_visible_to, selected, no_text, raw_text,
  resolve_guest_selection, resolve_text, check_id, check_found, tags_of,
}

module _ (u : Unicode) where
  found_lem :
      (viewer : User) (raw chosen : Text) (guest : Option Guest)
      → check_found viewer raw guest ≡ selected chosen
      → (chosen ≡ raw) × ((g : Guest) × (guest ≡ some g) × (may_access_guest viewer g ≡ true))
  unfolding check_found
  found_lem viewer raw chosen none h = cc h
  found_lem viewer raw chosen (some g) h = elim (Bool-cases (may_access_guest viewer g)) [
    | inl e ↦ let k = rw e at h in (cc k, (g, refl, e))
    | inr e ↦ let k = rw e at h in cc k
  ]

  id_lem :
      (viewer : User) (guests : List Guest) (raw chosen : Text) (parsed : Option ℕ)
      → check_id viewer guests raw parsed ≡ selected chosen
      → (chosen ≡ raw)
        × ((id : ℕ) × (g : Guest) × (parsed ≡ some id)
            × (get_guest id guests ≡ some g)
            × (may_access_guest viewer g ≡ true))
  unfolding check_id
  id_lem viewer guests raw chosen none h = cc h
  id_lem viewer guests raw chosen (some id) h =
      let (c, (g, f, m)) = found_lem viewer raw chosen (get_guest id guests) h in
      (c, (id, g, refl, f, m))

  text_lem :
      (viewer : User) (guests : List Guest) (raw chosen : Text)
      → is_admin viewer ≡ false
      → resolve_text u viewer guests raw ≡ selected chosen
      → (chosen ≡ raw)
        × ((chosen ≡ [])
            ⊎ ((id : ℕ) × (g : Guest) × (parse_digits u chosen ≡ some id)
                × (get_guest id guests ≡ some g)
                × (may_access_guest viewer g ≡ true)))
  unfolding resolve_text no_text
  text_lem viewer guests [] chosen a h = (cc h, inl (cc h))
  text_lem viewer guests (c ∷ raw) chosen a h = elim (Bool-cases (isdigit u (c ∷ raw))) [
    | inr d ↦ let k = rw (a, d) at h in cc k
    | inl d ↦
        let (e, (id, g, p, f, m)) =
          id_lem viewer guests (c ∷ raw) chosen (parse_digits u (c ∷ raw)) (rw (a, d) at h) in
        (e, inr (id, g, ap (parse_digits u) e ∙ p, f, m))
  ]

  -- A selection that is accepted from a user below admin is the stripped input; unless that is
  -- empty, it is the id of a guest that the user may access.
  pub resolve_guest_selection-InScope :
      (viewer : User) (guests : List Guest) (raw : Option Text) (chosen : Text)
      → is_admin viewer ≡ false
      → resolve_guest_selection u viewer guests raw ≡ selected chosen
      → (chosen ≡ strip u (raw_text raw))
        × ((chosen ≡ [])
            ⊎ ((id : ℕ) × (g : Guest) × (parse_digits u chosen ≡ some id)
                × (get_guest id guests ≡ some g)
                × (may_access_guest viewer g ≡ true)))
  unfolding resolve_guest_selection
  resolve_guest_selection-InScope viewer guests raw chosen a h =
      text_lem viewer guests (strip u (raw_text raw)) chosen a h

swap_tags : (xs ys : List ℕ) → share_tag xs ys ≡ true → share_tag ys xs ≡ true
swap_tags xs ys h =
    let (t, i, j) = share_tag-CommonTag xs ys h in CommonTag-share_tag ys xs (t, j, i)

share_tag-accessible :
    (viewer : User) (g : Guest)
    → is_super_admin viewer ≡ false
    → (share_tag g.tags viewer.allowed_tags ≡ true) ↔ (can_access_guest viewer g ≡ true)
unfolding can_access_guest share_tag any
share_tag-accessible viewer g s =
    elim g.tags
      as (λ tags. (share_tag tags viewer.allowed_tags ≡ true) ↔ (
        (if is_super_admin viewer
          then true
          else if is_empty tags
          then false
          else share_tag viewer.allowed_tags tags)
        ≡ true)) [
          | [] ↦ rw s (λ h. h, λ h. h)
          | t ∷ ts ↦
              rw s (swap_tags (t ∷ ts) viewer.allowed_tags, swap_tags viewer.allowed_tags (t ∷ ts))
        ]

shown_iff :
    (viewer : User) (g : Guest)
    → (is_super_admin viewer ≡ true → 3 ≤ role_level viewer)
    → ((if is_admin viewer then true else share_tag g.tags viewer.allowed_tags) ≡ true)
      ↔ (may_access_guest viewer g ≡ true)
unfolding may_access_guest
shown_iff viewer g s = elim (Bool-cases (is_admin viewer)) [
  | inl a ↦ rw a (λ h. refl, λ h. refl)
  | inr a ↦ elim (Bool-cases (is_super_admin viewer)) [
    | inl b ↦ let k = s b in absurd (unfold is_admin in ground arith)
    | inr b ↦ rw a (share_tag-accessible viewer g b)
  ]
]

-- A page about a guest is shown to a viewer exactly when the viewer may access that guest, if a super
-- admin's level is that of an admin or above; any other page is shown to everyone.
pub page_visible_to-may_access_guest :
    (u : Unicode) (viewer : User) (guests : List Guest) (services : List Service) (page : Text)
    → (is_super_admin viewer ≡ true → 3 ≤ role_level viewer)
    → ((g : Guest)
        → guest_for_page u guests services page ≡ some g
        → (page_visible_to
              (page_tag_ids u guests services page)
              (is_admin viewer)
              viewer.allowed_tags
            ≡ true)
          ↔ (may_access_guest viewer g ≡ true))
      × (guest_for_page u guests services page ≡ none
          → page_visible_to
              (page_tag_ids u guests services page)
              (is_admin viewer)
              viewer.allowed_tags
            ≡ true)
unfolding page_tag_ids tags_of page_visible_to
page_visible_to-may_access_guest u viewer guests services page s =
    (λ g e. rw e (shown_iff viewer g s), λ e. rw e refl)
