-- ===== src/Tests/Access.antt =====
-- models.py and core/guest_scope.py at concrete users and guests.
use mstdnca_proxmox_tool.Base.{ℕ, ◌≡◌, ◌↔◌, ◌⊎◌, refl, true, none, some, List, [], ◌∷◌, arith, any}
use mstdnca_proxmox_tool.Base.Text.{codes, strip, drop_spaces, isdigit, parse_digits}
use mstdnca_proxmox_tool.Access.{
  Guest, is_super_admin, is_admin, role_level, may_access_guest, can_access_guest,
  accessible_guests, share_tag,
}
use mstdnca_proxmox_tool.Access.Guests.{Reaches, may_access_guest_iff, accessible_guests_admin_gap}
use mstdnca_proxmox_tool.Access.Scope.{
  get_guest, guest_for_page, page_tag_ids, page_visible_to, resolve_guest_selection, raw_text,
}
use mstdnca_proxmox_tool.Access.Scope.InScope.{
  resolve_guest_selection-InScope, page_visible_to-may_access_guest,
}
use mstdnca_proxmox_tool.Tests.Data.{ascii, operator, admin, tagged, untagged}

abbrev guests : List Guest
guests = untagged ∷ tagged ∷ []

may_access_guest_iff_example : (may_access_guest operator tagged ≡ true) ↔ Reaches operator tagged
may_access_guest_iff_example = may_access_guest_iff operator tagged

accessible_guests_admin_gap_example :
    (accessible_guests admin guests ≡ []) × ((g : Guest) → may_access_guest admin g ≡ true)
unfolding is_super_admin role_level
accessible_guests_admin_gap_example =
    accessible_guests_admin_gap admin guests refl (omega arith) refl

resolve_guest_selection-InScope_example :
    (codes "10" ≡ strip ascii (raw_text (some (codes " 10 "))))
    × ((codes "10" ≡ [])
        ⊎ ((id : ℕ) × (g : Guest) × (parse_digits ascii (codes "10") ≡ some id)
            × (get_guest id guests ≡ some g)
            × (may_access_guest operator g ≡ true)))
unfolding resolve_guest_selection is_admin role_level ascii get_guest may_access_guest
    can_access_guest is_super_admin share_tag any strip drop_spaces isdigit parse_digits raw_text
resolve_guest_selection-InScope_example =
    resolve_guest_selection-InScope ascii operator guests (some (codes " 10 ")) (codes "10") refl
      refl

page_visible_to-may_access_guest_example :
    ((g : Guest)
      → guest_for_page ascii guests [] (codes "/guests/10") ≡ some g
      → (page_visible_to
            (page_tag_ids ascii guests [] (codes "/guests/10"))
            (is_admin operator)
            operator.allowed_tags
          ≡ true)
        ↔ (may_access_guest operator g ≡ true))
    × (guest_for_page ascii guests [] (codes "/guests/10") ≡ none
        → page_visible_to
            (page_tag_ids ascii guests [] (codes "/guests/10"))
            (is_admin operator)
            operator.allowed_tags
          ≡ true)
unfolding is_super_admin
page_visible_to-may_access_guest_example =
    page_visible_to-may_access_guest ascii operator guests [] (codes "/guests/10") (λ h. cc h)
