-- ===== src/Access/Scope.antt =====
-- core/guest_scope.py: the tag check on guests that a request names indirectly.
pub mod InScope
use mstdnca_proxmox_tool.Base.{
  ℕ, ◌+◌, ◌*◌, ◌==◌, ◌≡◌, Bool, true, false, not, ◌&&◌, ◌||◌, Option, none, some, List, [], ◌∷◌,
  map, if◌then◌else◌, String, any,
}
use mstdnca_proxmox_tool.Base.Text.{
  Text, Unicode, codes, strip, isdigit, parse_digits, after_prefix,
}
use mstdnca_proxmox_tool.Access.{Guest, User, is_admin, may_access_guest, share_tag}

-- What a route sees of `GuestService`.
pub record Service : Type 0 where
  pub service_id : ℕ
  pub guest_id : ℕ

-- `db.session.get(Guest, id)`
unfoldable pub get_guest : ℕ → List Guest → Option Guest
get_guest id [] = none
get_guest id (g ∷ guests) = if g.id == id then some g else get_guest id guests

get_service : ℕ → List Service → Option Service
get_service id [] = none
get_service id (s ∷ services) = if s.service_id == id then some s else get_service id services

guest_of : Option Service → List Guest → Option Guest
unfolding get_guest
guest_of none guests = none
guest_of (some s) guests = get_guest s.guest_id guests

-- `(?:[/?#]|$)`, where `$` also stands before a final line feed.
ends_id : Text → Bool
ends_id [] = true
ends_id (c ∷ []) = (c == 47) || ((c == 63) || ((c == 35) || (c == 10)))
ends_id (c ∷ d ∷ s) = (c == 47) || ((c == 63) || (c == 35))

first_of : Option ℕ → Option ℕ → Option ℕ
first_of none b = b
first_of (some a) b = some a

module _ (u : Unicode) where
  next_digit : Option ℕ → ℕ → ℕ
  next_digit none d = d
  next_digit (some acc) d = acc * 10 + d

  -- `(\d+)` and what ends it: `acc` is the number read so far.
  id_from : Option ℕ → Text → Option ℕ
  unfolding ends_id next_digit
  id_from acc [] = acc
  id_from acc (c ∷ s) = elim (u.decimal c) [
    | none ↦ if ends_id (c ∷ s) then acc else none
    | some d ↦ id_from (some (next_digit acc d)) s
  ]

  id_after : String → Text → Option ℕ
  unfolding id_from
  id_after prefix page = elim (after_prefix (codes prefix) page) [
    | none ↦ none
    | some rest ↦ id_from none rest
  ]

  -- `_PAGE_GUEST_RE`
  page_guest_id : Text → Option ℕ
  unfolding id_after first_of
  page_guest_id page = first_of (id_after "/guests/" page) (id_after "/terminal/" page)

  found_service : Option ℕ → List Service → Option Service
  unfolding get_service
  found_service none services = none
  found_service (some id) services = get_service id services

  -- `guest_for_page`
  unfoldable pub guest_for_page : List Guest → List Service → Text → Option Guest
  unfolding get_guest page_guest_id id_after found_service guest_of
  guest_for_page guests services page = elim (page_guest_id page) [
    | some id ↦ get_guest id guests
    | none ↦ guest_of (found_service (id_after "/services/" page) services) guests
  ]

  tags_of : Option Guest → Option (List ℕ)
  tags_of none = none
  tags_of (some g) = some g.tags

  unfoldable pub page_tag_ids : List Guest → List Service → Text → Option (List ℕ)
  unfolding guest_for_page tags_of
  page_tag_ids guests services page = tags_of (guest_for_page guests services page)

unfoldable pub page_visible_to : Option (List ℕ) → Bool → List ℕ → Bool
unfolding share_tag
page_visible_to none viewer_is_admin viewer_tag_ids = true
page_visible_to (some tag_ids) viewer_is_admin viewer_tag_ids =
    if viewer_is_admin then true else share_tag tag_ids viewer_tag_ids

-- The answers of `resolve_guest_selection`; `int_failed` is the `ValueError` of `int(raw)`.
pub data Selection : Type 0 where
  selected : Text → Selection
  invalid_guest_id : Selection
  guest_not_found : Selection
  no_permission : Selection
  int_failed : Selection

no_text : Text → Bool
no_text [] = true
no_text (c ∷ s) = false

unfoldable pub raw_text : Option Text → Text
raw_text none = []
raw_text (some s) = s

check_found : User → Text → Option Guest → Selection
check_found viewer raw none = guest_not_found
check_found viewer raw (some g) =
    if not (may_access_guest viewer g) then no_permission else selected raw

check_id : User → List Guest → Text → Option ℕ → Selection
unfolding check_found get_guest
check_id viewer guests raw none = int_failed
check_id viewer guests raw (some id) = check_found viewer raw (get_guest id guests)

module _ (u : Unicode) where
  resolve_text : User → List Guest → Text → Selection
  unfolding check_id no_text is_admin isdigit parse_digits
  resolve_text viewer guests raw =
      if no_text raw || is_admin viewer
      then selected raw
      else if not (isdigit u raw)
      then invalid_guest_id
      else check_id viewer guests raw (parse_digits u raw)

  unfoldable pub resolve_guest_selection : User → List Guest → Option Text → Selection
  unfolding resolve_text raw_text strip
  resolve_guest_selection viewer guests raw = resolve_text viewer guests (strip u (raw_text raw))

-- `configured_guests_out_of_scope`: the names, or `none` where `int(raw)` raises.
blocked_guest : User → Option Guest → List String → List String
unfolding may_access_guest
blocked_guest viewer none rest = rest
blocked_guest viewer (some g) rest = if not (may_access_guest viewer g) then g.name ∷ rest else rest

blocked_id : User → List Guest → Option ℕ → Option (List String) → Option (List String)
unfolding blocked_guest get_guest
blocked_id viewer guests none rest = none
blocked_id viewer guests (some id) none = none
blocked_id viewer guests (some id) (some rest) =
    some (blocked_guest viewer (get_guest id guests) rest)

module _ (u : Unicode) where
  -- `settings` are the configured values of the setting keys, in their order.
  unfoldable pub configured_guests_out_of_scope :
      User → List Guest → List (Option Text) → Option (List String)
  unfolding blocked_id raw_text strip isdigit parse_digits
  configured_guests_out_of_scope viewer guests [] = some []
  configured_guests_out_of_scope viewer guests (setting ∷ settings) =
      let rest = configured_guests_out_of_scope viewer guests settings in
      let raw = strip u (raw_text setting) in
      if not (isdigit u raw) then rest else blocked_id viewer guests (parse_digits u raw) rest
