-- ===== src/Mastodon/StatusLimit.antt =====
-- core/mastodon_admin.py, `max_status_chars` and `compose_direct`, and core/moderation_watch.py,
-- `get_status_limit` and `refresh_status_limit`: how long a direct message may be.
use mstdnca_proxmox_tool.Base.{
  ℕ, ◌≤◌, ◌==◌, ltb, Bool, true, false, not, ◌&&◌, Option, none, some, ◌∷◌, ◌++◌, length,
  if◌then◌else◌, arith,
}
use mstdnca_proxmox_tool.Base.Int.{ℤ, pos, negsuc}
use mstdnca_proxmox_tool.Base.Text.{Text, Unicode, strip, parse_int}
use mstdnca_proxmox_tool.Watch.{Failure, Api, answer, api_error}

abbrev pub max_chars : ℕ
max_chars = 500

abbrev pub min_chars : ℕ
min_chars = 100

abbrev pub chars_ceiling : ℕ
chars_ceiling = 25000

-- `max(MIN_STATUS_CHARS, min(MAX_STATUS_CHARS_CEILING, value))`, which is what `_parse_int` does to a
-- value with the two as its bounds, too.
clamp_chars : ℤ → ℕ
clamp_chars (negsuc n) = min_chars
clamp_chars (pos n) =
    if ltb n min_chars then min_chars else if ltb chars_ceiling n then chars_ceiling else n

-- The failure is other than a 404.
hard_fail : Option Failure → Bool
hard_fail none = false
hard_fail (some e) = elim e.http_status [ none ↦ true | some c ↦ not (c == 404) ]

raised_or_default : Option Failure → Failure → Api ℕ
unfolding hard_fail
raised_or_default v2_error v1_error =
    if hard_fail v2_error && hard_fail (some v1_error) then api_error v1_error else answer max_chars

ask_v1 : Option Failure → Api (Option ℤ) → Api ℕ
unfolding clamp_chars raised_or_default
ask_v1 v2_error (answer (some value)) = answer (clamp_chars value)
ask_v1 v2_error (answer none) = answer max_chars
ask_v1 v2_error (api_error e) = raised_or_default v2_error e

-- `max_status_chars`, on what the two instance endpoints reply and `_extract_v2_max_chars` and
-- `_extract_v1_max_chars` find there.
unfoldable pub max_status_chars : Api (Option ℤ) → Api (Option ℤ) → Api ℕ
unfolding clamp_chars ask_v1
max_status_chars (answer (some value)) v1 = answer (clamp_chars value)
max_status_chars (answer none) v1 = ask_v1 none v1
max_status_chars (api_error e) v1 = ask_v1 (some e) v1

limit_of : Option ℤ → ℕ
unfolding clamp_chars
limit_of none = max_chars
limit_of (some value) = clamp_chars value

-- `get_status_limit`, on the stored setting.
unfoldable pub get_status_limit : Unicode → Option Text → ℕ
unfolding limit_of
get_status_limit u none = max_chars
get_status_limit u (some raw) = limit_of (parse_int u (strip u raw))

-- `compose_direct`; `none` is its `ValueError`.
unfoldable pub compose_direct : Text → Text → ℕ → Option Text
compose_direct mention body limit =
    let text = 64 ∷ mention ++ 32 ∷ body in if ltb limit (length text) then none else some text

clamp_chars-InRange : (value : ℤ) → (100 ≤ clamp_chars value) × (clamp_chars value ≤ 25000)
unfolding clamp_chars
clamp_chars-InRange (negsuc n) = (omega arith, omega arith)
clamp_chars-InRange (pos n) = (ground arith, ground arith)

-- Whatever is stored, the limit is between 100 and 25000.
pub get_status_limit-InRange :
    (u : Unicode) (stored : Option Text)
    → (100 ≤ get_status_limit u stored) × (get_status_limit u stored ≤ 25000)
unfolding get_status_limit
get_status_limit-InRange u none = (omega arith, omega arith)
get_status_limit-InRange u (some raw) = limit_of_lem (parse_int u (strip u raw))
  where
    limit_of_lem : (value : Option ℤ) → (100 ≤ limit_of value) × (limit_of value ≤ 25000)
    limit_of_lem none = unfold limit_of in (omega arith, omega arith)
    limit_of_lem (some value) = unfold limit_of in clamp_chars-InRange value
