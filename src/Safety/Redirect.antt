-- ===== src/Safety/Redirect.antt =====
-- core/local_redirect.py: `resolve_local_url` rebuilds a redirect target from a route of the program.
pub mod Local
use mstdnca_proxmox_tool.Base.{
  ℕ, suc, zero, ◌==◌, Bool, true, false, not, ◌&&◌, ◌||◌, Option, none, some, List, [], ◌∷◌, ◌++◌,
  any, map, if◌then◌else◌,
}
use mstdnca_proxmox_tool.Base.Text.{Text, Unicode, codes, strip, text_eq, after_prefix}

-- What `urlsplit` makes of a URL.
pub record Parts : Type 0 where
  pub scheme : Text
  pub netloc : Text
  pub path : Text
  pub query : Text

pub record Pair : Type 0 where
  pub key : Text
  pub value : Text

-- What the URL map answers to a path: an endpoint with its values, a redirect to a new URL, or no route.
pub data Match : Type 0 where
  endpoint : Text → List Pair → Match
  canonical : Text → Match
  no_route : Match

-- The parts of Flask, Werkzeug and Python's library that the function calls, and the request.
-- `new_path` is `unquote(urlsplit(url).path)`; `build` is `url_for`, `none` on a `BuildError`.
pub record Site : Type 0 where
  pub split : Text → Option Parts
  pub unquote : Text → Text
  pub new_path : Text → Text
  pub match_path : Text → Match
  pub parse_query : Text → List Pair
  pub build : Text → List Pair → Option Text
  pub host : Text
  pub script_root : Text

pub record Route : Type 0 where
  pub name : Text
  pub values : List Pair

-- `_match_route`: the loop `for _ in range(tries)`.
match_from : Site → ℕ → Text → Option Route
match_from site zero path = none
match_from site (suc tries) path = elim (site.match_path path) [
  | endpoint name values ↦ some (record { name = name; values = values })
  | canonical url ↦ match_from site tries (site.new_path url)
  | no_route ↦ none
]

unfoldable pub match_route : Site → Text → Option Route
unfolding match_from
match_route site path = match_from site 2 path

pub has_key : Text → List Pair → Bool
has_key key pairs = any (λ p. text_eq p.key key) pairs

-- `_RESERVED_URL_FOR_KWARGS`
abbrev pub reserved : List Text
reserved = codes "_external" ∷ codes "_anchor" ∷ codes "_method" ∷ codes "_scheme" ∷ []

-- `key in values or key in _RESERVED_URL_FOR_KWARGS or key in query`
skipped : Text → List Pair → List Pair → Bool
unfolding has_key
skipped key values query =
    has_key key values || (any (λ r. text_eq r key) reserved || has_key key query)

pub take_query : List Pair → List Pair → List Pair → List Pair
unfolding skipped
take_query values query [] = query
take_query values query (p ∷ rest) =
    let with_pair = take_query values (query ++ p ∷ []) rest in
    let without = take_query values query rest in
    if skipped p.key values query then without else with_pair

is_empty_text : Text → Bool
is_empty_text [] = true
is_empty_text (c ∷ s) = false

or_slash : Text → Text
or_slash [] = codes "/"
or_slash (c ∷ s) = c ∷ s

starts_with : Text → Text → Bool
starts_with p s = elim (after_prefix p s) [ none ↦ false | some rest ↦ true ]

-- `path[len(script_root):]` where the path is under the mount point.
under_root : Text → Text → Text
unfolding is_empty_text starts_with
under_root root path =
    if is_empty_text root
    then path
    else if text_eq path root
    then codes "/"
    else elim (after_prefix root path) [
      | none ↦ path
      | some rest ↦ if starts_with (codes "/") rest then rest else path
    ]

module _ (u : Unicode) (site : Site) where
  lower : Text → Text
  lower s = map u.to_lower s

  -- The URL is another site's.
  pub foreign : Parts → Bool
  unfolding lower is_empty_text
  foreign parts =
      not (is_empty_text parts.scheme && is_empty_text parts.netloc)
      && (not (
            text_eq (lower parts.scheme) (codes "http")
            || text_eq (lower parts.scheme) (codes "https"))
          || not (text_eq (lower parts.netloc) (lower site.host)))

  build_route : Parts → Option Route → Option Text
  unfolding take_query
  build_route parts none = none
  build_route parts (some route) =
      if text_eq route.name (codes "static")
      then none
      else site.build route.name
          (route.values ++ take_query route.values [] (site.parse_query parts.query))

  resolve_parts : Option Parts → Option Text
  unfolding foreign or_slash starts_with under_root build_route match_route
  resolve_parts none = none
  resolve_parts (some parts) =
      let path = or_slash (site.unquote parts.path) in
      if foreign parts
      then none
      else if not (starts_with (codes "/") path) || starts_with (codes "//") path
      then none
      else build_route parts (match_route site (under_root site.script_root path))

  -- `resolve_local_url`
  unfoldable pub resolve_local_url : Text → Option Text
  unfolding resolve_parts is_empty_text
  resolve_local_url target =
      if is_empty_text (strip u target) then none else resolve_parts (site.split (strip u target))
