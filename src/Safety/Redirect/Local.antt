-- ===== src/Safety/Redirect/Local.antt =====
-- core/local_redirect.py, `resolve_local_url`: where a redirect can lead.
use mstdnca_proxmox_tool.Base.{
  ◌≡◌, refl, Bool, true, false, not, ◌||◌, none, some, List, [], ◌∷◌, ◌++◌, any, In, In-append-elim,
  Bool-cases, Option-cases, inl, inr,
}
use mstdnca_proxmox_tool.Base.Text.{Text, Unicode, codes, strip, text_eq}
use mstdnca_proxmox_tool.Safety.Redirect.{
  Parts, Pair, Site, Route, match_route, has_key, reserved, skipped, take_query, is_empty_text,
  or_slash, starts_with, under_root, foreign, build_route, resolve_parts, resolve_local_url,
}

-- An argument that the query may give to `url_for`.
abbrev pub Allowed : List Pair → Pair → Type 0
Allowed values p = (has_key p.key values ≡ false) × (any (λ r. text_eq r p.key) reserved ≡ false)

-- Every argument is one that the query may give.
abbrev pub AllAllowed : List Pair → List Pair → Type 0
AllAllowed values [] = Unit
AllAllowed values (p ∷ pairs) = Allowed values p × AllAllowed values pairs

all_allowed :
    (values pairs : List Pair)
    → ((p : Pair) → In p pairs → Allowed values p)
    → AllAllowed values pairs
all_allowed values [] h = tt
all_allowed values (p ∷ pairs) h = (h p (inl refl), all_allowed values pairs (λ q i. h q (inr i)))

or_false : (a b : Bool) → a || b ≡ false → (a ≡ false) × (b ≡ false)
or_false true b h = cc h
or_false false b h = (refl, h)

skipped-Allowed :
    (values query : List Pair) (p : Pair) → skipped p.key values query ≡ false → Allowed values p
unfolding skipped
skipped-Allowed values query p h =
    let (a, r) = or_false (has_key p.key values) _ h in
    let (b, r) = or_false (any (λ r. text_eq r p.key) reserved) _ r in (a, b)

take_query-Allowed :
    (values query pairs : List Pair) (p : Pair)
    → ((q : Pair) → In q query → Allowed values q)
    → In p (take_query values query pairs)
    → Allowed values p
unfolding take_query
take_query-Allowed values query [] p h i = h p i
take_query-Allowed values query (q ∷ rest) p h i = elim (Bool-cases (skipped q.key values query)) [
  | inl e ↦ take_query-Allowed values query rest p h (rw e at i)
  | inr e ↦
      take_query-Allowed values (query ++ q ∷ []) rest p
        (one_more values query q h (skipped-Allowed values query q e)) (rw e at i)
]
  where
    one_more :
        (values query : List Pair) (q : Pair)
        → ((r : Pair) → In r query → Allowed values r)
        → Allowed values q
        → (r : Pair) → In r (query ++ q ∷ [])
        → Allowed values r
    one_more values query q h a r i = elim (In-append-elim r query (q ∷ []) i) [
      | inl j ↦ h r j
      | inr (inl e) ↦ rw e at a
      | inr (inr k) ↦ absurd k
    ]

-- The result is what `url_for` builds for a route that the URL map has, which is not `static`.
pub record Built (site : Site) (parts : Parts) (result : Text) : Type 0 where
  pub route : Route
  pub path : Text
  pub matched : match_route site path ≡ some route
  pub not_static : text_eq route.name (codes "static") ≡ false
  pub built :
      site.build route.name
        (route.values ++ take_query route.values [] (site.parse_query parts.query))
      ≡ some result

module _ (u : Unicode) (site : Site) where
  build_route-Built :
      (parts : Parts) (path result : Text)
      → build_route u site parts (match_route site path) ≡ some result
      → Built site parts result
  unfolding build_route
  build_route-Built parts path result h = elim (Option-cases (match_route site path)) [
    | inl e ↦ let k : none ≡ some result = rw e at h in cc k
    | inr (route, e) ↦ elim (Bool-cases (text_eq route.name (codes "static"))) [
      | inl s ↦ let k : none ≡ some result = rw (e, s) at h in cc k
      | inr s ↦ record {
        route = route;
        path = path;
        matched = e;
        not_static = s;
        built = rw (e, s) at h;
      }
    ]
  ]

  resolve_parts-Built :
      (parts : Parts) (result : Text)
      → resolve_parts u site (some parts) ≡ some result
      → (foreign u site parts ≡ false) × Built site parts result
  unfolding resolve_parts
  resolve_parts-Built parts result h = elim (Bool-cases (foreign u site parts)) [
    | inl a ↦ let k : none ≡ some result = rw a at h in cc k
    | inr a ↦
        elim (Bool-cases (
          not (starts_with (codes "/") (or_slash (site.unquote parts.path)))
          || starts_with (codes "//") (or_slash (site.unquote parts.path)))) [
            | inl b ↦ let k : none ≡ some result = rw (a, b) at h in cc k
            | inr b ↦ (
              a,
              build_route-Built parts
                  (under_root site.script_root (or_slash (site.unquote parts.path))) result
                  (rw (a, b) at h),
            )
          ]
  ]

  -- A redirect that `resolve_local_url` gives is built by `url_for` for a route of the program that is
  -- not `static`, from a URL that names no other site, and no argument that comes from the query is
  -- reserved or replaces a value of the route.
  pub resolve_local_url_local :
      (target result : Text) (parts : Parts)
      → resolve_local_url u site target ≡ some result
      → site.split (strip u target) ≡ some parts
      → (foreign u site parts ≡ false)
        × (b : Built site parts result) × AllAllowed b.route.values
            (take_query b.route.values [] (site.parse_query parts.query))
  unfolding resolve_local_url
  resolve_local_url_local target result parts h e =
      elim (Bool-cases (is_empty_text (strip u target))) [
        | inl a ↦ let k : none ≡ some result = rw a at h in cc k
        | inr a ↦
            let (f, b) = resolve_parts-Built parts result (rw (a, e) at h) in
            (
              f,
              b,
              all_allowed b.route.values _ (λ p i.
                  take_query-Allowed b.route.values [] (site.parse_query parts.query) p
                    (λ q j. absurd j) i),
            )
      ]
