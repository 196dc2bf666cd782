-- ===== src/Mastodon/Listing.antt =====
-- core/mastodon_admin.py, `_iter_pages`, `_get_all`, `list_local_accounts` and `budget_ok`. The server is
-- a parameter: what it replies to the request of a URL.
pub mod Newest
use mstdnca_proxmox_tool.Base.{
  ℕ, zero, suc, ltb, leb, Bool, true, false, not, ◌&&◌, ◌||◌, Option, none, some, List, [], ◌∷◌,
  ◌++◌, map, keep, if◌then◌else◌,
}
use mstdnca_proxmox_tool.Base.Text.{Text, codes}
use mstdnca_proxmox_tool.Watch.{Account, Failure, Api, answer, api_error}

-- An account of the admin API: `remote` is its `domain`, `created_at` is parsed, and `summary` is
-- what `summarize_account_activity` makes of it.
pub record AdminAccount : Type 0 where
  pub remote : Bool
  pub created_at : Option ℕ
  pub summary : Account

-- A payload that is a list, with the URL of the next page, or any other.
pub data Reply : Type 0 where
  listing : List AdminAccount → Option Text → Reply
  other : Reply

abbrev pub Server : Type 0
Server = Text → Api Reply

unfoldable pub unexpected : Failure
unexpected = record {
  http_status = none;
  retry_after = none;
  message = codes "Mastodon API returned an unexpected payload for a list endpoint";
}

pub on_answer : {A B : Type 0} → (A → B) → Api A → Api B
on_answer f (answer a) = answer (f a)
on_answer f (api_error e) = api_error e

-- The URL that `_iter_pages` goes on with: none after an empty page.
pub next_of : List AdminAccount → Option Text → Option Text
next_of [] next = none
next_of (a ∷ items) next = next

-- `page_oldest` after a page.
older : ℕ → Option ℕ → ℕ
older created none = created
older created (some t) = if ltb created t then created else t

pub page_oldest : List AdminAccount → Option ℕ
page_oldest [] = none
page_oldest (a ∷ items) =
    let rest = page_oldest items in
    if a.remote then rest else elim a.created_at [ none ↦ rest | some t ↦ some (older t rest) ]

-- The account is kept: local, and not created at the cutoff or before.
after_cutoff : ℕ → Option ℕ → Bool
after_cutoff cutoff none = true
after_cutoff cutoff (some t) = ltb cutoff t

unfoldable pub is_wanted : ℕ → AdminAccount → Bool
unfolding after_cutoff
is_wanted cutoff a = not a.remote && after_cutoff cutoff a.created_at

summary_of : AdminAccount → Account
summary_of a = a.summary

unfoldable pub wanted : ℕ → List AdminAccount → List Account
unfolding summary_of
wanted cutoff items = map summary_of (keep (is_wanted cutoff) items)

pub reached : ℕ → Option ℕ → Bool
reached cutoff none = false
reached cutoff (some t) = leb t cutoff

module _ (server : Server) where
  -- `_get_all`, at most `pages` pages.
  unfoldable pub get_all : ℕ → Option Text → Api (List AdminAccount)
  unfolding on_answer next_of
  get_all pages none = answer []
  get_all zero (some url) = answer []
  get_all (suc pages) (some url) = elim (server url) [
    | api_error e ↦ api_error e
    | answer reply ↦ elim reply [
      | other ↦ api_error unexpected
      | listing items next ↦ on_answer (λ rest. items ++ rest) (get_all pages (next_of items next))
    ]
  ]

  -- `list_local_accounts` with `newer_than`, from the page at the URL.
  unfoldable pub list_newer : ℕ → ℕ → Option Text → Api (List Account)
  unfolding on_answer next_of wanted reached page_oldest older
  list_newer cutoff pages none = answer []
  list_newer cutoff zero (some url) = answer []
  list_newer cutoff (suc pages) (some url) = elim (server url) [
    | api_error e ↦ api_error e
    | answer reply ↦ elim reply [
      | other ↦ api_error unexpected
      | listing items next ↦
          let rest = list_newer cutoff pages (next_of items next) in
          if reached cutoff (page_oldest items)
          then answer (wanted cutoff items)
          else on_answer (λ more. wanted cutoff items ++ more) rest
    ]
  ]

-- The last `X-RateLimit-*` headers; `remaining` is `none` where they named none.
pub record RateLimitState : Type 0 where
  pub limit : Option ℕ
  pub remaining : Option ℕ

unfoldable pub budget_ok : ℕ → Option RateLimitState → Bool
budget_ok reserve none = true
budget_ok reserve (some state) = elim state.remaining [ none ↦ true | some n ↦ leb reserve n ]
