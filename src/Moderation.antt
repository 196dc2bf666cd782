-- ===== src/Moderation.antt =====
-- core/moderation.py: the comparison of PeerTube's users with Mastodon's e-mail addresses. The SSH
-- query, PeerTube's HTTP API and the database are parameters.
pub mod Fetch
pub mod Check
use mstdnca_proxmox_tool.Base.{
  ℕ, zero, suc, ◌+◌, ◌==◌, leb, ◌≡◌, Bool, true, false, not, ◌&&◌, ◌||◌, Option, none, some, List,
  [], ◌∷◌, ◌++◌, map, length, any, keep, if◌then◌else◌, String,
}
use mstdnca_proxmox_tool.Base.Text.{Text, Unicode, strip, text_eq}
use mstdnca_proxmox_tool.Base.Split.{split_on}

-- `u.get("role", {})`: an object that may have an id, or a number.
pub data RoleObj : Type 0 where
  object : Option ℕ → RoleObj
  number : ℕ → RoleObj

-- A user in a page of PeerTube's answer.
pub record RawUser : Type 0 where
  pub id : ℕ
  pub username : Option Text
  pub email : Option Text
  pub role_obj : RoleObj

pub record Page : Type 0 where
  pub users : List RawUser
  pub total : ℕ

pub record PeertubeUser : Type 0 where
  pub id : ℕ
  pub username : Text
  pub email : Text
  pub role : ℕ

pub data Error : Type 0 where
  db_guest_not_configured : Error
  db_query_failed : Error
  api_not_configured : Error
  token_not_decrypted : Error
  api_failed : ℕ → Error
  empty_email_set : Error
  ban_failed : Text → Error

pub data Fetched {ℓ} (A : Type ℓ) : Type ℓ where
  failed : Error → Fetched A
  fetched : A → Fetched A

text_or_empty : Option Text → Text
text_or_empty none = []
text_or_empty (some s) = s

role_id : RoleObj → ℕ
role_id (object none) = 2
role_id (object (some r)) = r
role_id (number r) = r

-- `s.lower()`, one character at a time.
lower : Unicode → Text → Text
lower u s = map u.to_lower s

-- `_MAX_PEERTUBE_PAGES` and `count`
abbrev pub max_peertube_pages : ℕ
max_peertube_pages = 1000

abbrev pub page_size : ℕ
page_size = 100

no_users : List RawUser → Bool
no_users [] = true
no_users (raw ∷ raws) = false

-- The rest of the loop after a page: `rest` is what the next rounds give.
after_page :
    ℕ → List PeertubeUser → Page → Fetched (List PeertubeUser) → Fetched (List PeertubeUser)
unfolding no_users
after_page start users page rest =
    if leb page.total start || no_users page.users then fetched users else rest

is_full : Text → Bool
is_full [] = false
is_full (c ∷ s) = true

-- A list as a set: an element that comes again later is left out.
distinct : List Text → List Text
distinct [] = []
distinct (x ∷ xs) = let rest = distinct xs in if any (text_eq x) rest then rest else x ∷ rest

module _ (u : Unicode) where
  -- The set of the non-empty lines of `psql`'s output, as a list without repetitions.
  unfoldable pub parse_emails : Text → List Text
  unfolding lower is_full distinct
  parse_emails stdout = distinct (
      map (λ line. lower u (strip u line))
        (keep (λ line. is_full (strip u line)) (split_on 10 (strip u stdout))))

  unfoldable pub user_of : RawUser → PeertubeUser
  unfolding text_or_empty role_id lower
  user_of raw = record {
    id = raw.id;
    username = text_or_empty raw.username;
    email = lower u (text_or_empty raw.email);
    role = role_id raw.role_obj;
  }

  with_page :
      ℕ
      → List PeertubeUser
      → (List PeertubeUser → Fetched (List PeertubeUser))
      → Fetched Page
      → Fetched (List PeertubeUser)
  unfolding after_page user_of
  with_page start users next (failed e) = failed e
  with_page start users next (fetched page) =
      let read = users ++ map user_of page.users in
      let rest = next read in after_page (start + page_size) read page rest

  -- The loop over the pages, on as many rounds as `range` has left. `get` is one request.
  unfoldable pub fetch_pages :
      (ℕ → Fetched Page) → ℕ → ℕ → List PeertubeUser → Fetched (List PeertubeUser)
  unfolding with_page
  fetch_pages get zero start users = fetched users
  fetch_pages get (suc rounds) start users =
      with_page start users (λ read. fetch_pages get rounds (start + page_size) read) (get start)

  unfoldable pub fetch_peertube_users : (ℕ → Fetched Page) → Fetched (List PeertubeUser)
  unfolding fetch_pages
  fetch_peertube_users get = fetch_pages get max_peertube_pages 0 []

-- An entry of `result["unmatched"]`.
pub record Unmatched : Type 0 where
  pub id : ℕ
  pub username : Text
  pub email : Text
  pub banned : Bool

pub record CheckResult : Type 0 where
  pub total_peertube_users : ℕ
  pub total_mastodon_emails : ℕ
  pub matched : ℕ
  pub unmatched : List Unmatched
  pub skipped_admins : ℕ
  pub errors : List Error

-- `result` with the ids that `ban_peertube_user` was called with.
pub record Progress : Type 0 where
  pub result : CheckResult
  pub ban_calls : List ℕ

-- `user["role"] in (0, 1)`
unfoldable pub is_staff : PeertubeUser → Bool
is_staff user = leb user.role 1

unfoldable pub is_registered : List Text → PeertubeUser → Bool
is_registered emails user = any (text_eq user.email) emails

entry_of : PeertubeUser → Bool → Unmatched
entry_of user banned = record {
  id = user.id;
  username = user.username;
  email = user.email;
  banned = banned;
}

ban_errors : PeertubeUser → Bool → List Error
ban_errors user true = []
ban_errors user false = ban_failed user.username ∷ []

-- `ban` is PeerTube's answer to a block request: whether it succeeded.
unfoldable pub handle_unmatched : (ℕ → Bool) → Bool → PeertubeUser → Progress → Progress
unfolding entry_of ban_errors
handle_unmatched ban auto_ban user p =
    if auto_ban
    then record {
      result = record p.result {
        unmatched = p.result.unmatched ++ entry_of user (ban user.id) ∷ [];
        errors = p.result.errors ++ ban_errors user (ban user.id);
      };
      ban_calls = p.ban_calls ++ user.id ∷ [];
    }
    else record p {
      result = record p.result { unmatched = p.result.unmatched ++ entry_of user false ∷ [] };
    }

-- The body of the loop over PeerTube's users.
unfoldable pub compare_user : (ℕ → Bool) → Bool → List Text → PeertubeUser → Progress → Progress
unfolding is_staff is_registered handle_unmatched
compare_user ban auto_ban emails user p =
    if is_staff user
    then record p { result = record p.result { skipped_admins = p.result.skipped_admins + 1 } }
    else if is_registered emails user
    then record p { result = record p.result { matched = p.result.matched + 1 } }
    else handle_unmatched ban auto_ban user p

unfoldable pub compare_users :
    (ℕ → Bool) → Bool → List Text → List PeertubeUser → Progress → Progress
unfolding compare_user
compare_users ban auto_ban emails [] p = p
compare_users ban auto_ban emails (user ∷ users) p =
    compare_users ban auto_ban emails users (compare_user ban auto_ban emails user p)
