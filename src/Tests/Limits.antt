-- ===== src/Tests/Limits.antt =====
-- auth/jwt_auth.py, apps/utils.py and core/mastodon_admin.py: a lockout, the upgrade locks, and a listing
-- of two pages.
use mstdnca_proxmox_tool.Base.{
  ℕ, ◌≡◌, refl, false, none, some, List, [], ◌∷◌, leb, keep, arith, if◌then◌else◌,
}
use mstdnca_proxmox_tool.Base.Text.{codes, text_eq}
use mstdnca_proxmox_tool.Base.Dict.{Dict, get, put}
use mstdnca_proxmox_tool.Auth.RateLimit.{
  check_api_rate_limit, record_api_failed_login, recent, attempts,
}
use mstdnca_proxmox_tool.Auth.RateLimit.Tracks.{logged}
use mstdnca_proxmox_tool.Auth.RateLimit.Lockout.{no_calls, failed, check_api_rate_limit_log}
use mstdnca_proxmox_tool.Apps.Locks.{
  Jobs, none_yet, started, finished, count, is_held, start_job, finish_job,
}
use mstdnca_proxmox_tool.Apps.Locks.Exclusive.{one_upgrade_at_a_time}
use mstdnca_proxmox_tool.Watch.{answer}
use mstdnca_proxmox_tool.Mastodon.Listing.{
  AdminAccount, listing, Server, get_all, list_newer, wanted,
}
use mstdnca_proxmox_tool.Mastodon.Listing.Newest.{list_newer_complete}

-- Two failures of address 9, a second apart.
abbrev once : Dict (List ℕ)
once = record_api_failed_login 1000000 1000001 9 []

abbrev twice : Dict (List ℕ)
twice = record_api_failed_login 2000000 2000001 9 once

check_api_rate_limit_log_example :
    (check_api_rate_limit 3000000 9 twice).1
    ≡ leb 5 (logged 9 3000000 ((9, 2000000) ∷ (9, 1000000) ∷ []))
unfolding record_api_failed_login recent attempts get put keep
check_api_rate_limit_log_example =
    check_api_rate_limit_log 3000000 9
      (failed 2000000 2000001 9
        (failed 1000000 1000001 9 no_calls (omega arith) (omega arith) (omega arith)) (omega arith)
        (omega arith) (omega arith))
      (omega arith) (omega arith)

-- Application 1 is started twice, application 2 once, and 1 ends.
abbrev busy : Jobs
busy = start_job 1 (start_job 2 (start_job 1 (record { locks = []; running = [] })))

one_upgrade_at_a_time_example :
    count 2 (finish_job 1 busy).running ≡ (if is_held 2 (finish_job 1 busy).locks then 1 else 0)
one_upgrade_at_a_time_example = one_upgrade_at_a_time (finish_job 1 busy) 2 (
    finished 1 (started 1 (started 2 (started 1 none_yet)))
      (unfold start_job count is_held in ground arith))

abbrev account : ℕ → ℕ → AdminAccount
account id created = record {
  remote = false;
  created_at = some created;
  summary = record {
    id = id;
    acct = codes "eve";
    created_at = some created;
    last_login_at = none;
    statuses_count = 0;
    excerpt = none;
  };
}

-- The second page is the last.
abbrev server : Server
server url =
    if text_eq url (codes "/2")
    then answer (listing (account 1 20 ∷ []) none)
    else answer (listing (account 3 50 ∷ account 2 30 ∷ []) (some (codes "/2")))

abbrev everybody : List AdminAccount
everybody = account 3 50 ∷ account 2 30 ∷ account 1 20 ∷ []

list_newer_complete_example :
    list_newer server 30 2 (some (codes "/1")) ≡ answer (wanted 30 everybody)
unfolding get_all text_eq
list_newer_complete_example =
    list_newer_complete server 30 60 2 (some (codes "/1")) everybody refl
      (50, refl, omega arith, (30, refl, omega arith, (20, refl, omega arith, tt)))
