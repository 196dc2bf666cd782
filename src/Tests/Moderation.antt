-- ===== src/Tests/Moderation.antt =====
-- core/moderation.py at concrete users.
use mstdnca_proxmox_tool.Base.{
  take, drop, ℕ, ◌≡◌, refl, inl, Bool, true, none, some, List, [], ◌∷◌, length, map, arith, any,
}
use mstdnca_proxmox_tool.Base.Text.{codes, text_eq}
use mstdnca_proxmox_tool.Moderation.{
  RawUser, Page, Fetched, fetched, object, number, user_of, fetch_peertube_users, is_staff,
  is_registered, compare_users, compare_user, handle_unmatched,
}
use mstdnca_proxmox_tool.Moderation.Fetch.{fetch_peertube_users_lem}
use mstdnca_proxmox_tool.Moderation.Check.{Inputs, run_moderation_check, auto_bans, no_emails}
use mstdnca_proxmox_tool.Moderation.Check.Bans.{Justified, run_moderation_check-Justified}
use mstdnca_proxmox_tool.Tests.Data.{ascii}

abbrev raw_users : List RawUser
raw_users =
    record { id = 1; username = some (codes "root"); email = none; role_obj = object (some 0) }
    ∷ record {
      id = 2;
      username = some (codes "ann");
      email = some (codes "ANN@x");
      role_obj = object none;
    }
    ∷ record {
      id = 3;
      username = some (codes "bob");
      email = some (codes "bob@x");
      role_obj = number 2;
    }
    ∷ []

abbrev serve : ℕ → Fetched Page
serve start = fetched (record { users = take 100 (drop start raw_users); total = length raw_users })

fetch_peertube_users_lem_example :
    fetch_peertube_users ascii serve ≡ fetched (map (user_of ascii) raw_users)
fetch_peertube_users_lem_example =
    fetch_peertube_users_lem ascii serve raw_users (λ start. refl) (omega arith)

abbrev inputs : Inputs
inputs = record {
  api_url = codes "https://tube";
  api_token = codes "enc";
  auto_ban = "true";
  decrypted_token = some (codes "token");
  emails = fetched (codes "ann@x" ∷ []);
  users = fetched (map (user_of ascii) raw_users);
}

abbrev ban : ℕ → Bool
ban id = true

run_moderation_check-Justified_example : Justified ban inputs 3
unfolding run_moderation_check compare_users compare_user handle_unmatched is_staff is_registered
    any text_eq auto_bans no_emails ascii user_of
run_moderation_check-Justified_example = run_moderation_check-Justified ban inputs 3 (inl refl)
