-- ===== src/Moderation/Check.antt =====
-- core/moderation.py, `run_moderation_check`: its guards and the comparison.
mod Cases
pub mod Bans
pub mod Counts
use mstdnca_proxmox_tool.Base.{
  ℕ, zero, suc, ◌+◌, ◌*◌, ◌≤◌, ◌==◌, leb, ◌≡◌, refl, sym, ap, ◌∙◌, Bool, true, false, not, ◌&&◌,
  ◌||◌, Option, none, some, List, [], ◌∷◌, ◌++◌, map, length, any, keep, if◌then◌else◌, arith,
  Bool-cases, inl, inr, In, ◌⊎◌, In-append-elim, length-append, str_eq, String,
}
use mstdnca_proxmox_tool.Base.Text.{Text, Unicode}
use mstdnca_proxmox_tool.Moderation.{
  PeertubeUser, Fetched, failed, fetched, Error, api_not_configured, token_not_decrypted,
  empty_email_set, is_staff, is_registered, compare_user, compare_users, CheckResult, Progress,
  Unmatched, handle_unmatched,
}

-- The settings, `decrypt`'s answer, and what the two fetches give; `emails` lists the elements of a
-- set, as `parse_emails` does.
pub record Inputs : Type 0 where
  pub api_url : Text
  pub api_token : Text
  pub auto_ban : String
  pub decrypted_token : Option Text
  pub emails : Fetched (List Text)
  pub users : Fetched (List PeertubeUser)

abbrev no_result : CheckResult
no_result = record {
  total_peertube_users = 0;
  total_mastodon_emails = 0;
  matched = 0;
  unmatched = [];
  skipped_admins = 0;
  errors = [];
}

with_error : Error → CheckResult → CheckResult
with_error e r = record r { errors = r.errors ++ e ∷ [] }

stop : Error → CheckResult → Bool × Progress
unfolding with_error
stop e r = (false, record { result = with_error e r; ban_calls = [] })

no_text : Text → Bool
no_text [] = true
no_text (c ∷ s) = false

unfoldable pub no_emails : List Text → Bool
no_emails [] = true
no_emails (e ∷ es) = false

-- `auto_ban = Setting.get("moderation_auto_ban_enabled", "false") == "true"`
unfoldable pub auto_bans : Inputs → Bool
auto_bans inputs = str_eq inputs.auto_ban "true"

module _ (ban : ℕ → Bool) where
  check_users : Inputs → List Text → CheckResult → Fetched (List PeertubeUser) → Bool × Progress
  unfolding compare_users auto_bans stop
  check_users inputs emails r (failed e) = stop e r
  check_users inputs emails r (fetched users) = (
    true,
    compare_users ban (auto_bans inputs) emails users
        (record { result = record r { total_peertube_users = length users }; ban_calls = [] }),
  )

  check_emails : Inputs → Fetched (List Text) → Bool × Progress
  unfolding check_users auto_bans no_emails stop
  check_emails inputs (failed e) = stop e no_result
  check_emails inputs (fetched emails) =
      let r = record no_result { total_mastodon_emails = length emails } in
      if auto_bans inputs && no_emails emails
      then stop empty_email_set r
      else check_users inputs emails r inputs.users

  check_token : Inputs → Option Text → Bool × Progress
  unfolding check_emails stop no_text
  check_token inputs none = stop token_not_decrypted no_result
  check_token inputs (some token) =
      if no_text token
      then stop token_not_decrypted no_result
      else check_emails inputs inputs.emails

  -- `run_moderation_check`: success, the result and the ids that it asked PeerTube to block.
  unfoldable pub run_moderation_check : Inputs → Bool × Progress
  unfolding check_token no_text stop
  run_moderation_check inputs =
      if no_text inputs.api_url || no_text inputs.api_token
      then stop api_not_configured no_result
      else check_token inputs inputs.decrypted_token
