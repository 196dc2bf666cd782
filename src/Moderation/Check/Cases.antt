-- ===== src/Moderation/Check/Cases.antt =====
-- core/moderation.py: a run of `run_moderation_check` either stops at a guard or compares all users.
use mstdnca_proxmox_tool.Base.{
  ℕ, ◌≡◌, refl, Bool, true, false, ◌&&◌, ◌||◌, Option, none, some, List, [], length, Bool-cases,
  inl, inr, ◌⊎◌,
}
use mstdnca_proxmox_tool.Base.Text.{Text}
use mstdnca_proxmox_tool.Moderation.{
  PeertubeUser, Fetched, failed, fetched, compare_users, Progress,
}
use mstdnca_proxmox_tool.Moderation.Check.{
  Inputs, auto_bans, no_emails, no_text, stop, check_users, check_emails, check_token,
  run_moderation_check, no_result,
}

module _ (ban : ℕ → Bool) where
  abbrev pub start_of : List Text → List PeertubeUser → Progress
  start_of emails users = record {
    result = record no_result {
      total_mastodon_emails = length emails;
      total_peertube_users = length users;
    };
    ban_calls = [];
  }

  abbrev pub Completed : Inputs → Bool × Progress → Type 0
  Completed inputs answer =
      (users : List PeertubeUser) × (emails : List Text) × (inputs.users ≡ fetched users)
      × (inputs.emails ≡ fetched emails)
      × ((auto_bans inputs && no_emails emails) ≡ false)
      × (answer ≡ (true, compare_users ban (auto_bans inputs) emails users (start_of emails users)))

  abbrev pub Stopped : Bool × Progress → Type 0
  Stopped answer = (answer.0 ≡ false) × (answer.1.ban_calls ≡ [])

  users_cases :
      (inputs : Inputs) (emails : List Text) (f : Fetched (List PeertubeUser))
      → inputs.users ≡ f
      → inputs.emails ≡ fetched emails
      → (auto_bans inputs && no_emails emails) ≡ false
      → let a =
          check_users ban inputs emails
            (record no_result { total_mastodon_emails = length emails })
            f in
        Completed inputs a ⊎ Stopped a
  unfolding check_users stop
  users_cases inputs emails (failed e) u m g = inr (refl, refl)
  users_cases inputs emails (fetched users) u m g = inl (users, emails, u, m, g, refl)

  emails_cases :
      (inputs : Inputs) (f : Fetched (List Text))
      → inputs.emails ≡ f
      → Completed inputs (check_emails ban inputs f) ⊎ Stopped (check_emails ban inputs f)
  unfolding check_emails stop
  emails_cases inputs (failed e) m = inr (refl, refl)
  emails_cases inputs (fetched emails) m =
      elim (Bool-cases (auto_bans inputs && no_emails emails)) [
        | inl e ↦ rw e (inr (refl, refl))
        | inr e ↦ rw e (users_cases inputs emails inputs.users refl m e)
      ]

  token_cases :
      (inputs : Inputs) (token : Option Text)
      → Completed inputs (check_token ban inputs token) ⊎ Stopped (check_token ban inputs token)
  unfolding check_token stop
  token_cases inputs none = inr (refl, refl)
  token_cases inputs (some token) = elim (Bool-cases (no_text token)) [
    | inl e ↦ rw e (inr (refl, refl))
    | inr e ↦ rw e (emails_cases inputs inputs.emails refl)
  ]

  pub run_cases :
      (inputs : Inputs)
      → Completed inputs (run_moderation_check ban inputs)
        ⊎ Stopped (run_moderation_check ban inputs)
  unfolding run_moderation_check stop
  run_cases inputs = elim (Bool-cases (no_text inputs.api_url || no_text inputs.api_token)) [
    | inl e ↦ rw e (inr (refl, refl))
    | inr e ↦ rw e (token_cases inputs inputs.decrypted_token)
  ]
