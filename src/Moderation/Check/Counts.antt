-- ===== src/Moderation/Check/Counts.antt =====
-- core/moderation.py: the counts of `run_moderation_check`.
use mstdnca_proxmox_tool.Base.{
  ℕ, ◌+◌, ◌≡◌, refl, sym, ◌∙◌, Bool, true, false, List, [], ◌∷◌, length, arith, Bool-cases, inl,
  inr, length-append,
}
use mstdnca_proxmox_tool.Base.Text.{Text}
use mstdnca_proxmox_tool.Moderation.{
  PeertubeUser, fetched, is_staff, is_registered, compare_user, compare_users, CheckResult,
  Progress, handle_unmatched, entry_of,
}
use mstdnca_proxmox_tool.Moderation.Check.{Inputs, auto_bans, run_moderation_check}
use mstdnca_proxmox_tool.Moderation.Check.Cases.{run_cases, start_of}

-- The users that the result accounts for.
abbrev pub accounted : CheckResult → ℕ
accounted r = r.matched + length r.unmatched + r.skipped_admins

module _ (ban : ℕ → Bool) where
  handle_unmatched-accounted :
      (auto_ban : Bool) (user : PeertubeUser) (p : Progress)
      → (accounted (handle_unmatched ban auto_ban user p).result ≡ accounted p.result + 1)
        × ((handle_unmatched ban auto_ban user p).result.total_peertube_users
            ≡ p.result.total_peertube_users)
  unfolding handle_unmatched
  handle_unmatched-accounted true user p =
      rw (length-append p.result.unmatched (entry_of user (ban user.id) ∷ [])) (omega arith, refl)
  handle_unmatched-accounted false user p =
      rw (length-append p.result.unmatched (entry_of user false ∷ [])) (omega arith, refl)

  compare_user-accounted :
      (auto_ban : Bool) (emails : List Text) (user : PeertubeUser) (p : Progress)
      → (accounted (compare_user ban auto_ban emails user p).result ≡ accounted p.result + 1)
        × ((compare_user ban auto_ban emails user p).result.total_peertube_users
            ≡ p.result.total_peertube_users)
  unfolding compare_user
  compare_user-accounted auto_ban emails user p = elim (Bool-cases (is_staff user)) [
    | inl s ↦ rw s (omega arith, refl)
    | inr s ↦ elim (Bool-cases (is_registered emails user)) [
      | inl r ↦ rw (s, r) (omega arith, refl)
      | inr r ↦ rw (s, r) (handle_unmatched-accounted auto_ban user p)
    ]
  ]

  compare_users-accounted :
      (auto_ban : Bool) (emails : List Text) (users : List PeertubeUser) (p : Progress)
      → (accounted (compare_users ban auto_ban emails users p).result
          ≡ accounted p.result + length users)
        × ((compare_users ban auto_ban emails users p).result.total_peertube_users
            ≡ p.result.total_peertube_users)
  unfolding compare_users
  compare_users-accounted auto_ban emails [] p = (omega arith, refl)
  compare_users-accounted auto_ban emails (user ∷ users) p =
      let (a, b) = compare_user-accounted auto_ban emails user p in
      let (c, d) =
        compare_users-accounted auto_ban emails users (compare_user ban auto_ban emails user p) in
      (omega arith, d ∙ b)

  -- In a run that succeeds, the matched, the unmatched and the skipped users are together all
  -- the users that PeerTube listed.
  pub run_moderation_check-accounted :
      (inputs : Inputs)
      → (run_moderation_check ban inputs).0 ≡ true
      → ((users : List PeertubeUser) × (inputs.users ≡ fetched users)
          × ((run_moderation_check ban inputs).1.result.total_peertube_users ≡ length users)
          × (accounted (run_moderation_check ban inputs).1.result ≡ length users))
  run_moderation_check-accounted inputs h = elim (run_cases ban inputs) [
    | inr (f, n) ↦ cc (sym f ∙ h)
    | inl (users, emails, u, m, g, e) ↦
        let (a, b) =
          compare_users-accounted (auto_bans inputs) emails users (start_of ban emails users) in
        (users, u, rw e b, rw e (a ∙ omega arith))
  ]
