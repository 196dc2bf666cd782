-- ===== src/Moderation/Fetch.antt =====
-- core/moderation.py, `fetch_peertube_users`: the pagination reads every user.
use mstdnca_proxmox_tool.Base.{
  take, drop, take-drop, drop-drop, drop_all, take-empty, ℕ, zero, suc, ◌+◌, ◌*◌, ◌≤◌, leb, ◌≡◌,
  refl, sym, ap, ◌∙◌, true, ◌||◌, List, [], ◌∷◌, ◌++◌, map, length, arith, Bool-cases, inl, inr,
}
use mathlib.Core.List.{append_assoc, append-nil, map-append}
use mstdnca_proxmox_tool.Base.Text.{Unicode}
use mstdnca_proxmox_tool.Moderation.{
  RawUser, Page, PeertubeUser, Fetched, fetched, user_of, after_page, no_users, fetch_pages,
  fetch_peertube_users,
}

module _ (u : Unicode) (get : ℕ → Fetched Page) (all : List RawUser) where
  no_users_elim : (raws : List RawUser) → no_users raws ≡ true → raws ≡ []
  unfolding no_users
  no_users_elim [] h = refl
  no_users_elim (raw ∷ raws) h = cc h

  -- PeerTube's documented pagination of a list that does not change while it is read.
  abbrev pub Serves : Type 0
  Serves =
      (start : ℕ)
      → get start ≡ fetched (record { users = take 100 (drop start all); total = length all })

  last_page :
      (start : ℕ)
      → (leb (length all) (start + 100) || no_users (take 100 (drop start all))) ≡ true
      → drop (start + 100) all ≡ []
  unfolding drop
  last_page start h = elim (Bool-cases (leb (length all) (start + 100))) [
    | inl e ↦ drop_all (start + 100) all (ground arith)
    | inr e ↦
        sym (drop-drop start 100 all)
        ∙ rw
            (take-empty 99 (drop start all) (no_users_elim (take 100 (drop start all)) (rw e at h)))
            refl
  ]

  whole :
      (start : ℕ) (seen : List PeertubeUser)
      → (seen ++ map (user_of u) (take 100 (drop start all)))
          ++ map (user_of u) (drop (start + 100) all)
        ≡ seen ++ map (user_of u) (drop start all)
  whole start seen =
      append_assoc seen (map (user_of u) (take 100 (drop start all)))
        (map (user_of u) (drop (start + 100) all))
      ∙ ap (λ l. seen ++ l)
          (sym (map-append (user_of u) (take 100 (drop start all)) (drop (start + 100) all))
            ∙ ap (map (user_of u)) (
                ap (λ l. take 100 (drop start all) ++ l) (sym (drop-drop start 100 all))
                ∙ take-drop 100 (drop start all)))

  after_page_lem :
      (start : ℕ) (seen : List PeertubeUser) (rest : Fetched (List PeertubeUser))
      → rest
        ≡ fetched (
            (seen ++ map (user_of u) (take 100 (drop start all)))
            ++ map (user_of u) (drop (start + 100) all))
      → after_page
          (start + 100)
          (seen ++ map (user_of u) (take 100 (drop start all)))
          (record { users = take 100 (drop start all); total = length all })
          rest
        ≡ fetched (seen ++ map (user_of u) (drop start all))
  unfolding after_page
  after_page_lem start seen rest h =
      elim (Bool-cases (leb (length all) (start + 100) || no_users (take 100 (drop start all)))) [
        | inr e ↦ rw e (h ∙ ap fetched (whole start seen))
        | inl e ↦ rw e (
            ap fetched (
              sym (append-nil (seen ++ map (user_of u) (take 100 (drop start all))))
              ∙ ap (λ l. (seen ++ map (user_of u) (take 100 (drop start all))) ++ map (user_of u) l)
                  (sym (last_page start e))
              ∙ whole start seen))
      ]

  pages_lem :
      (rounds start : ℕ) (seen : List PeertubeUser)
      → Serves
      → length all ≤ start + rounds * 100
      → fetch_pages u get rounds start seen ≡ fetched (seen ++ map (user_of u) (drop start all))
  unfolding fetch_pages
  pages_lem zero start seen serves h = rw (drop_all start all (omega arith)) (rw append-nil refl)
  pages_lem (suc rounds) start seen serves h =
      let ih =
        pages_lem rounds (start + 100) (seen ++ map (user_of u) (take 100 (drop start all))) serves
          (omega arith) in
      rw (serves start) (
        after_page_lem start seen
          (fetch_pages u get rounds (start + 100)
            (seen ++ map (user_of u) (take 100 (drop start all))))
          ih)

  -- `fetch_peertube_users` gives every user, in order, when PeerTube serves a list of at most
  -- 100,000 users that does not change while it is read.
  pub fetch_peertube_users_lem :
      Serves → length all ≤ 100000 → fetch_peertube_users u get ≡ fetched (map (user_of u) all)
  unfolding fetch_peertube_users drop
  fetch_peertube_users_lem serves h = pages_lem 1000 0 [] serves (omega arith)
