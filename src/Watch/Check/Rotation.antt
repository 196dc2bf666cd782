-- ===== src/Watch/Check/Rotation.antt =====
-- core/moderation_watch.py, `_check_watched`: no watch blocks the others.
use mstdnca_proxmox_tool.Base.{
  ℕ, ◌+◌, ◌==◌, ==_iff, ◌≡◌, ◌≢◌, ◌∙◌, sym, ap, subst, length, refl, true, false, not, Option, none,
  some, List, [], ◌∷◌, Bool-cases, inl, inr, ◌⊎◌, In, In-keep-elim, map,
}
use mstdnca_proxmox_tool.Base.Text.{Unicode}
use mstdnca_proxmox_tool.Watch.{WatchRow, Failure, Api, answer, api_error, Poll, Client}
use mstdnca_proxmox_tool.Watch.Check.{
  put_watch, delete_watch, poll_watch, after_poll, check_from, check_watched, mark, drop_watch,
  blame, finish, is_rate_limit, is_gone, watch_queue,
}
use mstdnca_proxmox_tool.Watch.Check.Growth.{Polled, poll_watch-Polled}

put_watch-elim :
    (w v : WatchRow) (rows : List WatchRow)
    → In v (put_watch w rows)
    → (w ≡ v) ⊎ (In v rows × (v.id ≢ w.id))
unfolding put_watch
put_watch-elim w v [] i = absurd i
put_watch-elim w v (r ∷ rows) (inl e) = elim (Bool-cases (r.id == w.id)) [
  | inl t ↦ inl (rw t at e)
  | inr f ↦
      let p : r ≡ v = rw f at e in
      inr (inl p, λ q. cc (sym f ∙ (==_iff r.id w.id).1 (ap (λ (x : WatchRow). x.id) p ∙ q)))
]
put_watch-elim w v (r ∷ rows) (inr i) = elim (put_watch-elim w v rows i) [
  | inl p ↦ inl p
  | inr (j, n) ↦ inr (inr j, n)
]

-- Every row whose id is in the list has been looked at by this run.
abbrev Seen : ℕ → List ℕ → List WatchRow → Type 0
Seen now ids rows = (v : WatchRow) → In v rows → In v.id ids → v.last_checked_at ≡ some now

put_watch-Seen :
    (now : ℕ) (w : WatchRow) (ids : List ℕ) (rows : List WatchRow)
    → w.last_checked_at ≡ some now
    → Seen now ids rows
    → Seen now (w.id ∷ ids) (put_watch w rows)
put_watch-Seen now w ids rows e seen v i (inr k) = elim (put_watch-elim w v rows i) [
  | inl p ↦ ap (λ (x : WatchRow). x.last_checked_at) (sym p) ∙ e
  | inr (j, n) ↦ seen v j k
]
put_watch-Seen now w ids rows e seen v i (inl q) = elim (put_watch-elim w v rows i) [
  | inl p ↦ ap (λ (x : WatchRow). x.last_checked_at) (sym p) ∙ e
  | inr (j, n) ↦ absurd (n (sym q))
]

delete_watch-Seen :
    (now id : ℕ) (ids : List ℕ) (rows : List WatchRow)
    → Seen now ids rows
    → Seen now (id ∷ ids) (delete_watch id rows)
unfolding delete_watch
delete_watch-Seen now id ids rows seen v i (inr k) =
    seen v (In-keep-elim (λ (x : WatchRow). not (x.id == id)) v rows i).0 k
delete_watch-Seen now id ids rows seen v i (inl q) =
    let t = (In-keep-elim (λ (x : WatchRow). not (x.id == id)) v rows i).1 in
    let e = (==_iff v.id id).1 (sym q) in let k = rw e at t in cc k

module _ (u : Unicode) (client : Client) (now : ℕ) where
  -- What holds at the end of the loop, if it neither stops at a rate limit nor runs out of budget.
  abbrev Complete : List ℕ → Poll × Option Failure → Type 0
  Complete ids r = r.1 ≡ none → r.0.summary.deferred ≡ false → Seen now ids r.0.db.watches

  abbrev ids_of : List WatchRow → List ℕ
  ids_of ws = map (λ (w : WatchRow). w.id) ws

  after_poll-Complete :
      (target ids : List ℕ) (w : WatchRow) (checked : ℕ) (next : ℕ → Poll → Poll × Option Failure)
      (s : Poll) (reply : Api (WatchRow × Poll))
      → Seen now ids s.db.watches
      → ((r : WatchRow × Poll) → reply ≡ answer r → Polled w s r)
      → ((c : ℕ) (t : Poll) → Seen now (w.id ∷ ids) t.db.watches → Complete target (next c t))
      → Complete target (after_poll u client now w checked next s reply)
  unfolding after_poll mark drop_watch blame
  after_poll-Complete target ids w checked next s (answer (w', s')) seen polled rest =
      let p = polled (w', s') refl in
      rest (checked + 1) (mark now w' s') (
        rw (← p.same_id, p.same_rows)
          (put_watch-Seen now (record w' { last_checked_at = some now }) ids s.db.watches refl
            seen))
  after_poll-Complete target ids w checked next s (api_error e) seen polled rest =
      elim (Bool-cases (is_rate_limit e)) [
        | inl a ↦ rw a (λ h d. cc h)
        | inr a ↦ elim (Bool-cases (is_gone e)) [
          | inl b ↦
              rw (a, b)
                (rest checked (drop_watch w s) (delete_watch-Seen now w.id ids s.db.watches seen))
          | inr b ↦
              rw (a, b)
                (rest (checked + 1) (mark now w (blame w e s)) (
                  put_watch-Seen now (record w { last_checked_at = some now }) ids s.db.watches refl
                    seen))
        ]
      ]

  abbrev Covered : List ℕ → List ℕ → List WatchRow → Type 0
  Covered target ids ws = (k : ℕ) → In k target → In k ids ⊎ In k (ids_of ws)

  move_first :
      (k id : ℕ) (ids rest : List ℕ) → In k ids ⊎ In k (id ∷ rest) → In k (id ∷ ids) ⊎ In k rest
  move_first k id ids rest (inl i) = inl (inr i)
  move_first k id ids rest (inr (inl e)) = inl (inl e)
  move_first k id ids rest (inr (inr i)) = inr i

  only_left : (k : ℕ) (ids : List ℕ) → In k ids ⊎ In k [] → In k ids
  only_left k ids (inl i) = i
  only_left k ids (inr i) = absurd i

  check_from-Complete :
      (target ids : List ℕ) (ws : List WatchRow) (i checked : ℕ) (s : Poll)
      → Covered target ids ws
      → Seen now ids s.db.watches
      → Complete target (check_from u client now ws i checked s)
  unfolding check_from finish
  check_from-Complete target ids [] i checked s cover seen =
      λ h d v j k. seen v j (only_left v.id ids (cover v.id k))
  check_from-Complete target ids (w ∷ ws) i checked s cover seen =
      elim (Bool-cases (client.watch_budget_ok i)) [
        | inr e ↦ rw e (λ h d. cc d)
        | inl e ↦ rw e (
            after_poll-Complete target ids w checked (λ c t. check_from u client now ws (i + 1) c t)
              s (poll_watch u client now w s) seen (poll_watch-Polled u client now w s)
              (λ c t seen'.
                check_from-Complete target (w.id ∷ ids) ws (i + 1) c t
                  (λ k j. move_first k w.id ids (ids_of ws) (cover k j)) seen'))
      ]

  -- When the step neither meets the rate limit nor runs out of budget, each watch of its queue that
  -- still has a row has been looked at in this run, whatever Mastodon answered for it and the others.
  pub check_watched-Seen :
      (s : Poll) (v : WatchRow)
      → (check_watched u client now s).1 ≡ none
      → (check_watched u client now s).0.summary.deferred ≡ false
      → In v (check_watched u client now s).0.db.watches
      → In v.id (map (λ (w : WatchRow). w.id) (watch_queue s.db.watches))
      → v.last_checked_at ≡ some now
  unfolding check_watched
  check_watched-Seen s v h d i k =
      check_from-Complete (ids_of (watch_queue s.db.watches)) [] (watch_queue s.db.watches) 0 0
        (record s { summary = record s.summary { watch_total = length s.db.watches } })
        (λ j m. inr m) (λ x j m. absurd m) h d v i k

  -- The step raises only on a rate limit.
  after_poll-raises :
      (w : WatchRow) (checked : ℕ) (next : ℕ → Poll → Poll × Option Failure) (s : Poll)
      (reply : Api (WatchRow × Poll)) (e : Failure)
      → ((c : ℕ) (t : Poll) → (next c t).1 ≡ some e → is_rate_limit e ≡ true)
      → (after_poll u client now w checked next s reply).1 ≡ some e
      → is_rate_limit e ≡ true
  unfolding after_poll
  after_poll-raises w checked next s (answer (w', s')) e rest h =
      rest (checked + 1) (mark now w' s') h
  after_poll-raises w checked next s (api_error f) e rest h = elim (Bool-cases (is_rate_limit f)) [
    | inl a ↦ let k = rw a at h in let q : f ≡ e = cc k in subst (λ x. is_rate_limit x ≡ true) q a
    | inr a ↦ elim (Bool-cases (is_gone f)) [
      | inl b ↦ rest checked (drop_watch w s) (rw (a, b) at h)
      | inr b ↦ rest (checked + 1) (mark now w (blame w f s)) (rw (a, b) at h)
    ]
  ]

  check_from-raises :
      (ws : List WatchRow) (i checked : ℕ) (s : Poll) (e : Failure)
      → (check_from u client now ws i checked s).1 ≡ some e
      → is_rate_limit e ≡ true
  unfolding check_from
  check_from-raises [] i checked s e h = cc h
  check_from-raises (w ∷ ws) i checked s e h = elim (Bool-cases (client.watch_budget_ok i)) [
    | inr b ↦ let k = rw b at h in cc k
    | inl b ↦
        after_poll-raises w checked (λ c t. check_from u client now ws (i + 1) c t) s
          (poll_watch u client now w s) e (λ c t. check_from-raises ws (i + 1) c t e) (rw b at h)
  ]

  pub check_watched-raises :
      (s : Poll) (e : Failure) → (check_watched u client now s).1 ≡ some e → is_rate_limit e ≡ true
  unfolding check_watched
  check_watched-raises s e h =
      check_from-raises (watch_queue s.db.watches) 0 0
        (record s { summary = record s.summary { watch_total = length s.db.watches } }) e h
