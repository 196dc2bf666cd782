-- ===== src/Auth/Adhoc/Single.antt =====
-- core/adhoc_credentials.py: a token is good for one call of `take_credentials`, over any sequence
-- of calls.
use mstdnca_proxmox_tool.Base.{
  ℕ, zero, suc, ◌≡◌, ◌≢◌, refl, String, Option, none, some, List, [], ◌∷◌, arith,
}
use mstdnca_proxmox_tool.Base.Dict.{Dict, get, get-put, get-pop, get-keep-none}
use mstdnca_proxmox_tool.Auth.Adhoc.{
  Entry, oldest, pop_oldest, drop_to_cap, live, prune, store_credentials, take_credentials, discard,
  clear,
}

pub data Call : Type 0 where
  store : ℕ → ℕ → ℕ → ℕ → String → String → Call
  take : Option ℕ → ℕ → ℕ → ℕ → Call
  drop : Option ℕ → Call
  wipe : Call

apply : Dict Entry → Call → Dict Entry
apply d (store token now user guest name password) =
    store_credentials token now user guest name password d
apply d (take token now user guest) = (take_credentials token now user guest d).0
apply d (drop token) = discard token d
apply d wipe = clear d

unfoldable pub run : Dict Entry → List Call → Dict Entry
unfolding apply
run d [] = d
run d (c ∷ cs) = run (apply d c) cs

-- No call issues `token` again: `secrets.token_urlsafe` draws a fresh one.
abbrev pub NotIssued : ℕ → List Call → Type 0
NotIssued token [] = Unit
NotIssued token (store t now user guest name password ∷ cs) = (t ≢ token) × NotIssued token cs
NotIssued token (c ∷ cs) = NotIssued token cs

module _ (token : ℕ) where
  pub pop_oldest-none : (d : Dict Entry) → get token d ≡ none → get token (pop_oldest d) ≡ none
  unfolding pop_oldest
  pop_oldest-none [] h = h
  pop_oldest-none (e ∷ d) h = ground (arith, get-pop (oldest e d).0 token (e ∷ d))

  pub drop_to_cap-none :
      (fuel : ℕ) (d : Dict Entry) → get token d ≡ none → get token (drop_to_cap fuel d) ≡ none
  unfolding drop_to_cap
  drop_to_cap-none zero d h = h
  drop_to_cap-none (suc fuel) d h =
      ground (arith, pop_oldest-none d h, drop_to_cap-none fuel (pop_oldest d))

  pub prune-none : (now : ℕ) (d : Dict Entry) → get token d ≡ none → get token (prune now d) ≡ none
  unfolding prune
  prune-none now d h = drop_to_cap-none _ (live now d) (unfold live in get-keep-none _ token d h)

  apply-none :
      (d : Dict Entry) (c : Call)
      → NotIssued token (c ∷ [])
      → get token d ≡ none
      → get token (apply d c) ≡ none
  unfolding apply store_credentials take_credentials discard clear
  apply-none d (store t now user guest name password) n h =
      rw get-put (ground (arith, prune-none now d h))
  apply-none d (take none now user guest) n h = h
  apply-none d (take (some t) now user guest) n h =
      ground (arith, get-pop t token (prune now d), prune-none now d h)
  apply-none d (drop none) n h = h
  apply-none d (drop (some t)) n h = ground (arith, get-pop t token d)
  apply-none d wipe n h = unfold get in refl

  run-none :
      (d : Dict Entry) (cs : List Call)
      → NotIssued token cs
      → get token d ≡ none
      → get token (run d cs) ≡ none
  unfolding run
  run-none d [] n h = h
  run-none d (store t now user guest name password ∷ cs) n h =
      run-none (apply d (store t now user guest name password)) cs n.1
        (apply-none d (store t now user guest name password) (n.0, tt) h)
  run-none d (take t now user guest ∷ cs) n h =
      run-none (apply d (take t now user guest)) cs n (apply-none d (take t now user guest) tt h)
  run-none d (drop t ∷ cs) n h = run-none (apply d (drop t)) cs n (apply-none d (drop t) tt h)
  run-none d (wipe ∷ cs) n h = run-none (apply d wipe) cs n (apply-none d wipe tt h)

  take-none :
      (now user guest : ℕ) (d : Dict Entry)
      → get token d ≡ none
      → (take_credentials (some token) now user guest d).1 ≡ none
  unfolding take_credentials
  take-none now user guest d h = ground (arith, prune-none now d h)

  take-gone :
      (now user guest : ℕ) (d : Dict Entry)
      → get token (take_credentials (some token) now user guest d).0 ≡ none
  unfolding take_credentials
  take-gone now user guest d = ground (arith, get-pop token token (prune now d))

  -- Whoever asks first, rightly or not, uses a token up: after one `take_credentials` for it, and
  -- any further calls that do not issue it again, every later `take_credentials` for it gives none.
  pub single_use :
      (now user guest later user' guest' : ℕ) (d : Dict Entry) (cs : List Call)
      → NotIssued token cs
      → (take_credentials
          (some token)
          later
          user'
          guest'
          (run (take_credentials (some token) now user guest d).0 cs)).1
        ≡ none
  single_use now user guest later user' guest' d cs n =
      take-none later user' guest' _ (run-none _ cs n (take-gone now user guest d))
