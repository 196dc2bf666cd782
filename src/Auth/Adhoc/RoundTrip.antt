-- ===== src/Auth/Adhoc/RoundTrip.antt =====
-- core/adhoc_credentials.py: what `take_credentials` gives for a token that was just issued.
use mstdnca_proxmox_tool.Base.{
  ℕ, zero, suc, ◌+◌, ◌≤◌, ◌≡◌, refl, ◌∙◌, ap, String, Bool, true, false, not, ◌&&◌, none, some, [],
  ◌∷◌, ◌++◌, ◌==◌, arith, ltb, leb, if◌then◌else◌, keep, keep-append, Bool-cases, inl, inr, length,
}
use mathlib.Core.List.{append-nil}
use mstdnca_proxmox_tool.Base.Dict.{
  Dict, get, pop, put_fresh, get-last, get-keep-none, pop-append, In-get,
}
use mstdnca_proxmox_tool.Auth.Adhoc.{
  Entry, ttl_seconds, max_entries, oldest, pop_oldest, drop_to_cap, live, prune, release,
  store_credentials, take_credentials,
}
use mstdnca_proxmox_tool.Auth.Adhoc.Cap.{oldest-In}
use mstdnca_proxmox_tool.Auth.Adhoc.Single.{prune-none, drop_to_cap-none, pop_oldest-none}

-- No entry expires after `bound`. With a clock that does not run backwards this holds of the store
-- at any instant `now`, with the bound `now + ttl_seconds`.
abbrev pub AllUntil : ℕ → Dict Entry → Type 0
AllUntil bound [] = Unit
AllUntil bound (e ∷ d) = (e.1.expires_at ≤ bound) × AllUntil bound d

AllUntil-pop : (bound k : ℕ) (d : Dict Entry) → AllUntil bound d → AllUntil bound (pop k d)
unfolding pop
AllUntil-pop bound k [] h = h
AllUntil-pop bound k ((i, e) ∷ d) h = ground (arith, AllUntil-pop bound k d h.1)

AllUntil-keep :
    (bound : ℕ) (test : ℕ × Entry → Bool) (d : Dict Entry)
    → AllUntil bound d
    → AllUntil bound (keep test d)
unfolding keep
AllUntil-keep bound test [] h = h
AllUntil-keep bound test (e ∷ d) h = ground (arith, AllUntil-keep bound test d h.1)

AllUntil-pop_oldest :
    (bound : ℕ) (d : Dict Entry) → AllUntil bound d → AllUntil bound (pop_oldest d)
unfolding pop_oldest
AllUntil-pop_oldest bound [] h = h
AllUntil-pop_oldest bound (e ∷ d) h = AllUntil-pop bound _ (e ∷ d) h

AllUntil-drop_to_cap :
    (bound fuel : ℕ) (d : Dict Entry) → AllUntil bound d → AllUntil bound (drop_to_cap fuel d)
unfolding drop_to_cap
AllUntil-drop_to_cap bound zero d h = h
AllUntil-drop_to_cap bound (suc fuel) d h =
    ground (arith, AllUntil-drop_to_cap bound fuel (pop_oldest d) (AllUntil-pop_oldest bound d h))

AllUntil-prune : (bound now : ℕ) (d : Dict Entry) → AllUntil bound d → AllUntil bound (prune now d)
unfolding prune live
AllUntil-prune bound now d h = AllUntil-drop_to_cap bound _ _ (AllUntil-keep bound _ d h)

abbrev still : ℕ → ℕ × Entry → Bool
still now x = not (leb x.1.expires_at now)

-- The last entry is not the oldest if it expires last.
oldest-append :
    (best x : ℕ × Entry) (d : Dict Entry)
    → best.1.expires_at ≤ x.1.expires_at
    → AllUntil x.1.expires_at d
    → oldest best (d ++ x ∷ []) ≡ oldest best d
unfolding oldest
oldest-append best x [] b h = ground arith
oldest-append best x (e ∷ d) b h =
    oldest-append (if ltb e.1.expires_at best.1.expires_at then e else best) x d (ground arith) h.1

module _ (token : ℕ) (e : Entry) where
  abbrev last : Dict Entry
  last = (token, e) ∷ []

  pop_oldest-append :
      (e' : ℕ × Entry) (d : Dict Entry)
      → AllUntil e.expires_at (e' ∷ d)
      → get token (e' ∷ d) ≡ none
      → pop_oldest (e' ∷ d ++ last) ≡ pop_oldest (e' ∷ d) ++ last
  unfolding pop_oldest
  pop_oldest-append e' d h n = rw (oldest-append e' (token, e) d h.0 h.1) (
      pop-append (oldest e' d).0 token e (e' ∷ d)
        (λ p. In-get (oldest e' d) (e' ∷ d) (oldest-In e' d) (rw p n)))

  -- Dropping down to the cap leaves the last entry alone if it expires last.
  drop_to_cap-append :
      (fuel : ℕ) (d : Dict Entry)
      → AllUntil e.expires_at d
      → get token d ≡ none
      → (d' : Dict Entry) × (drop_to_cap fuel (d ++ last) ≡ d' ++ last) × (get token d' ≡ none)
  unfolding drop_to_cap
  drop_to_cap-append zero d h n = (d, refl, n)
  drop_to_cap-append (suc fuel) [] h n = ([], refl, n)
  drop_to_cap-append (suc fuel) (e' ∷ d) h n =
      elim (Bool-cases (ltb max_entries (length (e' ∷ d ++ last)))) [
        | inl over ↦
            let (d', p, n') =
              drop_to_cap-append fuel (pop_oldest (e' ∷ d)) (AllUntil-pop_oldest _ (e' ∷ d) h)
                (pop_oldest-none token (e' ∷ d) n) in
            (d', rw over (ap (drop_to_cap fuel) (pop_oldest-append e' d h n) ∙ p), n')
        | inr fits ↦ (e' ∷ d, rw fits, n)
      ]

  live_gone :
      (now : ℕ) (d : Dict Entry)
      → leb e.expires_at now ≡ true
      → get token d ≡ none
      → get token (live now (d ++ last)) ≡ none
  unfolding live keep get
  live_gone now d gone n = rw (keep-append, gone, append-nil) (get-keep-none (still now) token d n)

  live_there :
      (now : ℕ) (d : Dict Entry)
      → leb e.expires_at now ≡ false
      → live now (d ++ last) ≡ live now d ++ last
  unfolding live keep
  live_there now d there = rw (keep-append, there)

  get-prune-last :
      (now : ℕ) (d : Dict Entry)
      → AllUntil e.expires_at d
      → get token d ≡ none
      → get token (prune now (d ++ last)) ≡ (if leb e.expires_at now then none else some e)
  unfolding prune
  get-prune-last now d h n = elim (Bool-cases (leb e.expires_at now)) [
    | inl gone ↦ rw gone (drop_to_cap-none token _ (live now (d ++ last)) (live_gone now d gone n))
    | inr there ↦
        let size = length (live now (d ++ last)) in
        let (d', p, n') =
          drop_to_cap-append size (live now d)
            (unfold live in AllUntil-keep e.expires_at (still now) d h)
            (unfold live in get-keep-none (still now) token d n) in
        rw there (
          ap (λ x. get token (drop_to_cap size x)) (live_there now d there)
          ∙ (ap (get token) p ∙ get-last token e d' n'))
  ]

-- The holder gets the credentials back, and nobody else does: from the issue until 300 seconds
-- later the token gives exactly what was stored to the user and guest it was issued for, and none
-- to any other user or guest; from then on it gives none. The token must be new to the store, and
-- the clock must not have run backwards; the store may be full.
pub take-store_credentials :
    (token now user guest later user' guest' : ℕ) (name password : String) (d : Dict Entry)
    → get token d ≡ none
    → AllUntil (now + ttl_seconds) d
    → (take_credentials
        (some token)
        later
        user'
        guest'
        (store_credentials token now user guest name password d)).1
      ≡ (if ltb later (now + ttl_seconds) && (user == user' && guest == guest')
          then some (name, password)
          else none)
unfolding take_credentials store_credentials
take-store_credentials token now user guest later user' guest' name password d new h =
    let e : Entry = record {
      user_id = user;
      guest_id = guest;
      username = name;
      password = password;
      expires_at = now + ttl_seconds;
    } in
    let fresh : get token (prune now d) ≡ none = prune-none token now d new in
    ap (λ x. release later user' guest' (get token (prune later x)))
      (put_fresh token e (prune now d) fresh)
    ∙ (ap (release later user' guest')
          (get-prune-last token e later (prune now d) (AllUntil-prune _ now d h) fresh)
        ∙ (unfold release in ground arith))
