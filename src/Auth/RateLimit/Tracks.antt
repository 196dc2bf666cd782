-- ===== src/Auth/RateLimit/Tracks.antt =====
-- auth/jwt_auth.py: what ties the table of the failed logins to the full log of them.
use mstdnca_proxmox_tool.Base.{
  ℕ, ◌+◌, ◌≤◌, ◌==◌, ==_iff, ltb, ◌≡◌, refl, sym, ◌∙◌, true, false, ◌&&◌, List, [], ◌∷◌, ◌++◌, keep,
  length, if◌then◌else◌, subst, Bool-cases, inl, inr, arith,
}
use mstdnca_proxmox_tool.Base.Dict.{Dict}
use mstdnca_proxmox_tool.Auth.RateLimit.{
  recent, last_of, is_active, active_entry, max_keys, prune_attempts, attempts, store_recent,
}
use mstdnca_proxmox_tool.Auth.RateLimit.Buckets.{
  recents, Rising, Past, recents_stale, last-snoc, Keys, Keys-put, Keys-pop, Keys-keep,
  attempts-keep, attempts-put, attempts-pop,
}

-- The failed logins of the address in the log that are recent.
unfoldable pub logged : ℕ → ℕ → List (ℕ × ℕ) → ℕ
logged ip now [] = 0
logged ip now ((j, t) ∷ log) = logged ip now log + (if (j == ip) && recent now t then 1 else 0)

-- The addresses with recent failures are at most `_API_FAIL_MAX_KEYS`.
abbrev pub Roomy : ℕ → Dict (List ℕ) → Type 0
Roomy now d = length (keep (active_entry now) d) ≤ max_keys

-- The buckets count as the log does, from the clock on.
pub record Tracks (clock : ℕ) (d : Dict (List ℕ)) (log : List (ℕ × ℕ)) : Type 0 where
  pub keys : Keys d
  pub rising : (ip : ℕ) → Rising (attempts ip d)
  pub past : (ip : ℕ) → Past clock (attempts ip d)
  pub counted : (ip now : ℕ) → clock ≤ now → recents now (attempts ip d) ≡ logged ip now log

pub Past-later : (clock now : ℕ) (v : List ℕ) → clock ≤ now → Past clock v → Past now v
Past-later clock now [] l p = tt
Past-later clock now (t ∷ v) l p = omega (arith, l, p)

pub Past-snoc : (now later : ℕ) (v : List ℕ) → now ≤ later → Past later (v ++ now ∷ [])
unfolding last_of
Past-snoc now later [] l = l
Past-snoc now later (t ∷ v) l = rw (last-snoc t now v) l

still_stale : (now later t : ℕ) → now ≤ later → recent now t ≡ false → recent later t ≡ false
unfolding recent
still_stale now later t l h = ground arith

recents_inactive :
    (now later : ℕ) (v : List ℕ)
    → Rising v
    → now ≤ later
    → is_active now v ≡ false
    → recents later v ≡ 0
unfolding is_active
recents_inactive now later [] r l h = unfold keep in refl
recents_inactive now later (t ∷ v) r l h =
    recents_stale later t v r (still_stale now later (last_of t v) l h)

-- An address' bucket after a pruning, with what it was before.
pruned_bucket :
    (now : ℕ) (d : Dict (List ℕ)) (P : List ℕ → Type 0) (ip : ℕ)
    → Keys d
    → (is_active now (attempts ip d) ≡ true → P (attempts ip d))
    → (is_active now (attempts ip d) ≡ false → P [])
    → P (attempts ip (keep (active_entry now) d))
pruned_bucket now d P ip k stays goes = elim (Bool-cases (is_active now (attempts ip d))) [
  | inl e ↦
      let q : attempts ip (keep (active_entry now) d) ≡ attempts ip d =
        attempts-keep now ip d k ∙ (rw e refl) in
      subst P (sym q) (stays e)
  | inr e ↦
      let q : attempts ip (keep (active_entry now) d) ≡ [] =
        attempts-keep now ip d k ∙ (rw e refl) in
      subst P (sym q) (goes e)
]

pub prune_attempts-Roomy :
    (now : ℕ) (d : Dict (List ℕ)) → Roomy now d → prune_attempts now d ≡ keep (active_entry now) d
unfolding prune_attempts
prune_attempts-Roomy now d r =
    let n : ltb max_keys (length (keep (active_entry now) d)) ≡ false = ground (arith, r) in
    rw n refl

pub prune-Tracks :
    (clock now : ℕ) (d : Dict (List ℕ)) (log : List (ℕ × ℕ))
    → clock ≤ now
    → Tracks clock d log
    → Tracks now (keep (active_entry now) d) log
prune-Tracks clock now d log l t = record {
  keys = Keys-keep (active_entry now) d t.keys;
  rising = λ ip. pruned_bucket now d Rising ip t.keys (λ e. t.rising ip) (λ e. tt);
  past = λ ip.
      pruned_bucket now d (Past now) ip t.keys
        (λ e. Past-later clock now (attempts ip d) l (t.past ip)) (λ e. tt);
  counted = λ ip later k.
      pruned_bucket now d (λ v. recents later v ≡ logged ip later log) ip t.keys
        (λ e. t.counted ip later (omega (arith, l, k)))
        (λ e.
          unfold keep in
          sym (recents_inactive now later (attempts ip d) (t.rising ip) k e)
          ∙ t.counted ip later (omega (arith, l, k)));
}

pub attempts-store :
    (ip j : ℕ) (v : List ℕ) (d : Dict (List ℕ))
    → attempts j (store_recent ip v d) ≡ (if ip == j then v else attempts j d)
unfolding store_recent
attempts-store ip j [] d = attempts-pop ip j d
attempts-store ip j (t ∷ v) d = attempts-put ip j (t ∷ v) d

pub Keys-store : (ip : ℕ) (v : List ℕ) (d : Dict (List ℕ)) → Keys d → Keys (store_recent ip v d)
unfolding store_recent
Keys-store ip [] d k = Keys-pop ip d k
Keys-store ip (t ∷ v) d k = Keys-put ip (t ∷ v) d k

-- The bucket of one address is replaced.
replaced :
    (ip j : ℕ) (v w x : List ℕ) (P : List ℕ → Type 0)
    → x ≡ (if ip == j then v else w)
    → (ip ≡ j → P v)
    → ((ip == j) ≡ false → P w)
    → P x
replaced ip j v w x P e here there = elim (Bool-cases (ip == j)) [
  | inl p ↦ let q : x ≡ v = rw p at e in subst P (sym q) (here ((==_iff ip j).0 p))
  | inr p ↦ let q : x ≡ w = rw p at e in subst P (sym q) (there p)
]

pub replace-Tracks :
    (clock ip : ℕ) (v : List ℕ) (d d' : Dict (List ℕ)) (log log' : List (ℕ × ℕ))
    → Tracks clock d log
    → Keys d'
    → ((j : ℕ) → attempts j d' ≡ (if ip == j then v else attempts j d))
    → Rising v
    → Past clock v
    → ((now : ℕ) → clock ≤ now → recents now v ≡ logged ip now log')
    → ((j now : ℕ) → (ip == j) ≡ false → logged j now log ≡ logged j now log')
    → Tracks clock d' log'
replace-Tracks clock ip v d d' log log' t k a r p c o = record {
  keys = k;
  rising =
      λ j. replaced ip j v (attempts j d) (attempts j d') Rising (a j) (λ e. r) (λ e. t.rising j);
  past = λ j.
      replaced ip j v (attempts j d) (attempts j d') (Past clock) (a j) (λ e. p) (λ e. t.past j);
  counted = λ j now l.
      replaced ip j v (attempts j d) (attempts j d') (λ x. recents now x ≡ logged j now log') (a j)
        (λ e. rw e at (c now l)) (λ e. t.counted j now l ∙ o j now e);
}

pub later-Tracks :
    (clock now : ℕ) (d : Dict (List ℕ)) (log : List (ℕ × ℕ))
    → clock ≤ now
    → Tracks clock d log
    → Tracks now d log
later-Tracks clock now d log l t = record {
  keys = t.keys;
  rising = t.rising;
  past = λ ip. Past-later clock now (attempts ip d) l (t.past ip);
  counted = λ ip later k. t.counted ip later (omega (arith, l, k));
}
