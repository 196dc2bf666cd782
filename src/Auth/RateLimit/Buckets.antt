-- ===== src/Auth/RateLimit/Buckets.antt =====
-- auth/jwt_auth.py: the attempts of one address, and the table without double keys.
use mstdnca_proxmox_tool.Base.{
  ℕ, ◌+◌, ◌≤◌, ◌==◌, ==_iff, ltb, ◌≡◌, refl, ap, sym, ◌∙◌, Bool, true, false, Option, none, some,
  List, [], ◌∷◌, ◌++◌, keep, length, if◌then◌else◌, Bool-cases, Option-cases, inl, inr, arith,
}
use mstdnca_proxmox_tool.Base.Dict.{
  Dict, get, put, pop, get-keep-none, get-keep-some, get-put, get-pop,
}
use mstdnca_proxmox_tool.Auth.RateLimit.{
  window, recent, last_of, is_active, active_entry, attempts, bucket,
}

-- The attempts of a bucket that are recent.
abbrev pub recents : ℕ → List ℕ → ℕ
recents now v = length (keep (recent now) v)

-- Each attempt is no earlier than the one before it.
abbrev pub Rising : List ℕ → Type 0
Rising [] = Unit
Rising (t ∷ []) = Unit
Rising (t ∷ s ∷ v) = (t ≤ s) × Rising (s ∷ v)

-- The last attempt is no later than the clock.
abbrev pub Past : ℕ → List ℕ → Type 0
Past clock [] = Unit
Past clock (t ∷ v) = last_of t v ≤ clock

head-last : (t : ℕ) (v : List ℕ) → Rising (t ∷ v) → t ≤ last_of t v
unfolding last_of
head-last t [] r = omega arith
head-last t (s ∷ v) (a, r) = omega (arith, a, head-last s v r)

pub recents_stale :
    (now t : ℕ) (v : List ℕ)
    → Rising (t ∷ v)
    → recent now (last_of t v) ≡ false
    → recents now (t ∷ v) ≡ 0
unfolding keep last_of recent
recents_stale now t [] r h = ground arith
recents_stale now t (s ∷ v) (a, r) h =
    let ih = recents_stale now s v r h in
    let l = head-last s v r in
    let n : ltb now (t + window) ≡ false = ground (arith, h, l, a) in rw n ih

-- Only what is recent later counts later.
pub recents-keep :
    (now later : ℕ) (v : List ℕ)
    → now ≤ later
    → recents later (keep (recent now) v) ≡ recents later v
unfolding keep recent
recents-keep now later [] l = refl
recents-keep now later (t ∷ v) l = let ih = recents-keep now later v l in ground arith

pub recents_append :
    (now t : ℕ) (v : List ℕ)
    → recents now (v ++ t ∷ []) ≡ recents now v + (if recent now t then 1 else 0)
unfolding keep recent
recents_append now t [] = ground arith
recents_append now t (s ∷ v) = let ih = recents_append now t v in ground arith

pub Rising-snoc : (now : ℕ) (v : List ℕ) → Rising v → Past now v → Rising (v ++ now ∷ [])
unfolding last_of
Rising-snoc now [] r p = tt
Rising-snoc now (t ∷ []) r p = (p, tt)
Rising-snoc now (t ∷ s ∷ v) (a, r) p = (a, Rising-snoc now (s ∷ v) r p)

pub last-snoc : (t now : ℕ) (v : List ℕ) → last_of t (v ++ now ∷ []) ≡ now
unfolding last_of
last-snoc t now [] = refl
last-snoc t now (s ∷ v) = last-snoc s now v

Rising-tail : (t : ℕ) (v : List ℕ) → Rising (t ∷ v) → Rising v
Rising-tail t [] r = tt
Rising-tail t (s ∷ v) (a, r) = r

Past-tail : (clock t : ℕ) (v : List ℕ) → Past clock (t ∷ v) → Past clock v
unfolding last_of
Past-tail clock t [] p = tt
Past-tail clock t (s ∷ v) p = p

keep_all :
    (now t : ℕ) (v : List ℕ)
    → Rising (t ∷ v)
    → recent now t ≡ true
    → keep (recent now) (t ∷ v) ≡ t ∷ v
unfolding keep recent
keep_all now t [] r h = rw h refl
keep_all now t (s ∷ v) (a, r) h =
    let n : ltb now (s + window) ≡ true = ground (arith, h, a) in
    let ih = keep_all now s v r n in rw h (ap (λ x. t ∷ x) ih)

pub Rising-keep : (now : ℕ) (v : List ℕ) → Rising v → Rising (keep (recent now) v)
unfolding keep
Rising-keep now [] r = tt
Rising-keep now (t ∷ v) r = elim (Bool-cases (recent now t)) [
  | inl e ↦ rw (keep_all now t v r e) r
  | inr e ↦ rw e (Rising-keep now v (Rising-tail t v r))
]

pub Past-keep :
    (now clock : ℕ) (v : List ℕ) → Rising v → Past clock v → Past clock (keep (recent now) v)
unfolding keep
Past-keep now clock [] r p = tt
Past-keep now clock (t ∷ v) r p = elim (Bool-cases (recent now t)) [
  | inl e ↦ rw (keep_all now t v r e) p
  | inr e ↦ rw e (Past-keep now clock v (Rising-tail t v r) (Past-tail clock t v p))
]

-- No address has two entries.
abbrev pub Keys : Dict (List ℕ) → Type 0
Keys [] = Unit
Keys ((ip, v) ∷ d) = (get ip d ≡ none) × Keys d

pub Keys-put : (ip : ℕ) (v : List ℕ) (d : Dict (List ℕ)) → Keys d → Keys (put ip v d)
unfolding put get
Keys-put ip v [] k = (refl, tt)
Keys-put ip v ((j, w) ∷ d) (n, k) = elim (Bool-cases (j == ip)) [
  | inl e ↦ rw e (n, k)
  | inr e ↦ rw e (rw (get-put ip j v d) (ground (arith, n, e)), Keys-put ip v d k)
]

pub Keys-pop : (ip : ℕ) (d : Dict (List ℕ)) → Keys d → Keys (pop ip d)
unfolding pop get
Keys-pop ip [] k = tt
Keys-pop ip ((j, w) ∷ d) (n, k) = elim (Bool-cases (j == ip)) [
  | inl e ↦ rw e (Keys-pop ip d k)
  | inr e ↦ rw e (rw (get-pop ip j d) (ground (arith, n, e)), Keys-pop ip d k)
]

pub Keys-keep : (test : ℕ × List ℕ → Bool) (d : Dict (List ℕ)) → Keys d → Keys (keep test d)
unfolding keep
Keys-keep test [] k = tt
Keys-keep test ((j, w) ∷ d) (n, k) = elim (Bool-cases (test (j, w))) [
  | inl e ↦ rw e (get-keep-none test j d n, Keys-keep test d k)
  | inr e ↦ rw e (Keys-keep test d k)
]

get-keep-drop :
    (test : ℕ × List ℕ → Bool) (k : ℕ) (v : List ℕ) (d : Dict (List ℕ))
    → Keys d
    → get k d ≡ some v
    → test (k, v) ≡ false
    → get k (keep test d) ≡ none
unfolding get keep
get-keep-drop test k v [] u h t = refl
get-keep-drop test k v ((j, w) ∷ d) (n, u) h t = elim (Bool-cases (j == k)) [
  | inl e ↦
      let j≡k : j ≡ k = (==_iff j k).0 e in
      let found : some w ≡ some v = rw e at h in
      let same : w ≡ v = cc found in
      let r : test (j, w) ≡ false = rw (j≡k, same) t in rw r (get-keep-none test k d (rw j≡k at n))
  | inr e ↦ elim (Bool-cases (test (j, w))) [
    | inl r ↦ rw (r, e) (get-keep-drop test k v d u (rw e at h) t)
    | inr r ↦ rw r (get-keep-drop test k v d u (rw e at h) t)
  ]
]

-- What the pruning leaves of the bucket of an address.
pub attempts-keep :
    (now ip : ℕ) (d : Dict (List ℕ))
    → Keys d
    → attempts ip (keep (active_entry now) d)
      ≡ (if is_active now (attempts ip d) then attempts ip d else [])
unfolding attempts
attempts-keep now ip d u = elim (Option-cases (get ip d)) [
  | inl e ↦ ap bucket (get-keep-none (active_entry now) ip d e) ∙ sym (empty e)
  | inr (v, e) ↦ elim (Bool-cases (is_active now v)) [
    | inl a ↦
        ap bucket (get-keep-some (active_entry now) ip v d e (unfold active_entry in a))
        ∙ sym (stays v e a)
    | inr a ↦
        ap bucket (get-keep-drop (active_entry now) ip v d u e (unfold active_entry in a))
        ∙ sym (goes v e a)
  ]
]
  where
    empty :
        get ip d ≡ none → (if is_active now (bucket (get ip d)) then bucket (get ip d) else []) ≡ []
    empty e = rw e (unfold is_active in refl)

    stays :
        (v : List ℕ)
        → get ip d ≡ some v
        → is_active now v ≡ true
        → (if is_active now (bucket (get ip d)) then bucket (get ip d) else []) ≡ v
    stays v e a = rw (e, a) refl

    goes :
        (v : List ℕ)
        → get ip d ≡ some v
        → is_active now v ≡ false
        → (if is_active now (bucket (get ip d)) then bucket (get ip d) else []) ≡ []
    goes v e a = rw (e, a) refl

bucket-if :
    (test : Bool) (x y : Option (List ℕ))
    → bucket (if test then x else y) ≡ (if test then bucket x else bucket y)
bucket-if true x y = refl
bucket-if false x y = refl

pub attempts-put :
    (ip j : ℕ) (v : List ℕ) (d : Dict (List ℕ))
    → attempts j (put ip v d) ≡ (if ip == j then v else attempts j d)
unfolding attempts
attempts-put ip j v d = ap bucket (get-put ip j v d) ∙ bucket-if (ip == j) (some v) (get j d)

pub attempts-pop :
    (ip j : ℕ) (d : Dict (List ℕ)) → attempts j (pop ip d) ≡ (if ip == j then [] else attempts j d)
unfolding attempts
attempts-pop ip j d = ap bucket (get-pop ip j d) ∙ bucket-if (ip == j) none (get j d)
