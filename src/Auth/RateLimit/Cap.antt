-- ===== src/Auth/RateLimit/Cap.antt =====
-- auth/jwt_auth.py: the cap on the addresses of the table.
use mstdnca_proxmox_tool.Base.{
  ℕ, zero, suc, ◌+◌, ◌-◌, ◌≤◌, ◌==◌, ==_iff, ◌≡◌, ◌≢◌, refl, ap, sym, ◌∙◌, ltb, false, Option, none,
  some, List, [], ◌∷◌, ◌++◌, keep, length, take, Bool-cases, inl, inr, if◌then◌else◌, arith,
}
use mstdnca_proxmox_tool.Base.Dict.{Dict, get, put, pop, get-pop, length-pop}
use mstdnca_proxmox_tool.Auth.RateLimit.{
  active_entry, newest, insert_entry, least_recent_first, delete_all, max_keys, prune_attempts,
  attempts, record_api_failed_login,
}
use mstdnca_proxmox_tool.Auth.RateLimit.Buckets.{Keys, Keys-keep, Keys-put}

-- The keys of the first dictionary are all in the second.
abbrev Within : Dict (List ℕ) → Dict (List ℕ) → Type 0
Within [] d = Unit
Within ((ip, v) ∷ stale) d = (get ip d ≢ none) × Within stale d

length-pop-get : (ip : ℕ) (d : Dict (List ℕ)) → get ip d ≢ none → length (pop ip d) + 1 ≤ length d
unfolding get pop
length-pop-get ip [] n = absurd (n refl)
length-pop-get ip ((j, v) ∷ d) n = elim (Bool-cases (j == ip)) [
  | inl e ↦ let l = length-pop ip d in rw e (omega (arith, l))
  | inr e ↦ let l = length-pop-get ip d (rw e at n) in rw e (omega (arith, l))
]

Within-pop :
    (ip : ℕ) (stale d : Dict (List ℕ))
    → get ip stale ≡ none
    → Within stale d
    → Within stale (pop ip d)
unfolding get
Within-pop ip [] d n w = tt
Within-pop ip ((j, v) ∷ stale) d n (a, w) = elim (Bool-cases (j == ip)) [
  | inl e ↦ let k : some v ≡ none = rw e at n in cc k
  | inr e ↦
      (λ h. a (sym (get-pop ip j d ∙ other ip j d e) ∙ h), Within-pop ip stale d (rw e at n) w)
]
  where
    other :
        (ip j : ℕ) (d : Dict (List ℕ))
        → (j == ip) ≡ false
        → (if ip == j then none else get j d) ≡ get j d
    other ip j d e = ground (arith, e)

-- Each deletion drops an entry.
length-delete_all :
    (stale d : Dict (List ℕ))
    → Keys stale
    → Within stale d
    → length (delete_all stale d) + length stale ≤ length d
unfolding delete_all
length-delete_all [] d k w = omega arith
length-delete_all ((ip, v) ∷ stale) d (n, k) (a, w) =
    let l = length-pop-get ip d a in
    let m = length-delete_all stale (pop ip d) k (Within-pop ip stale d n w) in omega (arith, l, m)

behind :
    (j ip k : ℕ) (w v rest old : Option (List ℕ))
    → (j == ip) ≡ false
    → rest ≡ (if ip == k then v else old)
    → (if j == k then w else rest) ≡ (if ip == k then v else if j == k then w else old)
behind j ip k w v rest old f h = elim (Bool-cases (j == k)) [
  | inl e ↦ let apart : (ip == k) ≡ false = ground (arith, e, f) in rw (e, apart) refl
  | inr e ↦ rw e h
]

get-insert_entry :
    (ip k : ℕ) (v : List ℕ) (d : Dict (List ℕ))
    → get ip d ≡ none
    → get k (insert_entry (ip, v) d) ≡ (if ip == k then some v else get k d)
unfolding get insert_entry
get-insert_entry ip k v [] n = refl
get-insert_entry ip k v ((j, w) ∷ d) n = elim (Bool-cases (ltb (newest w) (newest v))) [
  | inr e ↦ rw e refl
  | inl e ↦ elim (Bool-cases (j == ip)) [
    | inl f ↦ let q : some w ≡ none = rw f at n in cc q
    | inr f ↦
        let ih = get-insert_entry ip k v d (rw f at n) in
        rw e (behind j ip k (some w) (some v) (get k (insert_entry (ip, v) d)) (get k d) f ih)
  ]
]

length-insert_entry :
    (e : ℕ × List ℕ) (d : Dict (List ℕ)) → length (insert_entry e d) ≡ length d + 1
unfolding insert_entry
length-insert_entry (ip, v) [] = omega arith
length-insert_entry (ip, v) ((j, w) ∷ d) = ground (arith, length-insert_entry (ip, v) d)

length-least_recent_first : (d : Dict (List ℕ)) → length (least_recent_first d) ≡ length d
unfolding least_recent_first
length-least_recent_first [] = refl
length-least_recent_first (e ∷ d) =
    let l = length-least_recent_first d in
    omega (arith, l, length-insert_entry e (least_recent_first d))

get-least_recent_first :
    (k : ℕ) (d : Dict (List ℕ)) → Keys d → get k (least_recent_first d) ≡ get k d
unfolding get least_recent_first
get-least_recent_first k [] h = refl
get-least_recent_first k ((ip, v) ∷ d) (n, h) =
    get-insert_entry ip k v (least_recent_first d) (get-least_recent_first ip d h ∙ n)
    ∙ ap (λ o. if ip == k then some v else o) (get-least_recent_first k d h)

Keys-insert_entry :
    (ip : ℕ) (v : List ℕ) (d : Dict (List ℕ))
    → get ip d ≡ none
    → Keys d
    → Keys (insert_entry (ip, v) d)
unfolding get insert_entry
Keys-insert_entry ip v [] n k = (refl, tt)
Keys-insert_entry ip v ((j, w) ∷ d) n (a, k) = elim (Bool-cases (ltb (newest w) (newest v))) [
  | inr e ↦ rw e (n, (a, k))
  | inl e ↦ elim (Bool-cases (j == ip)) [
    | inl f ↦ let q : some w ≡ none = rw f at n in cc q
    | inr f ↦
        let free : get ip d ≡ none = rw f at n in
        let apart : (ip == j) ≡ false = ground (arith, f) in
        let absent : get j (insert_entry (ip, v) d) ≡ none =
          get-insert_entry ip j v d free ∙ (rw apart a) in
        rw e (absent, Keys-insert_entry ip v d free k)
  ]
]

Keys-least_recent_first : (d : Dict (List ℕ)) → Keys d → Keys (least_recent_first d)
unfolding least_recent_first
Keys-least_recent_first [] k = tt
Keys-least_recent_first ((ip, v) ∷ d) (n, k) =
    Keys-insert_entry ip v (least_recent_first d) (get-least_recent_first ip d k ∙ n)
      (Keys-least_recent_first d k)

Within-get :
    (stale d : Dict (List ℕ))
    → Keys stale
    → ((k : ℕ) → get k stale ≢ none → get k d ≢ none)
    → Within stale d
unfolding get
Within-get [] d k h = tt
Within-get ((ip, v) ∷ stale) d (n, k) h =
    (h ip (first ip v stale), Within-get stale d k (λ j m. h j (later ip j v stale n m)))
  where
    first : (ip : ℕ) (v : List ℕ) (stale : Dict (List ℕ)) → get ip ((ip, v) ∷ stale) ≢ none
    first ip v stale q = let e = (==_iff ip ip).1 refl in let z : some v ≡ none = rw e at q in cc z

    later :
        (ip j : ℕ) (v : List ℕ) (stale : Dict (List ℕ))
        → get ip stale ≡ none
        → get j stale ≢ none
        → get j ((ip, v) ∷ stale) ≢ none
    later ip j v stale n m q = elim (Bool-cases (ip == j)) [
      | inl e ↦ let z : some v ≡ none = rw e at q in cc z
      | inr e ↦ m (rw e at q)
    ]

get-take : (n k : ℕ) (d : Dict (List ℕ)) → get k (take n d) ≢ none → get k d ≢ none
unfolding get take
get-take zero k d m = absurd (m refl)
get-take (suc n) k [] m = m
get-take (suc n) k ((j, v) ∷ d) m = elim (Bool-cases (j == k)) [
  | inl e ↦ λ q. let z : some v ≡ none = rw e at q in cc z
  | inr e ↦ λ q. get-take n k d (rw e at m) (rw e at q)
]

Keys-take : (n : ℕ) (d : Dict (List ℕ)) → Keys d → Keys (take n d)
unfolding take
Keys-take zero d k = tt
Keys-take (suc n) [] k = tt
Keys-take (suc n) ((j, v) ∷ d) (a, k) =
    (none_of (get j (take n d)) (λ m. get-take n j d m a), Keys-take n d k)
  where
    none_of : (o : Option (List ℕ)) → ¬ (o ≢ none) → o ≡ none
    none_of none h = refl
    none_of (some v) h = absurd (h (λ e. cc e))

length-take : (n : ℕ) (d : Dict (List ℕ)) → n ≤ length d → length (take n d) ≡ n
unfolding take
length-take zero d l = refl
length-take (suc n) [] l = omega (arith, l)
length-take (suc n) (e ∷ d) l = ap (λ k. suc k) (length-take n d (omega (arith, l)))

-- After a pruning the table has at most 4096 addresses.
pub length-prune_attempts :
    (now : ℕ) (d : Dict (List ℕ)) → Keys d → length (prune_attempts now d) ≤ 4096
unfolding prune_attempts
length-prune_attempts now d k =
    elim (Bool-cases (ltb max_keys (length (keep (active_entry now) d)))) [
      | inr e ↦ rw e (ground (arith, e))
      | inl e ↦
          let kept = keep (active_entry now) d in
          let keys = Keys-keep (active_entry now) d k in
          let sorted = least_recent_first kept in
          let n = length kept - max_keys in
          let stale = take n sorted in
          let over : max_keys ≤ length kept = ground (arith, e) in
          let l = length-take n sorted (omega (arith, length-least_recent_first kept)) in
          let w =
            Within-get stale kept (Keys-take n sorted (Keys-least_recent_first kept keys))
              (λ j m q. get-take n j sorted m (get-least_recent_first j kept keys ∙ q)) in
          let m =
            length-delete_all stale kept (Keys-take n sorted (Keys-least_recent_first kept keys))
              w in
          rw e (omega (arith, l, m, over))
    ]

-- However many addresses fail, a failure leaves at most 4096 of them in the table.
pub length-record_api_failed_login :
    (now later ip : ℕ) (d : Dict (List ℕ))
    → Keys d
    → length (record_api_failed_login now later ip d) ≤ 4096
unfolding record_api_failed_login
length-record_api_failed_login now later ip d k =
    length-prune_attempts later (put ip (attempts ip d ++ now ∷ []) d)
      (Keys-put ip (attempts ip d ++ now ∷ []) d k)
