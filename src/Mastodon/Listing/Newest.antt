-- ===== src/Mastodon/Listing/Newest.antt =====
-- core/mastodon_admin.py, `list_local_accounts`: it stops early and misses nothing.
use mstdnca_proxmox_tool.Base.{
  ℕ, zero, suc, ◌≤◌, ltb, ◌⊎◌, ◌≡◌, refl, ap, sym, ◌∙◌, true, false, Option, none, some, List, [],
  ◌∷◌, ◌++◌, map, keep, keep-append, Bool-cases, Option-cases, inl, inr, if◌then◌else◌, arith,
}
use mstdnca_proxmox_tool.Base.Text.{Text}
use mstdnca_proxmox_tool.Watch.{Account, Failure, Api, answer, api_error}
use mstdnca_proxmox_tool.Mastodon.Listing.{
  AdminAccount, Reply, listing, other, Server, unexpected, on_answer, next_of, older, page_oldest,
  is_wanted, after_cutoff, wanted, reached, get_all, list_newer, summary_of,
}

-- The accounts are dated, each no later than the one before it, and the first no later than `b`.
abbrev pub NewestFirst : ℕ → List AdminAccount → Type 0
NewestFirst b [] = Unit
NewestFirst b (a ∷ items) = (t : ℕ) × (a.created_at ≡ some t) × (t ≤ b) × NewestFirst t items

NewestFirst-later :
    (b c : ℕ) (items : List AdminAccount) → b ≤ c → NewestFirst b items → NewestFirst c items
NewestFirst-later b c [] l h = tt
NewestFirst-later b c (a ∷ items) l (t, e, m, r) = (t, e, omega (arith, l, m), r)

NewestFirst-drop : (b : ℕ) (xs ys : List AdminAccount) → NewestFirst b (xs ++ ys) → NewestFirst b ys
NewestFirst-drop b [] ys h = h
NewestFirst-drop b (a ∷ xs) ys (t, e, m, r) =
    NewestFirst-later t b ys m (NewestFirst-drop t xs ys r)

-- The oldest local account of a page is in bounds, and what follows the page is no later than it.
after_page :
    (b o : ℕ) (xs ys : List AdminAccount)
    → NewestFirst b (xs ++ ys)
    → page_oldest xs ≡ some o
    → (o ≤ b) × NewestFirst o ys
unfolding page_oldest older
after_page b o [] ys h e = cc e
after_page b o (a ∷ xs) ys (t, d, m, r) e = elim (Bool-cases a.remote) [
  | inl p ↦ let (l, n) = after_page t o xs ys r (rw p at e) in (omega (arith, l, m), n)
  | inr p ↦ elim (Option-cases (page_oldest xs)) [
    | inl q ↦
        let k : some t ≡ some o = rw (p, d, q) at e in
        let same : t ≡ o = cc k in (omega (arith, same, m), rw same at (NewestFirst-drop t xs ys r))
    | inr (o', q) ↦
        let (l, n) = after_page t o' xs ys r q in
        let k : some (if ltb t o' then t else o') ≡ some o = rw (p, d, q) at e in
        let c : (if ltb t o' then t else o') ≡ o = cc k in
        let same : o' ≡ o = ground (arith, c, l) in (omega (arith, same, l, m), rw same at n)
  ]
]

wanted_nothing :
    (cutoff b : ℕ) (items : List AdminAccount)
    → b ≤ cutoff
    → NewestFirst b items
    → wanted cutoff items ≡ []
unfolding wanted keep is_wanted
wanted_nothing cutoff b [] l h = refl
wanted_nothing cutoff b (a ∷ items) l (t, e, m, r) =
    let ih = wanted_nothing cutoff t items (omega (arith, l, m)) r in
    let late : ltb cutoff t ≡ false = ground (arith, l, m) in
    elim (Bool-cases a.remote) [
      | inl p ↦ rw p ih
      | inr p ↦ rw (p, e) (unfold after_cutoff in rw late ih)
    ]

map-append :
    (f : AdminAccount → Account) (xs ys : List AdminAccount)
    → map f (xs ++ ys) ≡ map f xs ++ map f ys
map-append f [] ys = refl
map-append f (x ∷ xs) ys = ap (λ l. f x ∷ l) (map-append f xs ys)

wanted-append :
    (cutoff : ℕ) (xs ys : List AdminAccount)
    → wanted cutoff (xs ++ ys) ≡ wanted cutoff xs ++ wanted cutoff ys
unfolding wanted
wanted-append cutoff xs ys =
    ap (map summary_of) (keep-append (is_wanted cutoff) xs ys)
    ∙ map-append summary_of (keep (is_wanted cutoff) xs) (keep (is_wanted cutoff) ys)

append_nil : (xs : List Account) → xs ++ [] ≡ xs
append_nil [] = refl
append_nil (x ∷ xs) = ap (λ l. x ∷ l) (append_nil xs)

on_answer-elim :
    {A B : Type 0} (f : A → B) (x : Api A) (b : B)
    → on_answer f x ≡ answer b
    → (a : A) × (x ≡ answer a) × (f a ≡ b)
unfolding on_answer
on_answer-elim f (answer a) b h = (a, refl, cc h)
on_answer-elim f (api_error e) b h = cc h

reached-elim :
    (cutoff : ℕ) (oldest : Option ℕ)
    → reached cutoff oldest ≡ true
    → (o : ℕ) × (oldest ≡ some o) × (o ≤ cutoff)
unfolding reached
reached-elim cutoff none h = cc h
reached-elim cutoff (some o) h = (o, refl, ground arith)

reply_cases :
    (x : Api Reply)
    → ((e : Failure) × (x ≡ api_error e))
      ⊎ ((x ≡ answer other)
          ⊎ ((items : List AdminAccount) × (next : Option Text) × (x
                ≡ answer (listing items next))))
reply_cases (api_error e) = inl (e, refl)
reply_cases (answer other) = inr (inl refl)
reply_cases (answer (listing items next)) = inr (inr (items, next, refl))

module _ (server : Server) where
  page_step :
      (cutoff b pages : ℕ) (items all : List AdminAccount) (next : Option Text)
      → ((all : List AdminAccount) (c : ℕ)
          → get_all server pages (next_of items next) ≡ answer all
          → NewestFirst c all
          → list_newer server cutoff pages (next_of items next) ≡ answer (wanted cutoff all))
      → on_answer (λ rest. items ++ rest) (get_all server pages (next_of items next)) ≡ answer all
      → NewestFirst b all
      → (if reached cutoff (page_oldest items)
          then answer (wanted cutoff items)
          else on_answer
              (λ more. wanted cutoff items ++ more)
              (list_newer server cutoff pages (next_of items next)))
        ≡ answer (wanted cutoff all)
  page_step cutoff b pages items all next ih h sorted =
      let (rest, e, p) =
        on_answer-elim (λ rest. items ++ rest) (get_all server pages (next_of items next)) all h in
      let s : NewestFirst b (items ++ rest) = rw (← p) at sorted in
      let tail = ih rest b e (NewestFirst-drop b items rest s) in
      let split : wanted cutoff all ≡ wanted cutoff items ++ wanted cutoff rest =
        ap (wanted cutoff) (sym p) ∙ wanted-append cutoff items rest in
      elim (Bool-cases (reached cutoff (page_oldest items))) [
        | inr f ↦ rw f (
            ap (on_answer (λ more. wanted cutoff items ++ more)) tail
            ∙ (unfold on_answer in ap (λ w. answer w) (sym split)))
        | inl f ↦
            let (o, q, l) = reached-elim cutoff (page_oldest items) f in
            let nothing = wanted_nothing cutoff o rest l (after_page b o items rest s q).1 in
            rw f (
              ap (λ w. answer w)
                (sym (
                  split
                  ∙ (ap (λ w. wanted cutoff items ++ w) nothing
                      ∙ append_nil (wanted cutoff items)))))
      ]

  -- Where Mastodon lists the accounts newest first and answers every page that the limit of pages
  -- allows, the list that stops at the first page that reaches the cutoff has exactly the local
  -- accounts after the cutoff of all those pages.
  pub list_newer_complete :
      (cutoff b pages : ℕ) (url : Option Text) (all : List AdminAccount)
      → get_all server pages url ≡ answer all
      → NewestFirst b all
      → list_newer server cutoff pages url ≡ answer (wanted cutoff all)
  unfolding get_all list_newer wanted keep
  list_newer_complete cutoff b pages none all h s =
      let e : [] ≡ all = cc h in ap (λ x. answer (wanted cutoff x)) e
  list_newer_complete cutoff b zero (some url) all h s =
      let e : [] ≡ all = cc h in ap (λ x. answer (wanted cutoff x)) e
  list_newer_complete cutoff b (suc pages) (some url) all h s = elim (reply_cases (server url)) [
    | inl (e, p) ↦ let k : api_error e ≡ answer all = rw (get_all, p) at h in cc k
    | inr (inl p) ↦ let k : api_error unexpected ≡ answer all = rw (get_all, p) at h in cc k
    | inr (inr (items, next, p)) ↦
        rw (list_newer, p)
          (page_step cutoff b pages items all next
            (λ rest c g t. list_newer_complete cutoff c pages (next_of items next) rest g t)
            (rw (get_all, p) at h) s)
  ]
