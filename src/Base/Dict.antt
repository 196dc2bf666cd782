-- ===== src/Base/Dict.antt =====
-- Python's `dict` keyed by numbers, in insertion order: writing to a key that is there keeps its
-- place, a new key goes to the end.
use Prim.Native.Nat.{ℕ, ◌+◌, ◌≤◌}
use mathlib.Core.Path.{◌≡◌, refl}
use mathlib.Core.Logic.{◌≢◌, inl, inr}
use mathlib.Core.Bool.{Bool, true}
use mathlib.Core.Option.{Option, none, some}
use mathlib.Core.List.{List, [], ◌∷◌, ◌++◌}
use native.Mathlib.Omega.{arith}
use mstdnca_proxmox_tool.Base.Tests.{◌==◌, ==_iff, Bool-cases, if◌then◌else◌}
use mstdnca_proxmox_tool.Base.Lists.{length, In, keep}

abbrev pub Dict {ℓ} : Type ℓ → Type ℓ
Dict V = List (ℕ × V)

module _ {ℓ} {V : Type ℓ} where
  -- `d.get(k)`
  unfoldable pub get : ℕ → Dict V → Option V
  get k [] = none
  get k ((j, v) ∷ d) = if j == k then some v else get k d

  -- `d[k] = v`
  unfoldable pub put : ℕ → V → Dict V → Dict V
  put k v [] = (k, v) ∷ []
  put k v ((j, w) ∷ d) = if j == k then (j, v) ∷ d else (j, w) ∷ put k v d

  -- `d.pop(k, None)`: no key occurs twice in a dict, so dropping every entry of `k` is the pop.
  unfoldable pub pop : ℕ → Dict V → Dict V
  pop k [] = []
  pop k ((j, w) ∷ d) = let rest = pop k d in if j == k then rest else (j, w) ∷ rest

  pub get-put :
      (k j : ℕ) (v : V) (d : Dict V) → get j (put k v d) ≡ (if k == j then some v else get j d)
  unfolding get put
  get-put k j v [] = refl
  get-put k j v ((i, w) ∷ d) = ground (arith, get-put k j v d)

  pub get-pop : (k j : ℕ) (d : Dict V) → get j (pop k d) ≡ (if k == j then none else get j d)
  unfolding get pop
  get-pop k j [] = ground arith
  get-pop k j ((i, w) ∷ d) = ground (arith, get-pop k j d)

  pub length-put : (k : ℕ) (v : V) (d : Dict V) → length (put k v d) ≤ length d + 1
  unfolding put
  length-put k v [] = omega arith
  length-put k v ((i, w) ∷ d) = ground (arith, length-put k v d)

  pub length-pop : (k : ℕ) (d : Dict V) → length (pop k d) ≤ length d
  unfolding pop
  length-pop k [] = omega arith
  length-pop k ((i, w) ∷ d) = ground (arith, length-pop k d)

pub ruleset dict_laws = (get-put, get-pop)

module _ {V : Type 0} where
  -- A new key goes to the end.
  pub put_fresh : (k : ℕ) (v : V) (d : Dict V) → get k d ≡ none → put k v d ≡ d ++ (k, v) ∷ []
  unfolding get put
  put_fresh k v [] h = refl
  put_fresh k v ((i, w) ∷ d) h = ground (arith, put_fresh k v d)

  pub length-pop-In : (e : ℕ × V) (d : Dict V) → In e d → length (pop e.0 d) + 1 ≤ length d
  unfolding pop
  length-pop-In e [] i = absurd i
  length-pop-In e ((i, w) ∷ d) (inl p) = ground (arith, length-pop e.0 d, p)
  length-pop-In e ((i, w) ∷ d) (inr p) = ground (arith, length-pop-In e d p)

  pub get-keep-none :
      (test : ℕ × V → Bool) (k : ℕ) (d : Dict V) → get k d ≡ none → get k (keep test d) ≡ none
  unfolding get keep
  get-keep-none test k [] h = h
  get-keep-none test k ((i, w) ∷ d) h = ground (arith, get-keep-none test k d)

  pub get-keep-some :
      (test : ℕ × V → Bool) (k : ℕ) (v : V) (d : Dict V)
      → get k d ≡ some v
      → test (k, v) ≡ true
      → get k (keep test d) ≡ some v
  unfolding get keep
  get-keep-some test k v [] h t = cc
  get-keep-some test k v ((i, w) ∷ d) h t = elim (Bool-cases (i == k)) [
    | inl e ↦ hit e
    | inr e ↦ elim (Bool-cases (test (i, w))) [
      | inl s ↦ rw (s, e) (get-keep-some test k v d (rw e at h) t)
      | inr s ↦ rw s (get-keep-some test k v d (rw e at h) t)
    ]
  ]
    where
      hit : (i == k) ≡ true → get k (keep test ((i, w) ∷ d)) ≡ some v
      hit e =
          let found : some w ≡ some v = rw e at h in
          let q : w ≡ v = cc found in
          let r : test (i, w) ≡ true = rw ((==_iff i k).0 e, q) t in rw (r, e) found

  pub get-last : (k : ℕ) (v : V) (d : Dict V) → get k d ≡ none → get k (d ++ (k, v) ∷ []) ≡ some v
  unfolding get
  get-last k v [] h = ground arith
  get-last k v ((i, w) ∷ d) h = ground (arith, get-last k v d)

  pub pop-append :
      (k j : ℕ) (v : V) (d : Dict V) → k ≢ j → pop k (d ++ (j, v) ∷ []) ≡ pop k d ++ (j, v) ∷ []
  unfolding pop
  pop-append k j v [] n = ground arith
  pop-append k j v ((i, w) ∷ d) n = ground (arith, pop-append k j v d n)

  pub In-get : (e : ℕ × V) (d : Dict V) → In e d → get e.0 d ≢ none
  unfolding get
  In-get e [] i = absurd i
  In-get e ((j, w) ∷ d) (inl p) = ground (arith, p)
  In-get e ((j, w) ∷ d) (inr i) = ground (arith, In-get e d i)
