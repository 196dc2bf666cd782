-- ===== src/Base/Lists.antt =====
-- Lists measured by native numbers, Boolean membership, and predicates on lists by recursion.
use Prim.Native.Nat.{ℕ, zero, suc, ◌+◌, ◌≤◌}
use mathlib.Core.Path.{◌≡◌, refl, sym, ap, ◌∙◌}
use mathlib.Core.Logic.{◌⊎◌, inl, inr}
use mathlib.Core.Bool.{Bool, true, false, ◌||◌}
use mathlib.Core.List.{List, [], ◌∷◌, ◌++◌}
use native.Mathlib.Omega.{arith}
use native.Mathlib.Numerals.{unary_clauses}
use mstdnca_proxmox_tool.Base.Tests.{Bool-cases, if◌then◌else◌}

module _ {ℓ} {A : Type ℓ} where
  abbrev pub length : List A → ℕ
  length [] = 0
  length (x ∷ xs) = suc (length xs)

  -- `[x for x in xs if test(x)]`
  unfoldable pub keep : (A → Bool) → List A → List A
  keep test [] = []
  keep test (x ∷ xs) = let rest = keep test xs in if test x then x ∷ rest else rest

  -- `any(test(x) for x in xs)`
  unfoldable pub any : (A → Bool) → List A → Bool
  any test [] = false
  any test (x ∷ xs) = test x || any test xs

  pub length-append : (xs ys : List A) → length (xs ++ ys) ≡ length xs + length ys
  length-append [] ys = omega arith
  length-append (x ∷ xs) ys = omega (arith, length-append xs ys)

  pub length-keep : (test : A → Bool) (xs : List A) → length (keep test xs) ≤ length xs
  unfolding keep
  length-keep test [] = omega arith
  length-keep test (x ∷ xs) = ground (arith, length-keep test xs)

module _ {A : Type 0} where
  -- `x in xs`, with the place kept.
  abbrev pub In : A → List A → Type 0
  In a [] = ⊥
  In a (x ∷ xs) = (x ≡ a) ⊎ In a xs

  -- Every element of the list has the property.
  abbrev pub All : (A → Type 0) → List A → Type 0
  All P [] = Unit
  All P (x ∷ xs) = P x × All P xs

  pub All-intro : (P : A → Type 0) (xs : List A) → ((a : A) → In a xs → P a) → All P xs
  All-intro P [] h = tt
  All-intro P (x ∷ xs) h = (h x (inl refl), All-intro P xs (λ a i. h a (inr i)))

  pub any-intro :
      (test : A → Bool) (a : A) (xs : List A) → In a xs → test a ≡ true → any test xs ≡ true
  unfolding any
  any-intro test a [] i h = absurd i
  any-intro test a (x ∷ xs) (inl e) h = rw (e, h)
  any-intro test a (x ∷ xs) (inr i) h = ground (arith, any-intro test a xs i h)

  pub any-elim :
      (test : A → Bool) (xs : List A) → any test xs ≡ true → (a : A) × In a xs × (test a ≡ true)
  unfolding any
  any-elim test [] h = cc
  any-elim test (x ∷ xs) h = elim (Bool-cases (test x)) [
    | inl e ↦ (x, inl refl, e)
    | inr e ↦ let (a, i, t) = any-elim test xs (rw e at h) in (a, inr i, t)
  ]

  pub any-false-In :
      (test : A → Bool) (xs : List A) (a : A) → any test xs ≡ false → In a xs → test a ≡ false
  any-false-In test xs a h i = elim (Bool-cases (test a)) [
    | inl e ↦ let k = any-intro test a xs i e in cc (sym k ∙ h)
    | inr e ↦ e
  ]

  pub In-keep-intro :
      (test : A → Bool) (a : A) (xs : List A) → In a xs → test a ≡ true → In a (keep test xs)
  unfolding keep
  In-keep-intro test a [] i h = absurd i
  In-keep-intro test a (x ∷ xs) (inl e) h = rw (e, h) (inl refl)
  In-keep-intro test a (x ∷ xs) (inr i) h = elim (Bool-cases (test x)) [
    | inl e ↦ rw e (inr (In-keep-intro test a xs i h))
    | inr e ↦ rw e (In-keep-intro test a xs i h)
  ]

  kept_head :
      (test : A → Bool) (a x : A) (xs ys : List A)
      → (In a ys → In a xs × (test a ≡ true))
      → test x ≡ true
      → (x ≡ a) ⊎ In a ys
      → ((x ≡ a) ⊎ In a xs) × (test a ≡ true)
  kept_head test a x xs ys rest e (inl p) = (inl p, rw (← p) e)
  kept_head test a x xs ys rest e (inr j) = let (k, t) = rest j in (inr k, t)

  pub In-keep-elim :
      (test : A → Bool) (a : A) (xs : List A) → In a (keep test xs) → In a xs × (test a ≡ true)
  unfolding keep
  In-keep-elim test a [] i = absurd i
  In-keep-elim test a (x ∷ xs) i = elim (Bool-cases (test x)) [
    | inl e ↦ kept_head test a x xs (keep test xs) (In-keep-elim test a xs) e (rw e at i)
    | inr e ↦ let (j, t) = In-keep-elim test a xs (rw e at i) in (inr j, t)
  ]

  pub In-append_left : (a : A) (xs ys : List A) → In a xs → In a (xs ++ ys)
  In-append_left a [] ys i = absurd i
  In-append_left a (x ∷ xs) ys (inl e) = inl e
  In-append_left a (x ∷ xs) ys (inr i) = inr (In-append_left a xs ys i)

  pub In-append_right : (a : A) (xs ys : List A) → In a ys → In a (xs ++ ys)
  In-append_right a [] ys i = i
  In-append_right a (x ∷ xs) ys i = inr (In-append_right a xs ys i)

  pub keep-append :
      (test : A → Bool) (xs ys : List A) → keep test (xs ++ ys) ≡ keep test xs ++ keep test ys
  unfolding keep
  keep-append test [] ys = refl
  keep-append test (x ∷ xs) ys = ground (arith, keep-append test xs ys)

  pub In-append-elim : (a : A) (xs ys : List A) → In a (xs ++ ys) → In a xs ⊎ In a ys
  In-append-elim a [] ys i = inr i
  In-append-elim a (x ∷ xs) ys (inl e) = inl (inl e)
  In-append-elim a (x ∷ xs) ys (inr i) = shift (In-append-elim a xs ys i)
    where
      shift : In a xs ⊎ In a ys → ((x ≡ a) ⊎ In a xs) ⊎ In a ys
      shift (inl j) = inl (inr j)
      shift (inr j) = inr j

module _ {ℓ} {A : Type ℓ} where
  unfoldable pub take : ℕ → List A → List A
  take zero xs = []
  take (suc n) [] = []
  take (suc n) (x ∷ xs) = x ∷ take n xs

  unfoldable pub drop : ℕ → List A → List A
  drop zero xs = xs
  drop (suc n) [] = []
  drop (suc n) (x ∷ xs) = drop n xs

  pub take-drop : (n : ℕ) (xs : List A) → take n xs ++ drop n xs ≡ xs
  unfolding take drop
  take-drop zero xs = refl
  take-drop (suc n) [] = refl
  take-drop (suc n) (x ∷ xs) = ap (λ l. x ∷ l) (take-drop n xs)

  drop-nil : (n : ℕ) → drop n [] ≡ []
  unfolding drop
  drop-nil zero = refl
  drop-nil (suc n) = refl

  pub drop-drop : (m n : ℕ) (xs : List A) → drop n (drop m xs) ≡ drop (m + n) xs
  unfolding drop
  drop-drop zero n xs = ap (λ k. drop k xs) (omega arith)
  drop-drop (suc m) zero [] = simp unary_clauses refl
  drop-drop (suc m) (suc n) [] = sym (drop-nil (suc m + suc n))
  drop-drop (suc m) n (x ∷ xs) =
      let e : suc m + n ≡ suc (m + n) = omega arith in
      drop-drop m n xs ∙ ap (λ k. drop k (x ∷ xs)) (sym e)

  pub drop_all : (n : ℕ) (xs : List A) → length xs ≤ n → drop n xs ≡ []
  unfolding drop
  drop_all zero [] h = refl
  drop_all zero (x ∷ xs) h = absurd (omega arith)
  drop_all (suc n) [] h = refl
  drop_all (suc n) (x ∷ xs) h = drop_all n xs (omega arith)

  pub take-empty : (n : ℕ) (xs : List A) → take (suc n) xs ≡ [] → xs ≡ []
  unfolding take
  take-empty n [] h = refl
  take-empty n (x ∷ xs) h = cc h
