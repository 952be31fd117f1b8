-- ===== src/Prelude/Sorting.antt =====
-- The stable `sort_by` of Rust's slices, by the test that its comparator is not `Greater`.
use mathlib.Core.List.Perm
use mathlib.Core.List.{Perm}
use mathlib.Core.Path.{◌≡◌, refl}
use mathlib.Core.Logic.{◌⊎◌, inl, inr}
use mathlib.Core.Bool.{Bool, true, false, ◌||◌}
use mathlib.Core.List.{List, [], ◌∷◌}
use native.Mathlib.Omega.{arith}
use yams.Prelude.Tests.{if◌then◌else◌, Bool-cases}
use yams.Prelude.Lists.{All, any}

module _ {ℓ} {A : Type ℓ} where
  -- In front of the first element that is not smaller, so equal elements keep their order.
  unfoldable pub insert_by : (A → A → Bool) → A → List A → List A
  insert_by le x [] = x ∷ []
  insert_by le x (y ∷ ys) = let rest = insert_by le x ys in if le x y then x ∷ y ∷ ys else y ∷ rest

  unfoldable pub sort_by : (A → A → Bool) → List A → List A
  unfolding insert_by
  sort_by le [] = []
  sort_by le (x ∷ xs) = insert_by le x (sort_by le xs)

  pub insert_by-perm : (le : A → A → Bool) (x : A) (ys : List A) → Perm (insert_by le x ys) (x ∷ ys)
  unfolding insert_by
  insert_by-perm le x [] = Perm.refl (x ∷ [])
  insert_by-perm le x (y ∷ ys) = elim (Bool-cases (le x y)) [
    | inl before ↦ rw before (Perm.refl (x ∷ y ∷ ys))
    | inr behind ↦ rw behind (Perm.trans (Perm.cons y (insert_by-perm le x ys)) (Perm.swap x y ys))
  ]

  pub sort_by-perm : (le : A → A → Bool) (xs : List A) → Perm (sort_by le xs) xs
  unfolding sort_by
  sort_by-perm le [] = Perm.refl []
  sort_by-perm le (x ∷ xs) =
      Perm.trans (insert_by-perm le x (sort_by le xs)) (Perm.cons x (sort_by-perm le xs))

  -- Each element is before all that stand behind it.
  abbrev pub IsSorted : (A → A → Bool) → List A → Type ℓ
  IsSorted le [] = Unit
  IsSorted le (x ∷ xs) = All (λ y. le x y ≡ true) xs × IsSorted le xs

  pub All-insert_by {κ} :
      (P : A → Type κ) (le : A → A → Bool) (x : A) (ys : List A)
      → P x
      → All P ys
      → All P (insert_by le x ys)
  unfolding insert_by
  All-insert_by P le x [] p h = (p, tt)
  All-insert_by P le x (y ∷ ys) p h = elim (Bool-cases (le x y)) [
    | inl before ↦ rw before (p, h)
    | inr behind ↦ rw behind (h.0, All-insert_by P le x ys p h.1)
  ]

  pub All-sort_by {κ} :
      (P : A → Type κ) (le : A → A → Bool) (xs : List A) → All P xs → All P (sort_by le xs)
  unfolding sort_by
  All-sort_by P le [] h = tt
  All-sort_by P le (x ∷ xs) h = All-insert_by P le x (sort_by le xs) h.0 (All-sort_by P le xs h.1)

  All-trans :
      (le : A → A → Bool)
      → ((a b c : A) → le a b ≡ true → le b c ≡ true → le a c ≡ true)
      → (x y : A) (ys : List A) → le x y ≡ true
      → All (λ z. le y z ≡ true) ys
      → All (λ z. le x z ≡ true) ys
  All-trans le trans x y [] h hs = tt
  All-trans le trans x y (z ∷ zs) h hs = (trans x y z h hs.0, All-trans le trans x y zs h hs.1)

  insert_by-IsSorted :
      (le : A → A → Bool)
      → ((a b c : A) → le a b ≡ true → le b c ≡ true → le a c ≡ true)
      → ((a b : A) → (le a b ≡ true) ⊎ (le b a ≡ true))
      → (x : A) (ys : List A) → IsSorted le ys
      → IsSorted le (insert_by le x ys)
  unfolding insert_by
  insert_by-IsSorted le trans total x [] h = (tt, tt)
  insert_by-IsSorted le trans total x (y ∷ ys) h = elim (Bool-cases (le x y)) [
    | inl before ↦ rw before ((before, All-trans le trans x y ys before h.0), h)
    | inr behind ↦
        let yx : le y x ≡ true = elim (total x y) [ inl p ↦ cc | inr q ↦ q ] in
        rw behind (
          All-insert_by (λ z. le y z ≡ true) le x ys yx h.0,
          insert_by-IsSorted le trans total x ys h.1,
        )
  ]

  -- By a total preorder the result is sorted.
  pub sort_by-IsSorted :
      (le : A → A → Bool)
      → ((a b c : A) → le a b ≡ true → le b c ≡ true → le a c ≡ true)
      → ((a b : A) → (le a b ≡ true) ⊎ (le b a ≡ true))
      → (xs : List A) → IsSorted le (sort_by le xs)
  unfolding sort_by
  sort_by-IsSorted le trans total [] = tt
  sort_by-IsSorted le trans total (x ∷ xs) =
      insert_by-IsSorted le trans total x (sort_by le xs) (sort_by-IsSorted le trans total xs)

  insert_by-All {κ} :
      (P : A → Type κ) (le : A → A → Bool) (x : A) (ys : List A)
      → All P (insert_by le x ys)
      → P x × All P ys
  unfolding insert_by
  insert_by-All P le x [] h = h
  insert_by-All P le x (y ∷ ys) h =
      elim (le x y)
          as (λ b. All P (if b then x ∷ y ∷ ys else y ∷ insert_by le x ys) → P x × All P (y ∷ ys)) [
            | true ↦ λ k. k
            | false ↦ λ k. let r = insert_by-All P le x ys k.1 in (r.0, (k.0, r.1))
          ]
        h

  -- What holds of all sorted elements held of all elements before.
  pub sort_by-All {κ} :
      (P : A → Type κ) (le : A → A → Bool) (xs : List A) → All P (sort_by le xs) → All P xs
  unfolding sort_by
  sort_by-All P le [] h = tt
  sort_by-All P le (x ∷ xs) h =
      let r = insert_by-All P le x (sort_by le xs) h in (r.0, sort_by-All P le xs r.1)

  any-insert_by :
      (p : A → Bool) (le : A → A → Bool) (x : A) (ys : List A)
      → any p (insert_by le x ys) ≡ (p x || any p ys)
  unfolding insert_by
  any-insert_by p le x [] = refl
  any-insert_by p le x (y ∷ ys) = ground (arith, any-insert_by p le x ys)

  pub any-sort_by :
      (p : A → Bool) (le : A → A → Bool) (xs : List A) → any p (sort_by le xs) ≡ any p xs
  unfolding sort_by
  any-sort_by p le [] = refl
  any-sort_by p le (x ∷ xs) =
      ground (arith, any-insert_by p le x (sort_by le xs), any-sort_by p le xs)
