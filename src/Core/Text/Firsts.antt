-- ===== src/Core/Text/Firsts.antt =====
-- `iter().filter(|x| seen.insert(key(x)))` of crates/yams-core: of the elements with one key, the
-- first.
use yams.Prelude.{
  ◌≡◌, ◌≢◌, refl, sym, ◌⊎◌, inl, inr, Bool, true, List, [], ◌∷◌, map, arith, if◌then◌else◌, any,
  All, Bool-cases, if_lem,
}
use yams.Prelude.Sorting.{IsSorted}
use yams.Core.Text.{Text}
use yams.Core.Text.Order.{text_eq, text_eq_iff, Distinct}

module _ {A : Type 0} (key : A → Text) where
  unfoldable pub first_per : List Text → List A → List A
  first_per seen [] = []
  first_per seen (x ∷ xs) =
      let old = first_per seen xs in
      let new = first_per (key x ∷ seen) xs in if any (text_eq (key x)) seen then old else x ∷ new

  pub All-first_per {κ} :
      (P : A → Type κ) (seen : List Text) (xs : List A) → All P xs → All P (first_per seen xs)
  unfolding first_per
  All-first_per P seen [] h = tt
  All-first_per P seen (x ∷ xs) h = elim (Bool-cases (any (text_eq (key x)) seen)) [
    | inl old ↦ rw old (All-first_per P seen xs h.1)
    | inr new ↦ rw new (h.0, All-first_per P (key x ∷ seen) xs h.1)
  ]

  abbrev pub keys_of : List A → List Text
  keys_of xs = map key xs

  first_per-fresh :
      (k : Text) (seen : List Text) (xs : List A)
      → any (text_eq k) seen ≡ true
      → All (λ j. k ≢ j) (keys_of (first_per seen xs))
  unfolding first_per
  first_per-fresh k seen [] h = tt
  first_per-fresh k seen (x ∷ xs) h = elim (Bool-cases (any (text_eq (key x)) seen)) [
    | inl old ↦ rw old (first_per-fresh k seen xs h)
    | inr new ↦ rw new ((λ e. ground arith), first_per-fresh k (key x ∷ seen) xs (ground arith))
  ]

  pub first_per-Distinct : (seen : List Text) (xs : List A) → Distinct (keys_of (first_per seen xs))
  unfolding first_per
  first_per-Distinct seen [] = tt
  first_per-Distinct seen (x ∷ xs) = elim (Bool-cases (any (text_eq (key x)) seen)) [
    | inl old ↦ rw old (first_per-Distinct seen xs)
    | inr new ↦
        let t = (text_eq_iff (key x) (key x)).1 refl in
        rw new (
          first_per-fresh (key x) (key x ∷ seen) xs (ground arith),
          first_per-Distinct (key x ∷ seen) xs,
        )
  ]

  -- An element of `ys` with the key `k` that `P` holds of.
  abbrev pub Some : (A → Type 0) → Text → List A → Type 0
  Some P k [] = ⊥
  Some P k (y ∷ ys) = ((key y ≡ k) × P y) ⊎ Some P k ys

  -- The key is among those seen, or an element with the key is kept that is not behind `x`.
  abbrev IsCovered : (A → A → Bool) → List Text → List A → A → Type 0
  IsCovered le seen kept x =
      (any (text_eq (key x)) seen ≡ true) ⊎ Some (λ y. le y x ≡ true) (key x) kept

  covers_more :
      (le : A → A → Bool) (seen : List Text) (kept : List A) (x : A) (xs : List A)
      → All (λ z. le x z ≡ true) xs
      → All (IsCovered le (key x ∷ seen) kept) xs
      → All (IsCovered le seen (x ∷ kept)) xs
  covers_more le seen kept x [] h c = tt
  covers_more le seen kept x (z ∷ zs) h c =
      let rest = covers_more le seen kept x zs h.1 c.1 in
      elim c.0 [
        | inl at ↦ elim (Bool-cases (text_eq (key z) (key x))) [
          | inl same ↦ (inr (inl (sym ((text_eq_iff (key z) (key x)).0 same), h.0)), rest)
          | inr other ↦ (inl (ground arith), rest)
        ]
        | inr later ↦ (inr (inr later), rest)
      ]

  first_per-IsCovered :
      (le : A → A → Bool)
      → ((a : A) → le a a ≡ true)
      → (seen : List Text) (xs : List A) → IsSorted le xs
      → All (IsCovered le seen (first_per seen xs)) xs
  unfolding first_per
  first_per-IsCovered le reflexive seen [] h = tt
  first_per-IsCovered le reflexive seen (x ∷ xs) h =
      if_lem (λ kept. All (IsCovered le seen kept) (x ∷ xs)) (any (text_eq (key x)) seen)
        (λ old. (inl old, first_per-IsCovered le reflexive seen xs h.1))
        (λ new.
          let ih = first_per-IsCovered le reflexive (key x ∷ seen) xs h.1 in
          (
            inr (inl (refl, reflexive x)),
            covers_more le seen (first_per (key x ∷ seen) xs) x xs h.0 ih,
          ))

  uncovered :
      (le : A → A → Bool) (kept xs : List A)
      → All (IsCovered le [] kept) xs
      → All (λ x. Some (λ y. le y x ≡ true) (key x) kept) xs
  uncovered le kept [] h = tt
  uncovered le kept (x ∷ xs) h = (elim h.0 [ inl seen ↦ cc | inr s ↦ s ], uncovered le kept xs h.1)

  -- For each element of a sorted list, one with its key is kept that is not behind it.
  pub first_per-Some :
      (le : A → A → Bool)
      → ((a : A) → le a a ≡ true)
      → (xs : List A) → IsSorted le xs
      → All (λ x. Some (λ y. le y x ≡ true) (key x) (first_per [] xs)) xs
  first_per-Some le reflexive xs h =
      uncovered le (first_per [] xs) xs (first_per-IsCovered le reflexive [] xs h)

  -- What is kept of a sorted list is sorted.
  pub first_per-IsSorted :
      (le : A → A → Bool) (seen : List Text) (xs : List A)
      → IsSorted le xs
      → IsSorted le (first_per seen xs)
  unfolding first_per
  first_per-IsSorted le seen [] h = tt
  first_per-IsSorted le seen (x ∷ xs) h = elim (Bool-cases (any (text_eq (key x)) seen)) [
    | inl old ↦ rw old (first_per-IsSorted le seen xs h.1)
    | inr new ↦ rw new (
      All-first_per (λ z. le x z ≡ true) (key x ∷ seen) xs h.0,
      first_per-IsSorted le (key x ∷ seen) xs h.1,
    )
  ]
