-- ===== src/Core/Select/Gate/Best.antt =====
-- Above the floor, `apply_gate` of crates/yams-core/src/select.rs shows something.
use yams.Prelude.{
  ◌≡◌, ◌≢◌, refl, sym, ap, ◌∙◌, ◌⊎◌, inl, inr, Bool, true, false, ◌||◌, List, [], ◌∷◌, arith,
  if◌then◌else◌, filter, any, All, Bool-cases,
}
use yams.Core.Floats.{Floats, FiniteOrder}
use yams.Core.Select.{SelectionConfig, SelectedHit}
use yams.Core.Select.Gate.{max_from, passes, apply_gate}
use yams.Core.Select.Gate.Kept.{within, within-above, apply_gate-Sorts}

filter-ne-nil {ℓ} : {A : Type ℓ} (p : A → Bool) (xs : List A) → any p xs ≡ true → filter p xs ≢ []
filter-ne-nil p [] h = cc
filter-ne-nil p (x ∷ xs) h = ground (arith, filter-ne-nil p xs)

any-or {ℓ} :
    {A : Type ℓ} (p q : A → Bool) (xs : List A) → any p xs ≡ true → any (λ x. p x || q x) xs ≡ true
any-or p q [] h = h
any-or p q (x ∷ xs) h = ground (arith, any-or p q xs)

module _ {F : Type 0} (fl : Floats F) where
  -- The maximum is a score of the list, or the value that it started from.
  max_from-attained :
      (q : F → Bool) (best : F) (hits : List (SelectedHit F))
      → q (max_from fl best hits) ≡ true
      → (q best ≡ true) ⊎ (any (λ hit. q hit.score) hits ≡ true)
  unfolding max_from
  max_from-attained q best [] h = inl h
  max_from-attained q best (hit ∷ hits) h =
      ground
        (arith, max_from-attained q (if fl.total_le best hit.score then hit.score else best) hits)

  abbrev pub IsFiniteHit : SelectedHit F → Type 0
  IsFiniteHit hit = fl.is_finite hit.score ≡ true

  max_from-finite :
      (best : F) (hits : List (SelectedHit F))
      → fl.is_finite best ≡ true
      → All IsFiniteHit hits
      → fl.is_finite (max_from fl best hits) ≡ true
  unfolding max_from
  max_from-finite best [] h hs = h
  max_from-finite best (hit ∷ hits) h hs = elim (Bool-cases (fl.total_le best hit.score)) [
    | inl more ↦ rw (more, max_from) (max_from-finite hit.score hits hs.0 hs.1)
    | inr less ↦ rw (less, max_from) (max_from-finite best hits h hs.1)
  ]

  any-within :
      (hit : SelectedHit F) (hits : List (SelectedHit F)) (baseline : F)
      (config : SelectionConfig F)
      → fl.lt baseline config.min_score ≡ false
      → any (passes fl (max_from fl hit.score hits) config) (hit ∷ hits) ≡ true
      → any (λ h. within fl (hit ∷ hits) baseline config h || h.exact) (hit ∷ hits) ≡ true
  any-within hit hits baseline config above h =
      ap (λ (p : SelectedHit F → Bool). any (λ h. p h || h.exact) (hit ∷ hits))
        (within-above fl hit hits baseline config above)
      ∙ any-or (passes fl (max_from fl hit.score hits) config) (λ h. h.exact) (hit ∷ hits) h

  best_passes :
      (laws : FiniteOrder fl) (hit : SelectedHit F) (hits : List (SelectedHit F))
      (config : SelectionConfig F)
      → All IsFiniteHit (hit ∷ hits)
      → fl.is_finite config.max_gap ≡ true
      → fl.lt config.max_gap (fl.literal 0 0) ≡ false
      → any (passes fl (max_from fl hit.score hits) config) (hit ∷ hits) ≡ true
  unfolding passes
  best_passes laws hit hits config finite gap nonneg =
      let anchor = max_from fl hit.score hits in
      let q = λ (score : F). fl.le (fl.sub anchor config.max_gap) score in
      let attained = max_from-attained q hit.score hits (
        laws.sub-le anchor config.max_gap (max_from-finite hit.score hits finite.0 finite.1) gap
          nonneg) in
      ground (arith, attained)

  -- If the baseline reaches the floor and the scores and the gap are finite, the gap not negative,
  -- the gate keeps a hit of every list that has one.
  pub apply_gate-ne-nil :
      (laws : FiniteOrder fl) (hits : List (SelectedHit F)) (baseline : F)
      (config : SelectionConfig F)
      → hits ≢ []
      → All IsFiniteHit hits
      → fl.is_finite config.max_gap ≡ true
      → fl.lt config.max_gap (fl.literal 0 0) ≡ false
      → fl.lt baseline config.min_score ≡ false
      → (apply_gate fl hits baseline config).0 ≢ []
  apply_gate-ne-nil laws [] baseline config some_hit finite gap nonneg above e =
      absurd (some_hit refl)
  apply_gate-ne-nil laws (hit ∷ hits) baseline config some_hit finite gap nonneg above e =
      filter-ne-nil (λ h. within fl (hit ∷ hits) baseline config h || h.exact) (hit ∷ hits)
        (any-within hit hits baseline config above
          (best_passes laws hit hits config finite gap nonneg))
        (sym (apply_gate-Sorts fl (hit ∷ hits) baseline config).kept ∙ e)
