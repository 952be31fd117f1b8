-- ===== src/Core/Select/Gate/Kept.antt =====
-- What `apply_gate` of crates/yams-core/src/select.rs keeps, drops and reports, as filters of the
-- hits in their order.
use mathlib.Core.Path.{fun_ext}
use mathlib.Core.List.{append-nil, append_assoc}
use yams.Prelude.{
  ◌≡◌, refl, sym, ap, ◌∙◌, inl, inr, Bool, true, false, not, ◌&&◌, ◌||◌, none, some, List, [], ◌∷◌,
  ◌++◌, map, is_empty, filter, Bool-cases,
}
use yams.Core.Floats.{Floats}
use yams.Core.Select.{SelectionConfig, SelectedHit, GateVerdict}
use yams.Core.Select.Gate.{
  Gated, from_hit, none_gated, floor_step, gap_step, gate_loop, max_from, maximum_score, passes,
  gate_floor, gate_gap, apply_gate,
}

module _ {F : Type 0} where
  -- The hits sorted by two tests: `stays` decides, and `lifted` marks what is rescued.
  abbrev pub sorted :
      (SelectedHit F → Bool) → (SelectedHit F → Bool) → List (SelectedHit F) → Gated F
  sorted stays lifted hits = record {
    kept = filter stays hits;
    dropped = map from_hit (filter (λ hit. not (stays hit)) hits);
    rescued = map from_hit (filter lifted hits);
  }

  abbrev append_gated : Gated F → Gated F → Gated F
  append_gated g h = record {
    kept = g.kept ++ h.kept;
    dropped = g.dropped ++ h.dropped;
    rescued = g.rescued ++ h.rescued;
  }

  gate_loop-floor :
      (hits : List (SelectedHit F)) (g : Gated F)
      → gate_loop floor_step g hits
        ≡ append_gated g (sorted (λ hit. hit.exact) (λ hit. hit.exact) hits)
  unfolding gate_loop floor_step
  gate_loop-floor [] g = simp append-nil
  gate_loop-floor (hit ∷ hits) g = elim (Bool-cases hit.exact) [
    | inl exact ↦ simp (exact, gate_loop-floor hits, append_assoc)
    | inr plain ↦ simp (plain, gate_loop-floor hits, append_assoc)
  ]

  gate_loop-gap :
      (pass : SelectedHit F → Bool) (hits : List (SelectedHit F)) (g : Gated F)
      → gate_loop (gap_step pass) g hits
        ≡ append_gated g
            (sorted (λ hit. pass hit || hit.exact) (λ hit. hit.exact && not (pass hit)) hits)
  unfolding gate_loop gap_step
  gate_loop-gap pass [] g = simp append-nil
  gate_loop-gap pass (hit ∷ hits) g = elim (Bool-cases (pass hit)) [
    | inl within ↦ elim (Bool-cases hit.exact) [
      | inl exact ↦ simp (within, exact, gate_loop-gap pass hits, append_assoc)
      | inr plain ↦ simp (within, plain, gate_loop-gap pass hits, append_assoc)
    ]
    | inr far ↦ elim (Bool-cases hit.exact) [
      | inl exact ↦ simp (far, exact, gate_loop-gap pass hits, append_assoc)
      | inr plain ↦ simp (far, plain, gate_loop-gap pass hits, append_assoc)
    ]
  ]

and_true : (b : Bool) → (b && true) ≡ b
and_true true = refl
and_true false = refl

module _ {F : Type 0} (fl : Floats F) where
  -- A hit passes the gate on its own: the floor has not fired and its score is within the gap of
  -- the best hit shown.
  abbrev pub within_from : F → F → SelectionConfig F → SelectedHit F → Bool
  within_from anchor baseline config hit =
      not (fl.lt baseline config.min_score) && passes fl anchor config hit

  abbrev pub within : List (SelectedHit F) → F → SelectionConfig F → SelectedHit F → Bool
  within hits baseline config hit = elim (maximum_score fl hits) [
    | none ↦ false
    | some anchor ↦ within_from anchor baseline config hit
  ]

  -- The verdict and the hits of a gate, each told from the hits that came in.
  pub record Sorts (hits : List (SelectedHit F)) (baseline : F) (config : SelectionConfig F)
      (out : List (SelectedHit F) × GateVerdict F) : Type 0 where
    pub kept : out.0 ≡ filter (λ hit. within hits baseline config hit || hit.exact) hits
    pub dropped :
        out.1.floor_dropped ++ out.1.gap_dropped
        ≡ map from_hit (filter (λ hit. not (within hits baseline config hit || hit.exact)) hits)
    pub rescued :
        out.1.rescued
        ≡ map from_hit (filter (λ hit. hit.exact && not (within hits baseline config hit)) hits)
    pub top : out.1.top ≡ maximum_score fl out.0
    pub no_hits : out.1.no_hits ≡ is_empty hits
    pub floor_fired : out.1.floor_fired ≡ not (is_empty hits) && fl.lt baseline config.min_score

  within-below :
      (hit : SelectedHit F) (hits : List (SelectedHit F)) (baseline : F)
      (config : SelectionConfig F)
      → fl.lt baseline config.min_score ≡ true
      → within (hit ∷ hits) baseline config ≡ (λ h. false)
  unfolding maximum_score
  within-below hit hits baseline config below = fun_ext (λ h. rw below)

  pub within-above :
      (hit : SelectedHit F) (hits : List (SelectedHit F)) (baseline : F)
      (config : SelectionConfig F)
      → fl.lt baseline config.min_score ≡ false
      → within (hit ∷ hits) baseline config ≡ passes fl (max_from fl hit.score hits) config
  unfolding maximum_score
  within-above hit hits baseline config above = fun_ext (λ h. rw above)

  -- The tests of `Sorts` at another predicate for the hits that pass.
  abbrev sorted_by : (SelectedHit F → Bool) → List (SelectedHit F) → Gated F
  sorted_by pass = sorted (λ hit. pass hit || hit.exact) (λ hit. hit.exact && not (pass hit))

  sorted_by_none :
      (hits : List (SelectedHit F))
      → sorted (λ hit. hit.exact) (λ hit. hit.exact) hits ≡ sorted_by (λ h. false) hits
  sorted_by_none hits =
      ap (λ (lifted : SelectedHit F → Bool). sorted (λ hit. hit.exact) lifted hits)
        (fun_ext (λ h. sym (and_true h.exact)))

  gate_floor-Sorts :
      (hit : SelectedHit F) (hits : List (SelectedHit F)) (baseline : F)
      (config : SelectionConfig F)
      → fl.lt baseline config.min_score ≡ true
      → Sorts (hit ∷ hits) baseline config (gate_floor fl (hit ∷ hits) baseline config)
  unfolding gate_floor
  gate_floor-Sorts hit hits baseline config below =
      let e : gate_loop floor_step none_gated (hit ∷ hits)
          ≡ sorted_by (within (hit ∷ hits) baseline config) (hit ∷ hits) =
        gate_loop-floor (hit ∷ hits) none_gated
        ∙ sorted_by_none (hit ∷ hits)
        ∙ ap (λ (p : SelectedHit F → Bool). sorted_by p (hit ∷ hits))
            (sym (within-below hit hits baseline config below)) in
      record {
        kept = ap (λ (g : Gated F). g.kept) e;
        dropped = append-nil _ ∙ ap (λ (g : Gated F). g.dropped) e;
        rescued = ap (λ (g : Gated F). g.rescued) e;
        top = refl;
        no_hits = refl;
        floor_fired = sym below;
      }

  gate_gap-Sorts :
      (hit : SelectedHit F) (hits : List (SelectedHit F)) (baseline : F)
      (config : SelectionConfig F)
      → fl.lt baseline config.min_score ≡ false
      → Sorts
          (hit ∷ hits)
          baseline
          config
          (gate_gap fl (max_from fl hit.score hits) (hit ∷ hits) baseline config)
  unfolding gate_gap
  gate_gap-Sorts hit hits baseline config above =
      let pass = passes fl (max_from fl hit.score hits) config in
      let e : gate_loop (gap_step pass) none_gated (hit ∷ hits)
          ≡ sorted_by (within (hit ∷ hits) baseline config) (hit ∷ hits) =
        gate_loop-gap pass (hit ∷ hits) none_gated
        ∙ ap (λ (p : SelectedHit F → Bool). sorted_by p (hit ∷ hits))
            (sym (within-above hit hits baseline config above)) in
      record {
        kept = ap (λ (g : Gated F). g.kept) e;
        dropped = ap (λ (g : Gated F). g.dropped) e;
        rescued = ap (λ (g : Gated F). g.rescued) e;
        top = refl;
        no_hits = refl;
        floor_fired = sym above;
      }

  -- The gate keeps, in order, the hits that pass on their own or are exact, names the others as
  -- dropped, and names as rescued the exact ones that do not pass. Its top is the best score kept.
  pub apply_gate-Sorts :
      (hits : List (SelectedHit F)) (baseline : F) (config : SelectionConfig F)
      → Sorts hits baseline config (apply_gate fl hits baseline config)
  unfolding apply_gate
  apply_gate-Sorts [] baseline config = record {
    kept = refl;
    dropped = refl;
    rescued = refl;
    top = refl;
    no_hits = refl;
    floor_fired = refl;
  }
  apply_gate-Sorts (hit ∷ hits) baseline config =
      elim (Bool-cases (fl.lt baseline config.min_score)) [
        | inl below ↦ rw (below, apply_gate) (gate_floor-Sorts hit hits baseline config below)
        | inr above ↦ rw (above, apply_gate) (gate_gap-Sorts hit hits baseline config above)
      ]
