-- ===== src/Core/Select/Pipeline/Rescue.antt =====
-- The exact match of `select` in crates/yams-core/src/select.rs is shown, whatever the gate says.
use yams.Prelude.{
  ℕ, ◌<◌, ◌-◌, ◌≡◌, refl, sym, ap, ◌∙◌, inl, inr, Bool, true, false, ◌&&◌, ◌||◌, Option, none, some,
  List, [], ◌∷◌, ◌++◌, map, arith, ltb, ◌==◌, length, take, filter, any, Bool-cases, ok, >>-ok,
  ok_unique,
}
use yams.Prelude.Sorting.{sort_by, any-sort_by}
use yams.Core.Text.{Text}
use yams.Core.Text.Order.{text_eq, text_eq_iff}
use yams.Core.Floats.{Floats}
use yams.Core.Select.{SelectionConfig, RankedHit, SelectedHit}
use yams.Core.Select.Exact.{LiteralChunk, ExactMatch, exact_identifier_match}
use yams.Core.Select.Gate.Kept.{within, apply_gate-Sorts}
use yams.Core.Select.Pipeline.{
  SelectionOutcome, final_le, retain_new, selected_hit, set_exact, find_path, mark_path, has_path,
  show_hit, find_exact, show_exact, shown_hits, outcome, is_apply, validate_hits, select,
}

text_eq-false : (t u : Text) → text_eq t u ≡ false → text_eq u t ≡ false
text_eq-false t u h = elim (Bool-cases (text_eq u t)) [
  | inl e ↦ let back = (text_eq_iff t u).1 (sym ((text_eq_iff u t).0 e)) in absurd (ground arith)
  | inr e ↦ e
]

module _ {F : Type 0} where
  abbrev pub ranks : Text → List (RankedHit F) → Bool
  ranks path hits = any (λ hit. text_eq hit.path path) hits

  -- The page is shown as an exact hit.
  abbrev pub shows_exact : Text → List (SelectedHit F) → Bool
  shows_exact path hits = any (λ hit. text_eq hit.path path && hit.exact) hits

  retain_new-ranks :
      (path : Text) (seen : List Text) (hits : List (RankedHit F))
      → ranks path hits ≡ true
      → (ranks path (retain_new seen hits) || any (text_eq path) seen) ≡ true
  unfolding retain_new
  retain_new-ranks path seen [] h = cc
  retain_new-ranks path seen (hit ∷ hits) h = elim (Bool-cases (any (text_eq hit.path) seen)) [
    | inl old ↦ elim (Bool-cases (text_eq hit.path path)) [
      | inl same ↦
          let e = (text_eq_iff hit.path path).0 same in
          let seen_path = ap (λ (u : Text). any (text_eq u) seen) (sym e) ∙ old in
          ground (arith, seen_path)
      | inr other ↦ rw old (retain_new-ranks path seen hits (ground arith))
    ]
    | inr new ↦ elim (Bool-cases (text_eq hit.path path)) [
      | inl same ↦ rw (new, same) refl
      | inr other ↦
          let r = retain_new-ranks path (hit.path ∷ seen) hits (ground arith) in
          let other' : text_eq path hit.path ≡ false = text_eq-false hit.path path other in
          ground arith
    ]
  ]

  map-has_path :
      (exact : Option ExactMatch) (chunks : List LiteralChunk) (path : Text)
      (hits : List (RankedHit F))
      → has_path path (map (selected_hit exact chunks) hits) ≡ ranks path hits
  unfolding selected_hit
  map-has_path exact chunks path [] = refl
  map-has_path exact chunks path (hit ∷ hits) = rw (map-has_path exact chunks path hits) refl

  find_path-has_path :
      (path : Text) (hits : List (SelectedHit F))
      → has_path path hits ≡ true
      → (hit : SelectedHit F) × (find_path path hits ≡ some hit) × (hit.path ≡ path)
  unfolding find_path
  find_path-has_path path [] h = cc
  find_path-has_path path (hit ∷ hits) h = elim (Bool-cases (text_eq hit.path path)) [
    | inl here ↦ (hit, ground arith, (text_eq_iff hit.path path).0 here)
    | inr later ↦
        let (found, e, p) = find_path-has_path path hits (ground arith) in (found, ground arith, p)
  ]

  mark_path-shows_exact :
      (path : Text) (hits : List (SelectedHit F))
      → has_path path hits ≡ true
      → shows_exact path (mark_path path hits) ≡ true
  unfolding mark_path
  mark_path-shows_exact path [] h = cc
  mark_path-shows_exact path (hit ∷ hits) h = ground (arith, mark_path-shows_exact path hits)

  snoc-shows_exact :
      (hit : SelectedHit F) (hits : List (SelectedHit F))
      → shows_exact hit.path (hits ++ set_exact hit ∷ []) ≡ true
  snoc-shows_exact hit [] = ground (arith, text_eq_iff hit.path hit.path)
  snoc-shows_exact hit (x ∷ hits) = ground (arith, snoc-shows_exact hit hits)

  show_hit-shows_exact :
      (limit : ℕ) (hit : SelectedHit F) (shown : List (SelectedHit F))
      → shows_exact hit.path (show_hit limit hit shown) ≡ true
  unfolding show_hit
  show_hit-shows_exact limit hit shown = elim (Bool-cases (has_path hit.path shown)) [
    | inl old ↦ rw old (mark_path-shows_exact hit.path shown old)
    | inr new ↦ elim (Bool-cases (length shown == limit)) [
      | inl full ↦ rw (new, full) (snoc-shows_exact hit (take (length shown - 1) shown))
      | inr room ↦ rw (new, room) (snoc-shows_exact hit shown)
    ]
  ]

  show_exact-some :
      (path : Text) (limit : ℕ) (exact : Option (SelectedHit F)) (hit : SelectedHit F)
      (shown : List (SelectedHit F))
      → 0 < limit
      → exact ≡ some hit
      → hit.path ≡ path
      → shows_exact path (show_exact limit exact shown) ≡ true
  unfolding show_exact
  show_exact-some path limit exact hit shown pos e p =
      let positive : ltb 0 limit ≡ true = ground arith in
      rw (e, positive) (rw (sym p) (show_hit-shows_exact limit hit shown))

  shown_hits-shows_exact :
      (matched : ExactMatch) (limit : ℕ) (chunks : List LiteralChunk) (ranked : List (RankedHit F))
      → 0 < limit
      → ranks matched.path ranked ≡ true
      → shows_exact matched.path (shown_hits (some matched) limit chunks ranked) ≡ true
  unfolding shown_hits find_exact
  shown_hits-shows_exact matched limit chunks ranked pos h =
      let path = matched.path in
      let sorted = sort_by final_le ranked in
      let kept =
        retain_new-ranks path [] sorted
          (any-sort_by (λ hit. text_eq hit.path path) final_le ranked ∙ h) in
      let selected = map (selected_hit (some matched) chunks) (retain_new [] sorted) in
      let (hit, e, p) =
        find_path-has_path path selected
          (map-has_path (some matched) chunks path (retain_new [] sorted) ∙ ground arith) in
      show_exact-some path limit (find_path path selected) hit (take limit selected) pos e p

  filter-shows_exact :
      (path : Text) (pass : SelectedHit F → Bool) (hits : List (SelectedHit F))
      → shows_exact path hits ≡ true
      → shows_exact path (filter (λ hit. pass hit || hit.exact) hits) ≡ true
  filter-shows_exact path pass [] h = cc
  filter-shows_exact path pass (hit ∷ hits) h = ground (arith, filter-shows_exact path pass hits)

module _ {F : Type 0} (fl : Floats F) where
  outcome-shows_exact :
      (path query : Text) (baseline : F) (config : SelectionConfig F) (shown : List (SelectedHit F))
      → shows_exact path shown ≡ true
      → shows_exact path (outcome fl query (some baseline) config shown).hits ≡ true
  outcome-shows_exact path query baseline config shown h =
      elim (Bool-cases (is_apply config.gate_mode)) [
        | inl applied ↦ rw applied (
            ap (shows_exact path) (apply_gate-Sorts fl shown baseline config).kept
            ∙ filter-shows_exact path (within fl shown baseline config) shown h)
        | inr bypassed ↦ rw bypassed h
      ]

  -- If `exact_identifier_match` finds a page, the page is among the ranked ones and the limit is not
  -- zero, every outcome of `select` shows it, marked as exact, whether the gate applies or not.
  pub select-shows_exact :
      (query : Text) (baseline : Option F) (ranked : List (RankedHit F))
      (chunks : List LiteralChunk) (leader : Option Text) (config : SelectionConfig F)
      (matched : ExactMatch) {out : SelectionOutcome F}
      → exact_identifier_match query leader chunks ≡ some matched
      → ranks matched.path ranked ≡ true
      → 0 < config.limit
      → select fl query baseline ranked chunks leader config ≡ ok out
      → shows_exact matched.path out.hits ≡ true
  unfolding select
  select-shows_exact query none [] chunks leader config matched {out} found among pos h = cc
  select-shows_exact query none (hit ∷ hits) chunks leader config matched {out} found among pos h =
      absurd (let (checked, e) = >>-ok (validate_hits fl (hit ∷ hits)) _ h in cc)
  select-shows_exact query (some baseline) ranked chunks leader config matched {out} found among pos
        h =
      let shown = shown_hits (some matched) config.limit chunks ranked in
      let (checked, e) = >>-ok (validate_hits fl ranked) _ h in
      let same : outcome fl query (some baseline) config shown ≡ out =
        ap
          (λ (exact : Option ExactMatch).
            outcome fl query (some baseline) config (shown_hits exact config.limit chunks ranked))
          (sym found)
        ∙ ok_unique refl e in
      ap (λ (o : SelectionOutcome F). shows_exact matched.path o.hits) (sym same)
      ∙ outcome-shows_exact matched.path query baseline config shown
          (shown_hits-shows_exact matched config.limit chunks ranked pos among)
