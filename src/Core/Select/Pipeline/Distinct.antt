-- ===== src/Core/Select/Pipeline/Distinct.antt =====
-- No page stands twice in what crates/yams-core/src/select.rs shows, and no more than the limit.
use yams.Prelude.{
  ℕ, zero, suc, ◌≤◌, ◌<◌, ◌-◌, ◌≡◌, ◌≢◌, refl, ap, inl, inr, true, false, Option, none, some, List,
  [], ◌∷◌, ◌++◌, map, arith, ltb, ◌==◌, length, take, any, All, All-append, length-take,
  length-append, Bool-cases,
}
use yams.Prelude.Sorting.{sort_by}
use yams.Core.Text.{Text}
use yams.Core.Text.Order.{Distinct, text_eq, text_eq_iff}
use yams.Core.Select.{RankedHit, SelectedHit}
use yams.Core.Select.Exact.{LiteralChunk, ExactMatch}
use yams.Core.Select.Pipeline.{
  final_le, retain_new, selected_hit, set_exact, find_path, mark_path, has_path, show_hit,
  find_exact, show_exact, shown_hits,
}

module _ {F : Type 0} where
  abbrev pub paths : List (SelectedHit F) → List Text
  paths hits = map (λ hit. hit.path) hits

  abbrev ranked_paths : List (RankedHit F) → List Text
  ranked_paths hits = map (λ hit. hit.path) hits

  mark_path-paths :
      (path : Text) (hits : List (SelectedHit F)) → paths (mark_path path hits) ≡ paths hits
  unfolding mark_path
  mark_path-paths path [] = refl
  mark_path-paths path (hit ∷ hits) = ground (arith, mark_path-paths path hits)

not_seen :
    (path : Text) (seen : List Text) → any (text_eq path) seen ≡ false → All (λ u. path ≢ u) seen
not_seen path [] h = tt
not_seen path (u ∷ seen) h =
    ((λ e. let same = (text_eq_iff path u).1 e in ground arith), not_seen path seen (ground arith))

module _ {F : Type 0} where
  -- What is retained is new: it stands for no path seen before.
  retain_new-fresh :
      (path : Text) (seen : List Text) (hits : List (RankedHit F))
      → any (text_eq path) seen ≡ true
      → All (λ u. path ≢ u) (ranked_paths (retain_new seen hits))
  unfolding retain_new
  retain_new-fresh path seen [] h = tt
  retain_new-fresh path seen (hit ∷ hits) h = elim (Bool-cases (any (text_eq hit.path) seen)) [
    | inl old ↦ rw old (retain_new-fresh path seen hits h)
    | inr new ↦
        rw new (λ e. ground arith, retain_new-fresh path (hit.path ∷ seen) hits (ground arith))
  ]

  retain_new-Distinct :
      (seen : List Text) (hits : List (RankedHit F))
      → Distinct (ranked_paths (retain_new seen hits))
  unfolding retain_new
  retain_new-Distinct seen [] = tt
  retain_new-Distinct seen (hit ∷ hits) = elim (Bool-cases (any (text_eq hit.path) seen)) [
    | inl old ↦ rw old (retain_new-Distinct seen hits)
    | inr new ↦ rw new (
      retain_new-fresh hit.path (hit.path ∷ seen) hits
          (ground (arith, text_eq_iff hit.path hit.path)),
      retain_new-Distinct (hit.path ∷ seen) hits,
    )
  ]

  find_path-paths :
      (path : Text) (hits : List (SelectedHit F)) {hit : SelectedHit F}
      → find_path path hits ≡ some hit
      → hit.path ≡ path
  unfolding find_path
  find_path-paths path [] h = cc
  find_path-paths path (x ∷ hits) {hit} h =
      ground (arith, find_path-paths path hits {hit = hit}, text_eq_iff x.path path)

  paths-take : (n : ℕ) (hits : List (SelectedHit F)) → paths (take n hits) ≡ take n (paths hits)
  paths-take zero hits = refl
  paths-take (suc n) [] = refl
  paths-take (suc n) (hit ∷ hits) = ap (◌∷◌ hit.path) (paths-take n hits)

  paths-append : (xs ys : List (SelectedHit F)) → paths (xs ++ ys) ≡ paths xs ++ paths ys
  paths-append [] ys = refl
  paths-append (x ∷ xs) ys = ap (◌∷◌ x.path) (paths-append xs ys)

  paths-selected :
      (exact : Option ExactMatch) (chunks : List LiteralChunk) (hits : List (RankedHit F))
      → paths (map (selected_hit exact chunks) hits) ≡ ranked_paths hits
  unfolding selected_hit
  paths-selected exact chunks [] = refl
  paths-selected exact chunks (hit ∷ hits) = ap (◌∷◌ hit.path) (paths-selected exact chunks hits)

  has_path-false :
      (path : Text) (hits : List (SelectedHit F))
      → has_path path hits ≡ false
      → All (λ u. u ≢ path) (paths hits)
  has_path-false path [] h = tt
  has_path-false path (hit ∷ hits) h = (
    (λ e. let same = (text_eq_iff hit.path path).1 e in ground arith),
    has_path-false path hits (ground arith),
  )

All-take {κ} : (P : Text → Type κ) (n : ℕ) (ts : List Text) → All P ts → All P (take n ts)
All-take P zero ts h = tt
All-take P (suc n) [] h = tt
All-take P (suc n) (t ∷ ts) h = (h.0, All-take P n ts h.1)

Distinct-take : (n : ℕ) (ts : List Text) → Distinct ts → Distinct (take n ts)
Distinct-take zero ts h = tt
Distinct-take (suc n) [] h = tt
Distinct-take (suc n) (t ∷ ts) h = (All-take (λ u. t ≢ u) n ts h.0, Distinct-take n ts h.1)

Distinct-snoc :
    (t : Text) (ts : List Text) → Distinct ts → All (λ u. u ≢ t) ts → Distinct (ts ++ t ∷ [])
Distinct-snoc t [] h fresh = (tt, tt)
Distinct-snoc t (u ∷ ts) h fresh =
    (All-append (λ v. u ≢ v) ts (t ∷ []) h.0 (fresh.0, tt), Distinct-snoc t ts h.1 fresh.1)

module _ {F : Type 0} where
  abbrev pub IsPage : ℕ → List (SelectedHit F) → Type 0
  IsPage limit hits = (length hits ≤ limit) × Distinct (paths hits)

  IsPage-take :
      (limit n : ℕ) (hits : List (SelectedHit F))
      → n ≤ limit
      → Distinct (paths hits)
      → IsPage limit (take n hits)
  IsPage-take limit n hits h d = (
    let e = length-take n hits in omega arith,
    rw (paths-take n hits) (Distinct-take n (paths hits) d),
  )

  IsPage-snoc :
      (limit : ℕ) (hit : SelectedHit F) (hits : List (SelectedHit F))
      → length hits < limit
      → Distinct (paths hits)
      → All (λ u. u ≢ hit.path) (paths hits)
      → IsPage limit (hits ++ set_exact hit ∷ [])
  IsPage-snoc limit hit hits room d fresh = (
    let e = length-append hits (set_exact hit ∷ []) in omega arith,
    rw (paths-append hits (set_exact hit ∷ [])) (Distinct-snoc hit.path (paths hits) d fresh),
  )

  mark_path-length :
      (path : Text) (hits : List (SelectedHit F)) → length (mark_path path hits) ≡ length hits
  unfolding mark_path
  mark_path-length path [] = refl
  mark_path-length path (hit ∷ hits) = ground (arith, mark_path-length path hits)

  show_hit-IsPage :
      (limit : ℕ) (hit : SelectedHit F) (shown : List (SelectedHit F))
      → 0 < limit
      → IsPage limit shown
      → IsPage limit (show_hit limit hit shown)
  unfolding show_hit
  show_hit-IsPage limit hit shown pos page = elim (Bool-cases (has_path hit.path shown)) [
    | inl old ↦ rw (old, mark_path-length hit.path shown, mark_path-paths hit.path shown) page
    | inr new ↦ elim (Bool-cases (length shown == limit)) [
      | inl full ↦
          rw (new, full)
            (IsPage-snoc limit hit (take (length shown - 1) shown)
              (let e = length-take (length shown - 1) shown in ground arith)
              (rw (paths-take (length shown - 1) shown)
                (Distinct-take (length shown - 1) (paths shown) page.1))
              (rw (paths-take (length shown - 1) shown) (
                All-take (λ u. u ≢ hit.path) (length shown - 1) (paths shown)
                  (has_path-false hit.path shown new))))
      | inr room ↦
          rw (new, room)
            (IsPage-snoc limit hit shown (ground arith) page.1 (has_path-false hit.path shown new))
    ]
  ]

  show_exact-IsPage :
      (limit : ℕ) (exact : Option (SelectedHit F)) (shown : List (SelectedHit F))
      → IsPage limit shown
      → IsPage limit (show_exact limit exact shown)
  unfolding show_exact
  show_exact-IsPage limit none shown page = page
  show_exact-IsPage limit (some hit) shown page = elim (Bool-cases (ltb 0 limit)) [
    | inl pos ↦ rw pos (show_hit-IsPage limit hit shown (ground arith) page)
    | inr zero_limit ↦ rw zero_limit page
  ]

  pub shown_hits-IsPage :
      (exact : Option ExactMatch) (limit : ℕ) (chunks : List LiteralChunk)
      (ranked : List (RankedHit F))
      → IsPage limit (shown_hits exact limit chunks ranked)
  unfolding shown_hits
  shown_hits-IsPage exact limit chunks ranked =
      let ordered = retain_new [] (sort_by final_le ranked) in
      let selected = map (selected_hit exact chunks) ordered in
      show_exact-IsPage limit (find_exact exact selected) (take limit selected) (
        IsPage-take limit limit selected (omega arith) (
          rw (paths-selected exact chunks ordered)
            (retain_new-Distinct [] (sort_by final_le ranked))))
