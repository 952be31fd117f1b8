-- ===== src/Core/Rank/Hybrid/Indexed.antt =====
-- The ranks by page that `hybrid_rank` of crates/yams-core/src/rank.rs looks up.
use mathlib.Core.Path.{subst}
use yams.Prelude.{
  ℕ, suc, ◌-◌, ◌≤◌, ◌≡◌, ◌≢◌, refl, sym, ap, ◌∙◌, inl, inr, Option, none, some, List, [], ◌∷◌, map,
  arith, if◌then◌else◌, get_elem?, All, Bool-cases,
}
use yams.Core.Text.{Text}
use yams.Core.Text.Order.{text_eq, text_eq_iff, Distinct}
use yams.Core.Text.Maps.{IsOrdered, update, lookup, lookup-update, update-IsOrdered}
use yams.Core.Text.Paths.{path_le, path_le-TextOrder}
use yams.Core.Rank.Hybrid.{insert_ranked}

module _ {A : Type 0} (page_of : A → Text) where
  -- The first element of the page, with its rank.
  abbrev pub found : ℕ → Text → List A → Option (ℕ × A)
  found rank page [] = none
  found rank page (x ∷ xs) =
      let rest = found (suc rank) page xs in
      if text_eq page (page_of x) then some (rank, x) else rest

  abbrev or_else : Option (ℕ × A) → Option (ℕ × A) → Option (ℕ × A)
  or_else none other = other
  or_else (some a) other = some a

  found-none :
      (rank : ℕ) (page : Text) (xs : List A)
      → All (λ p. page ≢ p) (map page_of xs)
      → found rank page xs ≡ none
  found-none rank page [] h = refl
  found-none rank page (x ∷ xs) h = elim (Bool-cases (text_eq page (page_of x))) [
    | inl at ↦ absurd (h.0 ((text_eq_iff page (page_of x)).0 at))
    | inr off ↦ rw off (found-none (suc rank) page xs h.1)
  ]

  lookup-insert_more :
      (rank : ℕ) (page : Text) (xs : List A) (m : List (Text × (ℕ × A)))
      → Distinct (map page_of xs)
      → IsOrdered path_le m
      → lookup page (insert_ranked page_of rank xs m) ≡ or_else (found rank page xs) (lookup page m)
  unfolding insert_ranked
  lookup-insert_more rank page [] m d h = refl
  lookup-insert_more rank page (x ∷ xs) m d h =
      let set : Option (ℕ × A) → ℕ × A = λ old. (rank, x) in
      let next = update path_le (page_of x) set m in
      let ih =
        lookup-insert_more (suc rank) page xs next d.1
          (update-IsOrdered path_le path_le-TextOrder (page_of x) set m h) in
      let one = lookup-update path_le path_le-TextOrder page (page_of x) set m h in
      elim (Bool-cases (text_eq page (page_of x))) [
        | inl at ↦
            let same : page_of x ≡ page = sym ((text_eq_iff page (page_of x)).0 at) in
            let absent : found (suc rank) page xs ≡ none =
              ap (λ (p : Text). found (suc rank) p xs) (sym same)
              ∙ found-none (suc rank) (page_of x) xs d.0 in
            let e = rw at at one in
            rw at (ih ∙ ap (λ (o : Option (ℕ × A)). or_else o (lookup page next)) absent ∙ e)
        | inr off ↦ let e = rw off at one in rw off (ih ∙ ap (or_else (found (suc rank) page xs)) e)
      ]

  or_else-none : (o : Option (ℕ × A)) → or_else o none ≡ o
  or_else-none none = refl
  or_else-none (some a) = refl

  -- Of pages that differ, the map has the rank and the element.
  pub lookup-insert_ranked :
      (page : Text) (xs : List A)
      → Distinct (map page_of xs)
      → lookup page (insert_ranked page_of 1 xs []) ≡ found 1 page xs
  unfolding lookup
  lookup-insert_ranked page xs d =
      lookup-insert_more 1 page xs [] d tt ∙ or_else-none (found 1 page xs)

  -- What is found stands at its rank and is of the page.
  pub record IsFound (first : ℕ) (page : Text) (xs : List A) (at : ℕ × A) : Type 0 where
    pub from_first : first ≤ at.0
    pub stands : get_elem? xs (at.0 - first) ≡ some at.1
    pub of_page : page_of at.1 ≡ page

  pub found-IsFound :
      (first : ℕ) (page : Text) (xs : List A) (at : ℕ × A)
      → found first page xs ≡ some at
      → IsFound first page xs at
  found-IsFound first page [] at h = cc
  found-IsFound first page (x ∷ xs) at h = elim (Bool-cases (text_eq page (page_of x))) [
    | inl here ↦
        let same : ◌≡◌ {A = ℕ × A} (first, x) at = let e = rw here at h in cc in
        let none_before : 0 ≡ first - first = omega arith in
        let first_found : IsFound first page (x ∷ xs) (first, x) = record {
          from_first = omega arith;
          stands = ap (λ (i : ℕ). get_elem? (x ∷ xs) i) (sym none_before);
          of_page = sym ((text_eq_iff page (page_of x)).0 here);
        } in
        subst (IsFound first page (x ∷ xs)) same first_found
    | inr later ↦
        let e = rw later at h in
        let ih = found-IsFound (suc first) page xs at e in
        let further : at.0 - first ≡ suc (at.0 - suc first) = omega (arith, ih.from_first) in
        record {
          from_first = omega (arith, ih.from_first);
          stands = ap (λ (i : ℕ). get_elem? (x ∷ xs) i) further ∙ ih.stands;
          of_page = ih.of_page;
        }
  ]

  abbrev pub IsThere : List A → Text → Type 0
  IsThere xs page = (at : ℕ × A) × (found 1 page xs ≡ some at)

  found_later :
      (rank : ℕ) (x : A) (xs : List A) (pages : List Text)
      → All (λ page. (at : ℕ × A) × (found (suc rank) page xs ≡ some at)) pages
      → All (λ page. (at : ℕ × A) × (found rank page (x ∷ xs) ≡ some at)) pages
  found_later rank x xs [] h = tt
  found_later rank x xs (page ∷ pages) h =
      let rest = found_later rank x xs pages h.1 in
      elim (Bool-cases (text_eq page (page_of x))) [
        | inl here ↦ (((rank, x), rw here refl), rest)
        | inr later ↦ ((h.0.0, rw later h.0.1), rest)
      ]

  pub found_member :
      (rank : ℕ) (xs : List A)
      → All (λ page. (at : ℕ × A) × (found rank page xs ≡ some at)) (map page_of xs)
  found_member rank [] = tt
  found_member rank (x ∷ xs) =
      let here = (text_eq_iff (page_of x) (page_of x)).1 refl in
      (
        ((rank, x), rw here refl),
        found_later rank x xs (map page_of xs) (found_member (suc rank) xs),
      )
