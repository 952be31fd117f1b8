-- ===== src/Core/Snippet/Terms/Found.antt =====
-- The terms that `query_terms` of crates/yams-core/src/snippet.rs finds.
use yams.Prelude.{
  all-append, ℕ, ◌≤◌, ◌≡◌, ◌≢◌, refl, ap, ◌⊎◌, inl, inr, Bool, true, false, not, List, [], ◌∷◌,
  ◌++◌, arith, ltb, length, is_empty, any, all, filter, All, All-append, All-filter, Bool-cases,
  if_lem,
}
use yams.Core.Text.{Text}
use yams.Core.Text.Order.{Distinct, text_eq, text_eq_iff}
use yams.Core.Snippet.{is_identifier}
use yams.Core.Snippet.Terms.{
  is_stopword, keep_new, end_token, select_terms, terms_loop, query_terms,
}

keep_new-fresh :
    (term : Text) (seen terms : List Text)
    → any (text_eq term) seen ≡ true
    → All (λ u. term ≢ u) (keep_new seen terms)
unfolding keep_new
keep_new-fresh term seen [] h = tt
keep_new-fresh term seen (t ∷ terms) h = elim (Bool-cases (any (text_eq t) seen)) [
  | inl old ↦ rw old (keep_new-fresh term seen terms h)
  | inr new ↦ rw new (
    (λ e. let same = ap (λ (u : Text). any (text_eq u) seen) e in ground arith),
    keep_new-fresh term (t ∷ seen) terms (ground arith),
  )
]

keep_new-Distinct : (seen terms : List Text) → Distinct (keep_new seen terms)
unfolding keep_new
keep_new-Distinct seen [] = tt
keep_new-Distinct seen (t ∷ terms) = elim (Bool-cases (any (text_eq t) seen)) [
  | inl old ↦ rw old (keep_new-Distinct seen terms)
  | inr new ↦ rw new (
    keep_new-fresh t (t ∷ seen) terms (let same = (text_eq_iff t t).1 refl in ground arith),
    keep_new-Distinct (t ∷ seen) terms,
  )
]

All-keep_new :
    (P : Text → Type 0) (seen terms : List Text) → All P terms → All P (keep_new seen terms)
unfolding keep_new
All-keep_new P seen [] h = tt
All-keep_new P seen (t ∷ terms) h =
    if_lem (All P) (any (text_eq t) seen) (λ old. All-keep_new P seen terms h.1)
      (λ new. (h.0, All-keep_new P (t ∷ seen) terms h.1))

all-filter : (p : ℕ → Bool) (xs : Text) → all p (filter p xs) ≡ true
all-filter p [] = refl
all-filter p (x ∷ xs) = ground (arith, all-filter p xs)

filter-holds : (p : Text → Bool) (ts : List Text) → All (λ t. p t ≡ true) (filter p ts)
filter-holds p [] = tt
filter-holds p (t ∷ ts) =
    if_lem (All (λ u. p u ≡ true)) (p t) (λ h. (h, filter-holds p ts)) (λ h. filter-holds p ts)

filter_empty :
    (p : Text → Bool) (ts : List Text) → is_empty (filter p ts) ≡ true → All (λ t. p t ≡ false) ts
filter_empty p [] h = tt
filter_empty p (t ∷ ts) h = elim (Bool-cases (p t)) [
  | inl holds ↦ absurd (ground arith)
  | inr fails ↦ (fails, filter_empty p ts (ground arith))
]

module _ (is_alphanumeric : ℕ → Bool) (to_lowercase : ℕ → Text) where
  -- An identifier of at least two characters.
  abbrev pub IsTerm : Text → Type 0
  IsTerm term = (2 ≤ length term) × (all (is_identifier is_alphanumeric) term ≡ true)

  end_token-IsTerm :
      (tokens : List Text) (current : Text)
      → all (is_identifier is_alphanumeric) current ≡ true
      → All IsTerm tokens
      → All IsTerm (end_token tokens current)
  end_token-IsTerm tokens current h ts =
      if_lem (All IsTerm) (ltb 1 (length current))
        (λ long. All-append IsTerm tokens (current ∷ []) ts ((ground arith, h), tt)) (λ short. ts)

  terms_loop-IsTerm :
      (tokens : List Text) (current cs : Text)
      → all (is_identifier is_alphanumeric) current ≡ true
      → All IsTerm tokens
      → All IsTerm (terms_loop is_alphanumeric to_lowercase tokens current cs)
  unfolding terms_loop
  terms_loop-IsTerm tokens current [] h ts = ts
  terms_loop-IsTerm tokens current (c ∷ cs) h ts =
      let folded = filter (is_identifier is_alphanumeric) (to_lowercase c) in
      let a = all-append (is_identifier is_alphanumeric) current folded in
      let b = all-filter (is_identifier is_alphanumeric) (to_lowercase c) in
      if_lem (All IsTerm) (is_identifier is_alphanumeric c)
        (λ inside. terms_loop-IsTerm tokens (current ++ folded) cs (ground arith) ts)
        (λ outside.
          terms_loop-IsTerm (end_token tokens current) [] cs refl
            (end_token-IsTerm tokens current h ts))

  -- Identifiers that differ, and without a stopword unless there are only stopwords.
  pub record Found (terms : List Text) : Type 0 where
    pub identifiers : All IsTerm terms
    pub distinct : Distinct terms
    pub stopped :
        All (λ t. not (is_stopword t) ≡ true) terms ⊎ All (λ t. not (is_stopword t) ≡ false) terms

  select_terms-Found :
      (tokens : List Text)
      → All IsTerm tokens
      → Found (keep_new [] (select_terms tokens (filter (λ t. not (is_stopword t)) tokens)))
  select_terms-Found tokens ts =
      let content = filter (λ t. not (is_stopword t)) tokens in
      if_lem (λ (selected : List Text). Found (keep_new [] selected)) (is_empty content)
        (λ none_left. record {
          identifiers = All-keep_new IsTerm [] tokens ts;
          distinct = keep_new-Distinct [] tokens;
          stopped = inr (
              All-keep_new (λ t. not (is_stopword t) ≡ false) [] tokens
                (filter_empty (λ t. not (is_stopword t)) tokens none_left));
        })
        (λ some_left. record {
          identifiers =
              All-keep_new IsTerm [] content
                (All-filter IsTerm (λ t. not (is_stopword t)) tokens ts);
          distinct = keep_new-Distinct [] content;
          stopped = inl (
              All-keep_new (λ t. not (is_stopword t) ≡ true) [] content
                (filter-holds (λ t. not (is_stopword t)) tokens));
        })

  -- The terms of a query are distinct identifiers of at least two characters, and none of them is a
  -- stopword unless all of them are.
  pub query_terms-Found : (query : Text) → Found (query_terms is_alphanumeric to_lowercase query)
  unfolding query_terms
  query_terms-Found query =
      select_terms-Found (terms_loop is_alphanumeric to_lowercase [] [] (query ++ 32 ∷ []))
        (terms_loop-IsTerm [] [] (query ++ 32 ∷ []) refl tt)
