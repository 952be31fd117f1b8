-- ===== src/Core/Snippet/Terms.antt =====
-- `query_terms` of crates/yams-core/src/snippet.rs: the terms of a query.
pub mod Found
use yams.Prelude.{
  ℕ, Bool, true, false, not, ◌&&◌, ◌||◌, List, [], ◌∷◌, ◌++◌, ltb, if◌then◌else◌, length, is_empty,
  any, filter,
}
use yams.Core.Text.{Text, characters}
use yams.Core.Text.Order.{text_eq}
use yams.Core.Snippet.{is_identifier}

pub stopwords : List Text
stopwords =
    characters "a"
    ∷ characters "an"
    ∷ characters "and"
    ∷ characters "are"
    ∷ characters "as"
    ∷ characters "at"
    ∷ characters "be"
    ∷ characters "but"
    ∷ characters "by"
    ∷ characters "for"
    ∷ characters "from"
    ∷ characters "has"
    ∷ characters "have"
    ∷ characters "how"
    ∷ characters "i"
    ∷ characters "if"
    ∷ characters "in"
    ∷ characters "into"
    ∷ characters "is"
    ∷ characters "it"
    ∷ characters "its"
    ∷ characters "of"
    ∷ characters "on"
    ∷ characters "or"
    ∷ characters "that"
    ∷ characters "the"
    ∷ characters "their"
    ∷ characters "then"
    ∷ characters "there"
    ∷ characters "these"
    ∷ characters "they"
    ∷ characters "this"
    ∷ characters "to"
    ∷ characters "was"
    ∷ characters "were"
    ∷ characters "what"
    ∷ characters "when"
    ∷ characters "where"
    ∷ characters "which"
    ∷ characters "who"
    ∷ characters "why"
    ∷ characters "will"
    ∷ characters "with"
    ∷ characters "you"
    ∷ characters "your"
    ∷ characters "do"
    ∷ characters "does"
    ∷ characters "did"
    ∷ characters "not"
    ∷ characters "no"
    ∷ characters "any"
    ∷ characters "all"
    ∷ characters "my"
    ∷ characters "me"
    ∷ characters "we"
    ∷ characters "our"
    ∷ characters "us"
    ∷ characters "can"
    ∷ characters "could"
    ∷ characters "should"
    ∷ characters "would"
    ∷ characters "about"
    ∷ characters "after"
    ∷ characters "before"
    ∷ characters "over"
    ∷ characters "under"
    ∷ characters "more"
    ∷ characters "most"
    ∷ characters "some"
    ∷ characters "such"
    ∷ characters "only"
    ∷ characters "own"
    ∷ characters "same"
    ∷ characters "so"
    ∷ characters "than"
    ∷ characters "too"
    ∷ characters "very"
    ∷ characters "just"
    ∷ characters "now"
    ∷ characters "yet"
    ∷ characters "still"
    ∷ characters "get"
    ∷ characters "got"
    ∷ characters "make"
    ∷ characters "made"
    ∷ characters "use"
    ∷ characters "used"
    ∷ characters "using"
    ∷ []

pub is_stopword : Text → Bool
unfolding stopwords
is_stopword term = any (text_eq term) stopwords

-- `filter(|term| seen.insert(term.clone()))`
pub keep_new : List Text → List Text → List Text
keep_new seen [] = []
keep_new seen (term ∷ terms) =
    let seen_before = keep_new seen terms in
    let seen_now = keep_new (term ∷ seen) terms in
    if any (text_eq term) seen then seen_before else term ∷ seen_now

-- A token of one character is dropped.
abbrev pub end_token : List Text → Text → List Text
end_token tokens current = if ltb 1 (length current) then tokens ++ current ∷ [] else tokens

abbrev pub select_terms : List Text → List Text → List Text
select_terms tokens content = if is_empty content then tokens else content

module _ (is_alphanumeric : ℕ → Bool) (to_lowercase : ℕ → Text) where
  -- The `for` loop: the tokens so far and the open one.
  pub terms_loop : List Text → Text → Text → List Text
  terms_loop tokens current [] = tokens
  terms_loop tokens current (c ∷ cs) =
      let further =
        terms_loop tokens (current ++ filter (is_identifier is_alphanumeric) (to_lowercase c)) cs in
      let ended = terms_loop (end_token tokens current) [] cs in
      if is_identifier is_alphanumeric c then further else ended

  unfoldable pub query_terms : Text → List Text
  unfolding terms_loop keep_new is_stopword
  query_terms query =
      let tokens = terms_loop [] [] (query ++ 32 ∷ []) in
      keep_new [] (select_terms tokens (filter (λ term. not (is_stopword term)) tokens))
