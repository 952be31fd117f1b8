-- ===== src/Core/Select/Exact.antt =====
-- `exact_identifier_match` of crates/yams-core/src/select.rs: the rescue of a unique identifier.
pub mod Token
pub mod Unique
use yams.Prelude.{
  ℕ, zero, suc, Bool, true, false, not, ◌&&◌, ◌||◌, Option, none, some, List, [], ◌∷◌, ◌++◌, ltb,
  leb, ◌==◌, if◌then◌else◌, length, drop, any, filter,
}
use yams.Prelude.Sorting.{sort_by}
use yams.Core.Text.{Text}
use yams.Core.Text.Order.{text_eq, text_le, starts_with}

-- One chunk of the corpus.
pub record LiteralChunk : Type 0 where
  pub path : Text
  pub ordinal : ℕ
  pub text : Text

pub record ExactMatch : Type 0 where
  pub path : Text
  pub ordinal : ℕ

abbrev pub is_lowercase : ℕ → Bool
is_lowercase c = leb b'a' c && leb c b'z'

abbrev pub is_uppercase : ℕ → Bool
is_uppercase c = leb b'A' c && leb c b'Z'

abbrev pub is_digit : ℕ → Bool
is_digit c = leb b'0' c && leb c b'9'

unfoldable pub is_identifier_byte : ℕ → Bool
is_identifier_byte c = is_lowercase c || is_uppercase c || is_digit c || c == b'_'

-- The loop of `single_ascii_identifier_token`: the tokens so far and the one that is open.
abbrev pub open_with : Option Text → ℕ → Text
open_with none c = c ∷ []
open_with (some t) c = t ++ c ∷ []

abbrev pub close_token : List Text → Option Text → List Text
close_token tokens none = tokens
close_token tokens (some t) = tokens ++ t ∷ []

pub one_token : List Text → Option Text
one_token (t ∷ []) = some t
one_token _ = none

pub token_loop : List Text → Option Text → Text → Option Text
token_loop tokens started [] = one_token (close_token tokens started)
token_loop tokens started (c ∷ cs) =
    let tokens' = if is_identifier_byte c then tokens else close_token tokens started in
    let started' = if is_identifier_byte c then some (open_with started c) else none in
    let rest = token_loop tokens' started' cs in if ltb 1 (length tokens') then none else rest

pub single_ascii_identifier_token : Text → Option Text
unfolding token_loop one_token
single_ascii_identifier_token query = token_loop [] none query

-- Is a token allowed to end, or begin, in front of, or behind, this text?
abbrev pub is_free : Text → Bool
is_free [] = true
is_free (c ∷ cs) = not (is_identifier_byte c)

-- `text.windows(token.len()).any(...)`, with the byte in front of the window. The token is not
-- empty, so the empty text has no window.
pub contains_from : Text → Text → Text → Bool
contains_from before [] token = false
contains_from before (c ∷ cs) token =
    (starts_with (c ∷ cs) token && is_free before && is_free (drop (length token) (c ∷ cs)))
    || contains_from (c ∷ []) cs token

pub contains_identifier : Text → Text → Bool
unfolding contains_from
contains_identifier text token = contains_from [] text token

abbrev pub starts_lowercase : Text → Bool
starts_lowercase [] = false
starts_lowercase (c ∷ cs) = is_lowercase c && any is_uppercase cs

-- An underscore, a digit or lower camel case.
pub is_narrow : Text → Bool
is_narrow token = any (λ c. c == b'_') token || any is_digit token || starts_lowercase token

-- The order by path and then by ordinal.
pub chunk_le : LiteralChunk → LiteralChunk → Bool
chunk_le a b = if text_eq a.path b.path then leb a.ordinal b.ordinal else text_le a.path b.path

abbrev pub is_leader : Option Text → Text → Bool
is_leader none path = false
is_leader (some leader) path = text_eq leader path

-- What follows the sort: one page only, and the lexical leader.
pub unique_match : Option Text → List LiteralChunk → Option ExactMatch
unique_match leader [] = none
unique_match leader (first ∷ rest) =
    if any (λ chunk. not (text_eq chunk.path first.path)) (first ∷ rest)
    then none
    else if not (is_leader leader first.path)
    then none
    else some (record { path = first.path; ordinal = first.ordinal })

pub match_token : Option Text → List LiteralChunk → Text → Option ExactMatch
match_token leader chunks token =
    if is_narrow token
    then unique_match leader
        (sort_by chunk_le (filter (λ chunk. contains_identifier chunk.text token) chunks))
    else none

unfoldable pub exact_identifier_match : Text → Option Text → List LiteralChunk → Option ExactMatch
unfolding single_ascii_identifier_token contains_identifier is_narrow chunk_le unique_match
    match_token
exact_identifier_match query leader chunks = elim (single_ascii_identifier_token query) [
  | none ↦ none
  | some token ↦ match_token leader chunks token
]
