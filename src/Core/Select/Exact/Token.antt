-- ===== src/Core/Select/Exact/Token.antt =====
-- `single_ascii_identifier_token` and `contains_identifier` of crates/yams-core/src/select.rs,
-- against what they look for.
use mathlib.Core.List.{append-nil, append_assoc}
use yams.Prelude.{
  ℕ, ◌≤◌, ◌≡◌, refl, sym, ap, ◌∙◌, inl, inr, Bool, true, false, not, ◌&&◌, none, some, [], ◌∷◌,
  ◌++◌, arith, length, drop, is_empty, any, all, drop-append, Bool-cases,
}
use yams.Core.Text.{Text}
use yams.Core.Text.Order.{starts_with, starts_with-append}
use yams.Core.Select.Exact.{
  is_identifier_byte, one_token, token_loop, single_ascii_identifier_token, is_free, contains_from,
  contains_identifier,
}

abbrev pub has_identifier : Text → Bool
has_identifier = any is_identifier_byte

abbrev pub is_identifier : Text → Bool
is_identifier = all is_identifier_byte

-- The text holds one identifier, with nothing of one around it.
pub record Isolated (query token : Text) : Type 0 where
  pub before : Text
  pub after : Text
  pub splits : query ≡ before ++ (token ++ after)
  pub before_free : has_identifier before ≡ false
  pub after_free : has_identifier after ≡ false
  pub token_bytes : is_identifier token ≡ true
  pub nonempty : is_empty token ≡ false

-- A second token makes the answer `none`.
loop_reopened : (x u cs : Text) → token_loop (x ∷ []) (some u) cs ≡ none
unfolding token_loop one_token
loop_reopened x u [] = refl
loop_reopened x u (c ∷ cs) = ground (arith, loop_reopened x (u ++ c ∷ []) cs)

loop_closed :
    (x cs : Text) {t : Text}
    → token_loop (x ∷ []) none cs ≡ some t
    → (t ≡ x) × (has_identifier cs ≡ false)
unfolding token_loop one_token
loop_closed x [] h = ground arith
loop_closed x (c ∷ cs) {t} h = elim (Bool-cases (is_identifier_byte c)) [
  | inl byte ↦ ground (arith, loop_reopened x (c ∷ []) cs)
  | inr other ↦ ground (arith, loop_closed x cs {t = t})
]

-- What an open token still takes in.
record Extends (u cs t : Text) : Type 0 where
  more : Text
  after : Text
  splits : cs ≡ more ++ after
  token_is : t ≡ u ++ more
  more_bytes : is_identifier more ≡ true
  after_free : has_identifier after ≡ false

loop_open : (u cs : Text) {t : Text} → token_loop [] (some u) cs ≡ some t → Extends u cs t
unfolding token_loop one_token
loop_open u [] h = record {
  more = [];
  after = [];
  splits = refl;
  token_is = ground (arith, append-nil u);
  more_bytes = refl;
  after_free = refl;
}
loop_open u (c ∷ cs) {t} h = elim (Bool-cases (is_identifier_byte c)) [
  | inl byte ↦
      let e = loop_open (u ++ c ∷ []) cs {t = t} (ground arith) in
      record {
        more = c ∷ e.more;
        after = e.after;
        splits = ap (◌∷◌ c) e.splits;
        token_is = e.token_is ∙ append_assoc u (c ∷ []) e.more;
        more_bytes = ground (arith, e.more_bytes);
        after_free = e.after_free;
      }
  | inr other ↦
      let closed = loop_closed u cs {t = t} (ground arith) in
      record {
        more = [];
        after = c ∷ cs;
        splits = refl;
        token_is = closed.0 ∙ sym (append-nil u);
        more_bytes = refl;
        after_free = ground arith;
      }
]

-- The token found is the one identifier of the query.
loop_start : (cs : Text) {t : Text} → token_loop [] none cs ≡ some t → Isolated cs t
unfolding token_loop one_token
loop_start [] h = cc
loop_start (c ∷ cs) {t} h = elim (Bool-cases (is_identifier_byte c)) [
  | inl byte ↦
      let e = loop_open (c ∷ []) cs {t = t} (ground arith) in
      rw e.token_is (record {
        before = [];
        after = e.after;
        splits = ap (◌∷◌ c) e.splits;
        before_free = refl;
        after_free = e.after_free;
        token_bytes = ground (arith, e.more_bytes);
        nonempty = refl;
      })
  | inr other ↦
      let i = loop_start cs {t = t} (ground arith) in
      record {
        before = c ∷ i.before;
        after = i.after;
        splits = ap (◌∷◌ c) i.splits;
        before_free = ground (arith, i.before_free);
        after_free = i.after_free;
        token_bytes = i.token_bytes;
        nonempty = i.nonempty;
      }
]

pub single_ascii_identifier_token-Isolated :
    (query : Text) {token : Text}
    → single_ascii_identifier_token query ≡ some token
    → Isolated query token
unfolding single_ascii_identifier_token
single_ascii_identifier_token-Isolated query h = loop_start query h

-- The last byte of a text is none of an identifier.
abbrev pub ends_free : Text → Bool
ends_free [] = true
ends_free (c ∷ []) = not (is_identifier_byte c)
ends_free (c ∷ d ∷ cs) = ends_free (d ∷ cs)

-- The token stands in the text, and no identifier goes on over its ends.
pub record Occurs (text token : Text) : Type 0 where
  pub before : Text
  pub after : Text
  pub splits : text ≡ before ++ (token ++ after)
  pub free_before : ends_free before ≡ true
  pub free_after : is_free after ≡ true

occurs_here :
    (cs token : Text)
    → (starts_with cs token && is_free (drop (length token) cs)) ≡ true
    → (after : Text) × (cs ≡ token ++ after) × (is_free after ≡ true)
occurs_here cs token h =
    let (after, e) = starts_with-append cs token (ground arith) in
    let rest : drop (length token) cs ≡ after =
      ap (drop (length token)) e ∙ drop-append token after in
    (after, e, ap is_free (sym rest) ∙ ground arith)

-- Found with `last` in front of the window: the part before the token does not end in an identifier,
-- where `last` counts if the part is empty.
record Found (last cs token : Text) : Type 0 where
  before : Text
  after : Text
  splits : cs ≡ before ++ (token ++ after)
  free_before : ends_free (last ++ before) ≡ true
  free_after : is_free after ≡ true

ends_free_nil : (t : Text) → length t ≤ 1 → ends_free (t ++ []) ≡ is_free t
ends_free_nil [] one = refl
ends_free_nil (c ∷ []) one = refl
ends_free_nil (c ∷ d ∷ t) one = absurd (omega arith)

ends_free_cons :
    (t : Text) (c : ℕ) (b : Text) → length t ≤ 1 → ends_free (t ++ c ∷ b) ≡ ends_free (c ∷ b)
ends_free_cons [] c b one = refl
ends_free_cons (d ∷ []) c b one = refl
ends_free_cons (d ∷ e ∷ t) c b one = absurd (omega arith)

contains_from-Found :
    (last cs token : Text)
    → length last ≤ 1
    → contains_from last cs token ≡ true
    → Found last cs token
unfolding contains_from
contains_from-Found last [] token one h = cc
contains_from-Found last (c ∷ cs) token one h =
    elim (Bool-cases
      (starts_with (c ∷ cs) token && is_free last && is_free (drop (length token) (c ∷ cs)))) [
        | inl here ↦
            let (after, e, free) = occurs_here (c ∷ cs) token (ground arith) in
            record {
              before = [];
              after = after;
              splits = e;
              free_before = ends_free_nil last one ∙ ground arith;
              free_after = free;
            }
        | inr later ↦
            let f = contains_from-Found (c ∷ []) cs token (omega arith) (ground arith) in
            record {
              before = c ∷ f.before;
              after = f.after;
              splits = ap (◌∷◌ c) f.splits;
              free_before = ends_free_cons last c f.before one ∙ f.free_before;
              free_after = f.free_after;
            }
      ]

pub contains_identifier-Occurs :
    (text token : Text) → contains_identifier text token ≡ true → Occurs text token
unfolding contains_identifier
contains_identifier-Occurs text token h =
    let f = contains_from-Found [] text token (omega arith) h in
    record {
      before = f.before;
      after = f.after;
      splits = f.splits;
      free_before = f.free_before;
      free_after = f.free_after;
    }
