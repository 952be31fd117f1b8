-- ===== src/Core/Select/Exact/Unique.antt =====
-- What `exact_identifier_match` of crates/yams-core/src/select.rs found: the one page that has the
-- identifier, which the lexical search leads with.
use yams.Prelude.{
  ◌≤◌, ◌≡◌, refl, sym, ap, ◌∙◌, ◌⊎◌, inl, inr, Bool, true, false, not, ◌&&◌, Option, none, some,
  List, [], ◌∷◌, arith, ◌==◌, any, filter, All, Option-cases,
}
use yams.Prelude.Sorting.{sort_by, sort_by-IsSorted, sort_by-All, any-sort_by, IsSorted}
use yams.Core.Text.{Text}
use yams.Core.Text.Order.{text_eq, text_eq_iff, text_le_trans, text_le_total, text_le_antisymm}
use yams.Core.Select.Exact.{
  LiteralChunk, ExactMatch, is_narrow, chunk_le, is_leader, unique_match, match_token,
  single_ascii_identifier_token, contains_identifier, exact_identifier_match,
}
use yams.Core.Select.Exact.Token.{Isolated, single_ascii_identifier_token-Isolated}

chunk_le_total : (a b : LiteralChunk) → (chunk_le a b ≡ true) ⊎ (chunk_le b a ≡ true)
unfolding chunk_le
chunk_le_total a b =
    let ab = text_eq_iff a.path b.path in
    let ba = text_eq_iff b.path a.path in let t = text_le_total a.path b.path in ground arith

chunk_le_trans :
    (a b c : LiteralChunk) → chunk_le a b ≡ true → chunk_le b c ≡ true → chunk_le a c ≡ true
unfolding chunk_le
chunk_le_trans a b c p q =
    let ab = text_eq_iff a.path b.path in
    let bc = text_eq_iff b.path c.path in
    let ac = text_eq_iff a.path c.path in
    let t = text_le_trans a.path b.path c.path in
    let anti = text_le_antisymm a.path b.path in ground arith

-- The chunk that the match names.
abbrev pub is_chunk_of : ExactMatch → LiteralChunk → Bool
is_chunk_of matched chunk = text_eq chunk.path matched.path && chunk.ordinal == matched.ordinal

abbrev pub with_token : Text → List LiteralChunk → List LiteralChunk
with_token token chunks = filter (λ chunk. contains_identifier chunk.text token) chunks

abbrev pub IsBehind : ExactMatch → LiteralChunk → Type 0
IsBehind matched chunk = (chunk.path ≡ matched.path) × (matched.ordinal ≤ chunk.ordinal)

-- The match is the first of the chunks `found`, they stand on one page, and it is the leader.
record Only (leader : Option Text) (found : List LiteralChunk) (matched : ExactMatch) : Type 0 where
  leads : leader ≡ some matched.path
  one_page : All (IsBehind matched) found
  there : any (is_chunk_of matched) found ≡ true

All-IsBehind :
    (first : LiteralChunk) (chunks : List LiteralChunk)
    → All (λ c. chunk_le first c ≡ true) chunks
    → any (λ chunk. not (text_eq chunk.path first.path)) chunks ≡ false
    → All (IsBehind (record { path = first.path; ordinal = first.ordinal })) chunks
unfolding chunk_le
All-IsBehind first [] le h = tt
All-IsBehind first (c ∷ chunks) le h =
    let e : c.path ≡ first.path = (text_eq_iff c.path first.path).0 (ground arith) in
    let s = (text_eq_iff first.path c.path).1 (sym e) in
    let b = le.0 in ((e, ground arith), All-IsBehind first chunks le.1 (ground arith))

is_leader-some :
    (leader : Option Text) (path : Text) → is_leader leader path ≡ true → leader ≡ some path
is_leader-some none path h = cc
is_leader-some (some l) path h = ap some ((text_eq_iff l path).0 h)

unique_match-Only :
    (leader : Option Text) (found : List LiteralChunk) {matched : ExactMatch}
    → IsSorted chunk_le found
    → unique_match leader found ≡ some matched
    → Only leader found matched
unfolding unique_match
unique_match-Only leader [] sorted h = cc
unique_match-Only leader (first ∷ rest) {matched} sorted h =
    let m : ExactMatch = record { path = first.path; ordinal = first.ordinal } in
    let e : m ≡ matched = ground arith in
    let refl_eq = (text_eq_iff first.path first.path).1 refl in
    let only : Only leader (first ∷ rest) m = record {
      leads = is_leader-some leader first.path (ground arith);
      one_page = ((refl, omega arith), All-IsBehind first rest sorted.0 (ground arith));
      there = ground arith;
    } in
    rw (sym e) only

-- What a match tells: `token` is the one identifier of the query, it is narrow, the lexical leader
-- is the page of the match, all chunks that have the token stand on that page, and the match names
-- the lowest of them.
pub record Rescues (query : Text) (leader : Option Text) (chunks : List LiteralChunk)
    (matched : ExactMatch) : Type 0 where
  pub token : Text
  pub isolated : Isolated query token
  pub narrow : is_narrow token ≡ true
  pub leads : leader ≡ some matched.path
  pub one_page : All (IsBehind matched) (with_token token chunks)
  pub there : any (is_chunk_of matched) (with_token token chunks) ≡ true

match_token-Only :
    (leader : Option Text) (chunks : List LiteralChunk) (token : Text) {matched : ExactMatch}
    → match_token leader chunks token ≡ some matched
    → Only leader (sort_by chunk_le (with_token token chunks)) matched × (is_narrow token ≡ true)
unfolding match_token
match_token-Only leader chunks token {matched} h = (
  unique_match-Only leader (sort_by chunk_le (with_token token chunks)) {matched = matched}
      (sort_by-IsSorted chunk_le chunk_le_trans chunk_le_total (with_token token chunks))
      (ground arith),
  ground arith,
)

-- A match of `exact_identifier_match` names the lowest chunk of the only page that has the query's
-- one identifier; the page is the lexical leader, and the identifier is narrow.
pub exact_identifier_match-Rescues :
    (query : Text) (leader : Option Text) (chunks : List LiteralChunk) {matched : ExactMatch}
    → exact_identifier_match query leader chunks ≡ some matched
    → Rescues query leader chunks matched
unfolding exact_identifier_match
exact_identifier_match-Rescues query leader chunks {matched} h =
    elim (Option-cases (single_ascii_identifier_token query)) [
      | inl e ↦ absurd (ground arith)
      | inr (token, e) ↦
          let m = match_token-Only leader chunks token {matched = matched} (ground arith) in
          let found = with_token token chunks in
          record {
            token = token;
            isolated = single_ascii_identifier_token-Isolated query e;
            narrow = m.1;
            leads = m.0.leads;
            one_page = sort_by-All (IsBehind matched) chunk_le found m.0.one_page;
            there = sym (any-sort_by (is_chunk_of matched) chunk_le found) ∙ m.0.there;
          }
    ]
