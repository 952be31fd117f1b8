-- ===== src/Wiki/Schema/Trip/Values.antt =====
-- What `trim` and `strict_unquote` of crates/yams-wiki/src/schema.rs leave of a value.
use yams.Prelude.{
  ℕ, suc, ◌≡◌, refl, ap, ◌∙◌, inl, inr, Bool, true, false, ◌&&◌, ◌||◌, Option, none, some, [], ◌∷◌,
  arith, ltb, leb, ◌==◌, if◌then◌else◌, is_empty, any, Bool-cases, ok, >>-ok,
}
use yams.Core.Text.{Text, is_whitespace, trim, trim_start, trim_end}
use yams.Wiki.Schema.{ScalarProblem}
use yams.Wiki.Schema.Lines.{is_splitlines_boundary, IsLine}
use yams.Wiki.Schema.Page.{strict_unquote, date_loop, is_iso_date}
use yams.Wiki.Schema.Scalar.{
  character_problem, scalar_problem, or_shape, refuse_problem, validate_frontmatter_scalar,
  python_trim,
}
use yams.Wiki.Schema.Slug.{is_word}
use yams.Wiki.Schema.Slug.Hyphens.{hyphenated}

-- A value without white space, line boundaries and quotes.
abbrev pub is_odd : ℕ → Bool
is_odd c = is_whitespace c || (is_splitlines_boundary c || (c == b'\'' || c == b'"'))

abbrev pub IsPlain : Text → Type 0
IsPlain t = any is_odd t ≡ false

trim_end-plain : (t : Text) → IsPlain t → trim_end t ≡ t
unfolding trim_end
trim_end-plain [] h = refl
trim_end-plain (c ∷ cs) h =
    let ih = trim_end-plain cs (ground arith) in
    let off : (is_empty cs && is_whitespace c) ≡ false = ground arith in rw (ih, off) refl

trim-plain : (t : Text) → IsPlain t → trim t ≡ t
unfolding trim trim_start
trim-plain [] h = ap trim_start (trim_end-plain [] h)
trim-plain (c ∷ cs) h =
    let off : is_whitespace c ≡ false = ground arith in
    ap trim_start (trim_end-plain (c ∷ cs) h) ∙ rw off refl

unquote-plain : (t : Text) → IsPlain t → strict_unquote t ≡ t
unfolding strict_unquote
unquote-plain [] h = refl
unquote-plain (c ∷ cs) h = let off : (c == b'\'' || c == b'"') ≡ false = ground arith in rw off refl

space_passed :
    (u : Text) → trim_start (if is_empty u && is_whitespace 32 then [] else 32 ∷ u) ≡ trim_start u
unfolding trim_start is_whitespace
space_passed [] = refl
space_passed (c ∷ cs) = refl

-- The space behind a colon is trimmed.
pub trim_space : (t : Text) → trim (32 ∷ t) ≡ trim t
unfolding trim trim_end
trim_space t = space_passed (trim_end t)

pub plain_value : (t : Text) → IsPlain t → strict_unquote (trim (32 ∷ t)) ≡ t
plain_value t h = ap strict_unquote (trim_space t ∙ trim-plain t h) ∙ unquote-plain t h

pub IsPlain-IsLine : (t : Text) → IsPlain t → IsLine t
IsPlain-IsLine [] h = refl
IsPlain-IsLine (c ∷ cs) h = ground (arith, IsPlain-IsLine cs)

character_problem-IsLine : (t : Text) → character_problem t ≡ none → IsLine t
unfolding character_problem
character_problem-IsLine [] h = refl
character_problem-IsLine (c ∷ cs) h = elim (Bool-cases (is_splitlines_boundary c)) [
  | inl at ↦ let e = rw at at h in cc
  | inr off ↦ elim (Bool-cases (ltb c 0x20 || (leb 0x7f c && leb c 0x9f))) [
    | inl control ↦ let e = rw (off, control) at h in cc
    | inr fine ↦ let e = rw (off, fine) at h in rw off (character_problem-IsLine cs e)
  ]
]

or_shape-none :
    (is_link : Text → Bool) (value : Text) (o : Option ScalarProblem)
    → or_shape is_link value o ≡ none
    → o ≡ none
or_shape-none is_link value none h = refl
or_shape-none is_link value (some problem) h = cc

refuse_problem-ok :
    (is_link : Text → Bool) (name : Text) (o : Option ScalarProblem)
    → refuse_problem is_link name o ≡ ok tt
    → o ≡ none
refuse_problem-ok is_link name none h = refl
refuse_problem-ok is_link name (some problem) h = cc

pub scalar-IsLine :
    (is_link : Text → Bool) (name value : Text)
    → validate_frontmatter_scalar is_link name value ≡ ok tt
    → IsLine value
unfolding validate_frontmatter_scalar scalar_problem
scalar-IsLine is_link name value h =
    let (fine, rest) = >>-ok (refuse_problem is_link name (scalar_problem is_link value)) _ h in
    let without = refuse_problem-ok is_link name (scalar_problem is_link value) fine in
    elim (Bool-cases (is_empty (python_trim value))) [
      | inl nothing ↦ let e = rw (scalar_problem, nothing) at without in cc
      | inr there ↦
          let e = rw (scalar_problem, there) at without in
          character_problem-IsLine value (or_shape-none is_link value (character_problem value) e)
    ]

slug_char-odd : (c : ℕ) → (is_word c || c == b'-') ≡ true → is_odd c ≡ false
unfolding is_whitespace
slug_char-odd c h = ground arith

pub hyphenated-IsPlain : (hyphen : Bool) (t : Text) → hyphenated hyphen t ≡ true → IsPlain t
hyphenated-IsPlain hyphen [] h = refl
hyphenated-IsPlain hyphen (c ∷ cs) h = elim (Bool-cases (is_word c)) [
  | inl word ↦
      let e = rw word at h in rw (slug_char-odd c (rw word refl)) (hyphenated-IsPlain false cs e)
  | inr other ↦
      let e = rw other at h in
      let at : (is_word c || c == b'-') ≡ true = rw other (ground arith) in
      rw (slug_char-odd c at) (hyphenated-IsPlain true cs (ground arith))
]

and_true : (a b : Bool) → (a && b) ≡ true → (a ≡ true) × (b ≡ true)
and_true true b h = (refl, h)
and_true false b h = cc

module _ (is_decimal : ℕ → Bool)
    (plain_digits : (c : ℕ) → is_decimal c ≡ true → is_odd c ≡ false) where
  date_loop-IsPlain : (index : ℕ) (t : Text) → date_loop is_decimal index t ≡ true → IsPlain t
  unfolding date_loop
  date_loop-IsPlain index [] h = refl
  date_loop-IsPlain index (c ∷ cs) h = elim (Bool-cases (leb 10 index)) [
    | inl past ↦ let e = rw past at h in cc
    | inr within ↦
        let e = rw within at h in
        elim (Bool-cases (index == 4 || index == 7)) [
          | inl hyphen ↦
              let f = rw hyphen at e in
              let parts = and_true (c == b'-') (date_loop is_decimal (suc index) cs) f in
              let at : (is_word c || c == b'-') ≡ true = ground arith in
              rw (slug_char-odd c at) (date_loop-IsPlain (suc index) cs parts.1)
          | inr digit ↦
              let f = rw digit at e in
              let parts = and_true (is_decimal c) (date_loop is_decimal (suc index) cs) f in
              rw (plain_digits c parts.0) (date_loop-IsPlain (suc index) cs parts.1)
        ]
  ]

  pub is_iso_date-IsPlain : (t : Text) → is_iso_date is_decimal t ≡ true → IsPlain t
  unfolding is_iso_date
  is_iso_date-IsPlain t h = date_loop-IsPlain 0 t h
