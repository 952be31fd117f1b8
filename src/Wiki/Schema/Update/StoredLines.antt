-- ===== src/Wiki/Schema/Update/StoredLines.antt =====
-- The values that `parse_frontmatter_fields` of crates/yams-wiki/src/schema.rs reads are on one line.
use yams.Prelude.{
  ℕ, zero, suc, ◌≡◌, ◌≢◌, refl, inl, inr, Bool, false, not, ◌&&◌, ◌||◌, Option, none, some, List,
  [], ◌∷◌, ◌++◌, arith, ◌-◌, ◌==◌, length, take, is_empty, All, Bool-cases, if_lem, Result, ok, err,
  ◌>>◌, refuse_if, >>=-Steps, ok-injective,
}
use yams.Core.Text.{
  Text, characters, lf, cr, trim, trim_start, trim_end, split_once, in_front, is_whitespace,
}
use yams.Core.Text.Order.{text_eq, text_eq_iff, text_le}
use yams.Core.Text.Maps.{lookup, update}
use yams.Wiki.Schema.{SchemaError, unknown_key, duplicate_key}
use yams.Wiki.Schema.Lines.{is_splitlines_boundary, splitlines_loop, IsLine, IsLine-append}
use yams.Wiki.Schema.Page.{
  Fields, is_absent, at_key, field, is_page_fence, line_before, before_fence, legal_line,
  is_legal_key, strict_field_line, ends_with, strict_unquote, is_indented, canonical_key, put_line,
  field_step, fields_loop,
}

-- Lines.
pub splitlines_loop-IsLine :
    (after_cr : Bool) (line cs : Text) → IsLine line → All IsLine (splitlines_loop after_cr line cs)
unfolding splitlines_loop
splitlines_loop-IsLine after_cr line [] h =
    if_lem (All IsLine) (is_empty line) (λ nothing. tt) (λ there. (h, tt))
splitlines_loop-IsLine after_cr line (c ∷ cs) h =
    if_lem (All IsLine) (after_cr && c == lf) (λ passed. splitlines_loop-IsLine false line cs h)
      (λ other.
        if_lem (All IsLine) (is_splitlines_boundary c)
          (λ ended. (h, splitlines_loop-IsLine (c == cr) [] cs refl))
          (λ further.
            splitlines_loop-IsLine false (line ++ (c ∷ [])) cs
              (IsLine-append line (c ∷ []) h (rw further refl))))

pub before_line :
    (line : Text) (rest : Option (List Text)) (lines : List Text)
    → line_before line rest ≡ some lines
    → (front : List Text) × (rest ≡ some front) × (lines ≡ line ∷ front)
before_line line none lines e = cc
before_line line (some front) lines e = (front, refl, cc)

pub nothing_before : (lines : List Text) → some [] ≡ some lines → lines ≡ []
nothing_before lines e = cc

pub before_fence-IsLine :
    (all_lines lines : List Text)
    → All IsLine all_lines
    → before_fence all_lines ≡ some lines
    → All IsLine lines
unfolding before_fence
before_fence-IsLine [] lines h e = cc
before_fence-IsLine (line ∷ rest) lines h e = elim (Bool-cases (is_page_fence line)) [
  | inl fence ↦ let f = rw fence at e in rw (nothing_before lines f) tt
  | inr other ↦
      let f = rw other at e in
      let (front, g, all_of) = before_line line (before_fence rest) lines f in
      rw all_of (h.0, before_fence-IsLine rest front h.1 g)
]

not_fence : (line : Text) → is_page_fence line ≡ false → line ≢ characters "---"
unfolding is_page_fence
not_fence line h e = let at = (text_eq_iff line (characters "---")).1 e in cc

pub before_fence-ne :
    (all_lines lines : List Text)
    → before_fence all_lines ≡ some lines
    → All (λ line. line ≢ characters "---") lines
unfolding before_fence
before_fence-ne [] lines e = cc
before_fence-ne (line ∷ rest) lines e = elim (Bool-cases (is_page_fence line)) [
  | inl fence ↦ let f = rw fence at e in rw (nothing_before lines f) tt
  | inr other ↦
      let f = rw other at e in
      let (front, g, all_of) = before_line line (before_fence rest) lines f in
      rw all_of (not_fence line other, before_fence-ne rest front g)
]

-- Values.
abbrev Behind : Option (Text × Text) → Type 0
Behind none = Unit
Behind (some (before, behind)) = IsLine behind

in_front-Behind : (c : ℕ) (o : Option (Text × Text)) → Behind o → Behind (in_front c o)
in_front-Behind c none h = tt
in_front-Behind c (some (before, behind)) h = h

split_once-Behind : (sep : ℕ) (t : Text) → IsLine t → Behind (split_once sep t)
unfolding split_once
split_once-Behind sep [] h = tt
split_once-Behind sep (c ∷ cs) h =
    let rest : IsLine cs = ground arith in
    if_lem Behind (c == sep) (λ at. rest)
      (λ other. in_front-Behind c (split_once sep cs) (split_once-Behind sep cs rest))

trim_end-IsLine : (t : Text) → IsLine t → IsLine (trim_end t)
unfolding trim_end
trim_end-IsLine [] h = refl
trim_end-IsLine (c ∷ cs) h =
    let rest = trim_end-IsLine cs (ground arith) in
    if_lem IsLine (is_empty (trim_end cs) && is_whitespace c) (λ off. refl) (λ kept. ground arith)

trim_start-IsLine : (t : Text) → IsLine t → IsLine (trim_start t)
unfolding trim_start
trim_start-IsLine [] h = refl
trim_start-IsLine (c ∷ cs) h =
    if_lem IsLine (is_whitespace c) (λ off. trim_start-IsLine cs (ground arith)) (λ kept. h)

trim-IsLine : (t : Text) → IsLine t → IsLine (trim t)
unfolding trim
trim-IsLine t h = trim_start-IsLine (trim_end t) (trim_end-IsLine t h)

take-IsLine : (n : ℕ) (t : Text) → IsLine t → IsLine (take n t)
take-IsLine zero t h = refl
take-IsLine (suc n) [] h = refl
take-IsLine (suc n) (c ∷ cs) h = let rest = take-IsLine n cs (ground arith) in ground arith

strict_unquote-IsLine : (t : Text) → IsLine t → IsLine (strict_unquote t)
unfolding strict_unquote
strict_unquote-IsLine [] h = refl
strict_unquote-IsLine (c ∷ cs) h =
    if_lem IsLine ((c == b'\'' || c == b'"') && ends_with c cs)
      (λ quoted. take-IsLine (length cs - 1) cs (ground arith)) (λ plain. h)

abbrev Values : Fields → Type 0
Values fields = All (λ e. IsLine e.1) fields

update-Values :
    (key value : Text) (fields : Fields)
    → IsLine value
    → Values fields
    → Values (update text_le key (λ old. value) fields)
unfolding update
update-Values key value [] h fs = (h, tt)
update-Values key value ((k, v) ∷ fields) h fs =
    if_lem Values (text_eq key k) (λ same. (h, fs.1))
      (λ other.
        if_lem Values (text_le key k) (λ below. (h, fs))
          (λ above. (fs.0, update-Values key value fields h fs.1)))

-- Those fields have such values, if there are fields.
abbrev Good : Result SchemaError Fields → Type 0
Good (ok fields) = Values fields
Good (err error) = Unit

good : (r : Result SchemaError Fields) (fields : Fields) → Good r → r ≡ ok fields → Values fields
good r fields h e = rw e at h

refused-Good :
    (r : Result SchemaError (Unit {0})) (s : Result SchemaError Fields) → Good s → Good (r >> s)
refused-Good (ok _) s h = h
refused-Good (err e) s h = tt

put_line-Good :
    (o : Option (Text × Text)) (fields : Fields)
    → Behind o
    → Values fields
    → Good (put_line o fields)
put_line-Good none fields h fs = tt
put_line-Good (some (key, value)) fields h fs =
    let put : Result SchemaError Fields =
      ok (update text_le key (λ old. strict_unquote value) fields) in
    let fine : Good put =
      update-Values key (strict_unquote value) fields (strict_unquote-IsLine value h) fs in
    let single = refuse_if (not (is_absent (lookup key fields))) (duplicate_key key) in
    refused-Good (refuse_if (not (canonical_key key)) (unknown_key key)) (single >> put)
      (refused-Good single put fine)

legal_line-Behind : (o : Option (Text × Text)) → Behind o → Behind (legal_line o)
legal_line-Behind none h = tt
legal_line-Behind (some (key, value)) h =
    if_lem Behind (is_legal_key key) (λ legal. trim-IsLine value h) (λ illegal. tt)

field_step-Good :
    (line : Text) (fields : Fields) → IsLine line → Values fields → Good (field_step line fields)
unfolding field_step strict_field_line
field_step-Good line fields h fs =
    if_lem Good (is_empty (trim line)) (λ nothing. tt)
      (λ there.
        if_lem Good (is_indented line)
          (λ indented. if_lem Good (is_empty fields) (λ first. tt) (λ later. fs))
          (λ keyed.
            put_line-Good (legal_line (split_once b':' line)) fields
              (legal_line-Behind (split_once b':' line) (split_once-Behind b':' line h)) fs))

pub fields_loop-Values :
    (lines : List Text) (fields next : Fields)
    → All IsLine lines
    → Values fields
    → fields_loop lines fields ≡ ok next
    → Values next
unfolding fields_loop
fields_loop-Values [] fields next h fs e =
    let same : fields ≡ next = ok-injective e in rw same at fs
fields_loop-Values (line ∷ lines) fields next h fs e =
    let step = >>=-Steps (field_step line fields) _ e in
    fields_loop-Values lines step.value next h.1
      (good (field_step line fields) step.value (field_step-Good line fields h.0 fs) step.first_ok)
      step.next_ok

pub field-IsLine :
    (key : Text) (fields : Fields) → All (λ e. IsLine e.1) fields → IsLine (field key fields)
unfolding lookup
field-IsLine key [] h = refl
field-IsLine key ((k, v) ∷ fields) h =
    if_lem (λ o. IsLine (at_key o)) (text_eq key k) (λ same. h.0)
      (λ other. field-IsLine key fields h.1)
