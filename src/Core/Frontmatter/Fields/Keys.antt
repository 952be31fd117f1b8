-- ===== src/Core/Frontmatter/Fields/Keys.antt =====
-- The keys of the fields that `parse_frontmatter` of crates/yams-core/src/frontmatter.rs collects.
use yams.Prelude.{
  ◌≡◌, ◌≢◌, refl, sym, ap, ◌∙◌, inl, inr, true, Option, none, some, List, [], ◌∷◌, arith, is_empty,
  All, Bool-cases, if_lem,
}
use yams.Core.Text.{Text, trim}
use yams.Core.Text.Order.{
  text_eq, text_eq_iff, text_le, text_le_total, text_le_trans, text_le_antisymm,
}
use yams.Core.Frontmatter.{Line}
use yams.Core.Frontmatter.Fields.{
  Fields, is_key, split_colon, checked_field, field_line, unquote, insert, is_blank,
  starts_indented, insert_field, take_field, take_fields,
}

abbrev pub IsOrdered : Fields → Type 0
IsOrdered [] = Unit
IsOrdered (f ∷ fs) =
    All (λ (g : Text × Text). (text_le f.0 g.0 ≡ true) × (f.0 ≢ g.0)) fs × IsOrdered fs

abbrev pub HasKey : Text × Text → Type 0
HasKey field = is_key field.0 ≡ true

-- The keys are legal, and in the order of the map.
abbrev pub IsMap : Fields → Type 0
IsMap fields = All HasKey fields × IsOrdered fields

insert-All :
    (P : Text → Type 0) (key value : Text) (fields : Fields)
    → P key
    → All (λ (f : Text × Text). P f.0) fields
    → All (λ (f : Text × Text). P f.0) (insert key value fields)
unfolding insert
insert-All P key value [] p h = (p, tt)
insert-All P key value ((k, v) ∷ fields) p h =
    let goal = λ (fs : Fields). All (λ (f : Text × Text). P f.0) fs in
    if_lem goal (text_eq key k) (λ same. (h.0, h.1))
      (λ other.
        if_lem goal (text_le key k) (λ less. (p, (h.0, h.1)))
          (λ more. (h.0, insert-All P key value fields p h.1)))

ordered_below :
    (key k : Text) (fields : Fields)
    → text_le key k ≡ true
    → key ≢ k
    → All (λ (g : Text × Text). (text_le k g.0 ≡ true) × (k ≢ g.0)) fields
    → All (λ (g : Text × Text). (text_le key g.0 ≡ true) × (key ≢ g.0)) fields
ordered_below key k [] le ne h = tt
ordered_below key k ((j, v) ∷ fields) le ne h = (
  (text_le_trans key k j le h.0.0, λ e. ne (text_le_antisymm key k le (ap (text_le k) e ∙ h.0.0))),
  ordered_below key k fields le ne h.1,
)

insert-IsOrdered :
    (key value : Text) (fields : Fields) → IsOrdered fields → IsOrdered (insert key value fields)
unfolding insert
insert-IsOrdered key value [] h = (tt, tt)
insert-IsOrdered key value ((k, v) ∷ fields) h =
    if_lem IsOrdered (text_eq key k) (λ same. h)
      (λ other.
        let ne : key ≢ k = λ e. let same = (text_eq_iff key k).1 e in ground arith in
        if_lem IsOrdered (text_le key k)
          (λ less. (((less, ne), ordered_below key k fields less ne h.0), h))
          (λ more.
            let total = text_le_total key k in
            let above : text_le k key ≡ true = ground arith in
            (
              insert-All (λ u. (text_le k u ≡ true) × (k ≢ u)) key value fields
                  (above, λ e. ne (sym e)) h.0,
              insert-IsOrdered key value fields h.1,
            )))

checked_field-HasKey :
    (o : Option (Text × Text)) {field : Text × Text} → checked_field o ≡ some field → HasKey field
checked_field-HasKey none h = cc
checked_field-HasKey (some (key, value)) {field} h = elim (Bool-cases (is_key key)) [
  | inl legal ↦
      let e : (key, trim value) ≡ field = ground arith in
      ap (λ (f : Text × Text). is_key f.0) (sym e) ∙ legal
  | inr illegal ↦ absurd (ground arith)
]

field_line-HasKey : (l : Text) {field : Text × Text} → field_line l ≡ some field → HasKey field
unfolding field_line
field_line-HasKey l {field} h = checked_field-HasKey (split_colon l) {field = field} h

some_unique : {o : Option Fields} {a b : Fields} → o ≡ some a → o ≡ some b → a ≡ b
some_unique p q = cc

insert_field-IsMap :
    (l : Text) (o : Option (Text × Text)) (fields : Fields) {next : Fields}
    → field_line l ≡ o
    → insert_field o fields ≡ some next
    → IsMap fields
    → IsMap next
unfolding insert_field
insert_field-IsMap l none fields e h k = cc
insert_field-IsMap l (some (key, value)) fields {next} e h k =
    let same : insert key (unquote value) fields ≡ next = ground arith in
    rw (sym same) (
      insert-All (λ key. is_key key ≡ true) key (unquote value) fields (field_line-HasKey l e) k.0,
      insert-IsOrdered key (unquote value) fields k.1,
    )

take_field-IsMap :
    (fields : Fields) (l : Line) {next : Fields}
    → take_field fields l ≡ some next
    → IsMap fields
    → IsMap next
unfolding take_field
take_field-IsMap fields l {next} h k = elim (Bool-cases (is_blank l)) [
  | inl blank ↦ absurd (ground arith)
  | inr content ↦ elim (Bool-cases (starts_indented l.content)) [
    | inl indented ↦ elim (Bool-cases (is_empty fields)) [
      | inl empty ↦ absurd (ground arith)
      | inr filled ↦ let same : fields ≡ next = ground arith in rw (sym same) k
    ]
    | inr flush ↦ insert_field-IsMap l.content (field_line l.content) fields refl (ground arith) k
  ]
]

take_fields-from :
    (fields : Fields) (ls : List Line) (o : Option Fields) {all_fields : Fields}
    → (elim o [ none ↦ none | some further ↦ take_fields further ls ]) ≡ some all_fields
    → (further : Fields) × (o ≡ some further) × (take_fields further ls ≡ some all_fields)
take_fields-from fields ls none h = cc
take_fields-from fields ls (some further) h = (further, refl, h)

pub take_fields-IsMap :
    (fields : Fields) (ls : List Line) {all_fields : Fields}
    → take_fields fields ls ≡ some all_fields
    → IsMap fields
    → IsMap all_fields
unfolding take_fields
take_fields-IsMap fields [] h k = rw (sym (some_unique refl h)) k
take_fields-IsMap fields (l ∷ ls) {all_fields} h k =
    let (further, e, rest) = take_fields-from fields ls (take_field fields l) h in
    take_fields-IsMap further ls rest (take_field-IsMap fields l e k)
