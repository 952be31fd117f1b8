-- ===== src/Wiki/Schema/Slug/Hyphens.antt =====
-- Words with one `-` between two, for crates/yams-wiki/src/schema.rs.
use yams.Prelude.{
  ℕ, ◌≡◌, refl, ◌⊎◌, inl, inr, Bool, true, false, not, ◌&&◌, [], ◌∷◌, ◌++◌, arith, ◌==◌,
  if◌then◌else◌, length, is_empty, all, any, Bool-cases,
}
use yams.Core.Text.{Text}
use yams.Wiki.Schema.Slug.{len_utf8, byte_length, is_word, is_slug_char, pop_hyphens}

-- Words of small letters and digits, one `-` between two; `hyphen` tells that a word must follow.
abbrev pub hyphenated : Bool → Text → Bool
hyphenated hyphen [] = not hyphen
hyphenated hyphen (c ∷ cs) =
    let in_word = hyphenated false cs in
    let behind = hyphenated true cs in
    if is_word c then in_word else c == b'-' && (not hyphen && behind)

pub hyphenated-push :
    (hyphen : Bool) (slug : Text) (c : ℕ)
    → is_word c ≡ true
    → hyphenated hyphen slug ≡ true
    → hyphenated hyphen (slug ++ (c ∷ [])) ≡ true
hyphenated-push hyphen [] c w h = rw w refl
hyphenated-push hyphen (d ∷ ds) c w h = elim (Bool-cases (is_word d)) [
  | inl word ↦ let e = rw word at h in rw word (hyphenated-push false ds c w e)
  | inr other ↦ let e = rw other at h in rw other (ground (arith, hyphenated-push true ds c w))
]

pub hyphenated-separate :
    (hyphen : Bool) (slug : Text) (c : ℕ)
    → is_word c ≡ true
    → hyphenated hyphen slug ≡ true
    → hyphenated hyphen ((slug ++ (b'-' ∷ [])) ++ (c ∷ [])) ≡ true
hyphenated-separate true [] c w h = cc
hyphenated-separate false [] c w h = rw w refl
hyphenated-separate hyphen (d ∷ ds) c w h = elim (Bool-cases (is_word d)) [
  | inl word ↦ let e = rw word at h in rw word (hyphenated-separate false ds c w e)
  | inr other ↦ let e = rw other at h in rw other (ground (arith, hyphenated-separate true ds c w))
]

pub hyphenated-front :
    (hyphen : Bool) (front rest : Text)
    → hyphenated hyphen (front ++ (b'-' ∷ rest)) ≡ true
    → hyphenated hyphen front ≡ true
hyphenated-front hyphen [] rest h = ground arith
hyphenated-front hyphen (c ∷ cs) rest h = elim (Bool-cases (is_word c)) [
  | inl word ↦ let e = rw word at h in rw word (hyphenated-front false cs rest e)
  | inr other ↦ let e = rw other at h in rw other (ground (arith, hyphenated-front true cs rest))
]

-- A start without a `-`.
pub hyphenated-start :
    (hyphen : Bool) (front rest : Text)
    → any (λ c. c == b'-') front ≡ false
    → hyphenated hyphen (front ++ rest) ≡ true
    → (front ≡ []) ⊎ (hyphenated hyphen front ≡ true)
hyphenated-start hyphen [] rest without h = inl refl
hyphenated-start hyphen (c ∷ cs) rest without h = elim (Bool-cases (is_word c)) [
  | inl word ↦
      let e = rw word at h in
      elim (hyphenated-start false cs rest (ground arith) e) [
        | inl nothing ↦ inr (rw (word, nothing) refl)
        | inr words ↦ inr (rw word words)
      ]
  | inr other ↦ let e = rw other at h in absurd (ground arith)
]

if_false : {A : Type 0} (b : Bool) (x y : A) → b ≡ false → (if b then x else y) ≡ y
if_false true x y h = cc
if_false false x y h = refl

pub words_there : (slug : Text) → hyphenated true slug ≡ true → is_empty slug ≡ false
words_there [] h = cc
words_there (c ∷ cs) h = refl

pub pop_hyphens_lem :
    (hyphen : Bool) (slug : Text) → hyphenated hyphen slug ≡ true → pop_hyphens slug ≡ slug
unfolding pop_hyphens
pop_hyphens_lem hyphen [] h = refl
pop_hyphens_lem hyphen (c ∷ cs) h = elim (Bool-cases (is_word c)) [
  | inl word ↦
      let e = rw word at h in
      let off : (is_empty cs && c == b'-') ≡ false = ground arith in
      rw (pop_hyphens_lem false cs e) (if_false (is_empty cs && c == b'-') [] (c ∷ cs) off)
  | inr other ↦
      let e = rw other at h in
      let behind : hyphenated true cs ≡ true = ground arith in
      let there = words_there cs behind in
      let off : (is_empty cs && c == b'-') ≡ false = rw there refl in
      rw (pop_hyphens_lem true cs behind) (if_false (is_empty cs && c == b'-') [] (c ∷ cs) off)
]

pub byte_length-hyphenated :
    (hyphen : Bool) (slug : Text) → hyphenated hyphen slug ≡ true → byte_length slug ≡ length slug
byte_length-hyphenated hyphen [] h = refl
byte_length-hyphenated hyphen (c ∷ cs) h = elim (Bool-cases (is_word c)) [
  | inl word ↦
      let e = rw word at h in
      let ih = byte_length-hyphenated false cs e in
      let one : len_utf8 c ≡ 1 = ground arith in omega (arith, ih, one)
  | inr other ↦
      let e = rw other at h in
      let behind : hyphenated true cs ≡ true = ground arith in
      let ih = byte_length-hyphenated true cs behind in
      let one : len_utf8 c ≡ 1 = ground arith in omega (arith, ih, one)
]

pub all-is_slug_char :
    (hyphen : Bool) (slug : Text) → hyphenated hyphen slug ≡ true → all is_slug_char slug ≡ true
all-is_slug_char hyphen [] h = refl
all-is_slug_char hyphen (c ∷ cs) h = elim (Bool-cases (is_word c)) [
  | inl word ↦ let e = rw word at h in let ih = all-is_slug_char false cs e in rw (word, ih) refl
  | inr other ↦
      let e = rw other at h in
      let behind : hyphenated true cs ≡ true = ground arith in
      let ih = all-is_slug_char true cs behind in
      let at : (c == b'-') ≡ true = ground arith in rw (other, at, ih) refl
]
