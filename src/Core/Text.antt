-- ===== src/Core/Text.antt =====
-- Text as the list of its Unicode scalar values, and the functions of Rust's `str` and `char` that
-- crates/yams-core calls on it.
pub mod Order
pub mod Decimal
pub mod Utf8
pub mod Maps
pub mod Paths
pub mod Firsts
use Prim.Native.Char.{code}
use Prim.Native.String.{String}
use mathlib.Core.List.{append_assoc}
use yams.Prelude.{
  ℕ, ◌≡◌, refl, sym, ap, ◌∙◌, inl, inr, Bool, ◌&&◌, ◌||◌, Option, none, some, List, [], ◌∷◌, ◌++◌,
  leb, ◌==◌, if◌then◌else◌, is_empty, Bool-cases, ==→eq,
}

abbrev pub Text : Type 0
Text = List ℕ

-- A literal's text.
abbrev pub characters : String → Text
characters String.[] = []
characters (String.◌∷◌ c rest) = code c ∷ characters rest

abbrev pub lf : ℕ
lf = 10

abbrev pub cr : ℕ
cr = 13

-- `char::is_whitespace`: the Unicode property White_Space.
unfoldable pub is_whitespace : ℕ → Bool
is_whitespace c =
    (leb 9 c && leb c 13)
    || c == 32
    || c == 0x85
    || c == 0xa0
    || c == 0x1680
    || (leb 0x2000 c && leb c 0x200a)
    || c == 0x2028
    || c == 0x2029
    || c == 0x202f
    || c == 0x205f
    || c == 0x3000

-- `str::trim_start`
unfoldable pub trim_start : Text → Text
trim_start [] = []
trim_start (c ∷ cs) = if is_whitespace c then trim_start cs else c ∷ cs

-- `str::trim_end`
unfoldable pub trim_end : Text → Text
trim_end [] = []
trim_end (c ∷ cs) =
    let rest = trim_end cs in if is_empty rest && is_whitespace c then [] else c ∷ rest

-- `str::trim`
unfoldable pub trim : Text → Text
unfolding trim_start trim_end
trim t = trim_start (trim_end t)

-- What `split` has before the first separator goes in front of the first part.
unfoldable pub onto_first : ℕ → List Text → List Text
onto_first c [] = (c ∷ []) ∷ []
onto_first c (p ∷ ps) = (c ∷ p) ∷ ps

-- `str::split` at one character: always one part at least.
unfoldable pub split : ℕ → Text → List Text
unfolding onto_first
split sep [] = [] ∷ []
split sep (c ∷ cs) = let rest = split sep cs in if c == sep then [] ∷ rest else onto_first c rest

-- `[T]::join`
unfoldable pub join : Text → List Text → Text
join sep [] = []
join sep (t ∷ []) = t
join sep (t ∷ u ∷ ts) = t ++ (sep ++ join sep (u ∷ ts))

-- `[T]::concat`
unfoldable pub concat : List Text → Text
concat [] = []
concat (t ∷ ts) = t ++ concat ts

pub concat-append : (ts us : List Text) → concat (ts ++ us) ≡ concat ts ++ concat us
unfolding concat
concat-append [] us = refl
concat-append (t ∷ ts) us = rw (concat-append ts us, append_assoc)

onto_first-join :
    (sep : Text) (c : ℕ) (ts : List Text) → join sep (onto_first c ts) ≡ c ∷ join sep ts
unfolding join onto_first
onto_first-join sep c [] = refl
onto_first-join sep c (t ∷ []) = refl
onto_first-join sep c (t ∷ u ∷ ts) = refl

onto_first-cons :
    (c : ℕ) (ts : List Text) → (p : Text) × (ps : List Text) × (onto_first c ts ≡ p ∷ ps)
unfolding onto_first
onto_first-cons c [] = (c ∷ [], [], refl)
onto_first-cons c (t ∷ ts) = (c ∷ t, ts, refl)

pub split-cons : (sep : ℕ) (t : Text) → (p : Text) × (ps : List Text) × (split sep t ≡ p ∷ ps)
unfolding split
split-cons sep [] = ([], [], refl)
split-cons sep (c ∷ cs) = elim (Bool-cases (c == sep)) [
  | inl at ↦ ([], split sep cs, rw at)
  | inr off ↦ let (p, ps, e) = onto_first-cons c (split sep cs) in (p, ps, rw off e)
]

-- Joining with the separator undoes the split.
pub join-split : (sep : ℕ) (t : Text) → join (sep ∷ []) (split sep t) ≡ t
unfolding split join
join-split sep [] = refl
join-split sep (c ∷ cs) = elim (Bool-cases (c == sep)) [
  | inl at ↦
      let (p, ps, e) = split-cons sep cs in
      let same = ==→eq c sep at in
      let whole =
        ap (λ (ts : List Text). sep ∷ join (sep ∷ []) ts) (sym e)
        ∙ ap (◌∷◌ sep) (join-split sep cs) in
      rw (at, e) (whole ∙ ap (λ (d : ℕ). d ∷ cs) (sym same))
  | inr off ↦ rw off (onto_first-join (sep ∷ []) c (split sep cs) ∙ ap (◌∷◌ c) (join-split sep cs))
]

abbrev pub in_front : ℕ → Option (Text × Text) → Option (Text × Text)
in_front c none = none
in_front c (some (before, behind)) = some (c ∷ before, behind)

-- `str::split_once` at a character
unfoldable pub split_once : ℕ → Text → Option (Text × Text)
split_once sep [] = none
split_once sep (c ∷ cs) =
    let rest = in_front c (split_once sep cs) in if c == sep then some ([], cs) else rest
