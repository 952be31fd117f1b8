-- ===== src/Wiki/Schema/Slug/Slugged.antt =====
-- The slugs that `slugify` of crates/yams-wiki/src/schema.rs makes.
use mathlib.Core.List.{append_assoc}
use yams.Prelude.{
  ℕ, ◌≤◌, ◌≡◌, refl, sym, ap, ◌⊎◌, inl, inr, Bool, true, false, Option, none, some, [], ◌∷◌, ◌++◌,
  arith, ltb, ◌==◌, length, take, drop, any, Result, ok, err, if_lem, take-append-drop, length-take,
  length-append, ltb→lt, ==→eq,
}
use yams.Core.Text.{Text}
use yams.Wiki.Schema.{SchemaError, empty_slug}
use yams.Wiki.Schema.Slug.{
  slug_max_bytes, byte_length, is_word, validate_slug, push_separator, slug_loop, before_next,
  before_last, or_whole, truncate_slug, pop_hyphens, slugify,
}
use yams.Wiki.Schema.Slug.Hyphens.{
  hyphenated, hyphenated-push, hyphenated-separate, hyphenated-front, hyphenated-start, words_there,
  pop_hyphens_lem, byte_length-hyphenated, all-is_slug_char,
}

-- One word at least, and not too long.
pub record IsSlug (slug : Text) : Type 0 where
  pub words : hyphenated true slug ≡ true
  pub short : length slug ≤ slug_max_bytes

-- What the loop has pushed: nothing yet, or words.
abbrev Grown : Text → Type 0
Grown slug = (slug ≡ []) ⊎ (hyphenated true slug ≡ true)

push_separator-Grown :
    (pending : Bool) (slug : Text) (c : ℕ)
    → is_word c ≡ true
    → Grown slug
    → hyphenated true (push_separator pending slug ++ (c ∷ [])) ≡ true
push_separator-Grown true [] c w h = rw w refl
push_separator-Grown false [] c w h = rw w refl
push_separator-Grown true (d ∷ ds) c w (inl h) = cc
push_separator-Grown false (d ∷ ds) c w (inl h) = cc
push_separator-Grown true (d ∷ ds) c w (inr h) = hyphenated-separate true (d ∷ ds) c w h
push_separator-Grown false (d ∷ ds) c w (inr h) = hyphenated-push true (d ∷ ds) c w h

-- The loop pushes words, and none only if there is none.
abbrev Pushed : Text → Text → Text → Type 0
Pushed slug cs result =
    ((result ≡ []) × (slug ≡ []) × (any is_word cs ≡ false))
    ⊎ ((hyphenated true result ≡ true) × ((slug ≡ []) → any is_word cs ≡ true))

slug_loop-Pushed :
    (pending : Bool) (slug cs : Text) → Grown slug → Pushed slug cs (slug_loop pending slug cs)
unfolding slug_loop
slug_loop-Pushed pending slug [] (inl h) = inl (h, h, refl)
slug_loop-Pushed pending slug [] (inr h) = inr (h, λ e. let f = rw e at h in cc)
slug_loop-Pushed pending slug (c ∷ cs) h =
    if_lem (Pushed slug (c ∷ cs)) (is_word c)
      (λ word.
        let words = push_separator-Grown pending slug c word h in
        elim (slug_loop-Pushed false (push_separator pending slug ++ (c ∷ [])) cs (inr words)) [
          | inl nothing ↦ let f = rw nothing.1 at words in cc
          | inr p ↦ inr (p.0, λ e. ground arith)
        ])
      (λ other. elim (slug_loop-Pushed true slug cs h) [
        | inl nothing ↦ inl (nothing.0, nothing.1, ground arith)
        | inr p ↦ inr (p.0, λ e. let later = p.1 e in ground arith)
      ])

-- A text split at its last `-`, or one without any.
abbrev Split : Text → Option Text → Type 0
Split t (some front) = (rest : Text) × (t ≡ front ++ (b'-' ∷ rest))
Split t none = any (λ c. c == b'-') t ≡ false

before_next-Split :
    (c : ℕ) (cs : Text) (o : Option Text) → Split cs o → Split (c ∷ cs) (before_next c o)
before_next-Split c cs (some front) (rest, e) = (rest, ap (◌∷◌ c) e)
before_next-Split c cs none h =
    if_lem (Split (c ∷ cs)) (c == b'-') (λ at. (cs, ap (λ (d : ℕ). d ∷ cs) (==→eq c b'-' at)))
      (λ off. ground arith)

before_last-Split : (t : Text) → Split t (before_last t)
unfolding before_last
before_last-Split [] = refl
before_last-Split (c ∷ cs) = before_next-Split c cs (before_last cs) (before_last-Split cs)

le→not_ltb : (n limit : ℕ) → n ≤ limit → ltb limit n ≡ false
le→not_ltb n limit h = ground arith

at_most : (limit n : ℕ) → ltb limit n ≡ false → n ≤ limit
at_most limit n h = ground arith

or_whole-IsSlug :
    (start rest : Text) (o : Option Text)
    → length start ≡ slug_max_bytes
    → hyphenated true (start ++ rest) ≡ true
    → Split start o
    → IsSlug (or_whole start o)
or_whole-IsSlug start rest (some front) full h (behind, e) = record {
  words =
      hyphenated-front true front (behind ++ rest)
        (rw (append_assoc front (b'-' ∷ behind) rest) at (rw e at h));
  short = omega (arith, full, ap (length {A = ℕ}) e, length-append front (b'-' ∷ behind));
}
or_whole-IsSlug start rest none full h without = elim (hyphenated-start true start rest without h) [
  | inl nothing ↦ absurd (omega (arith, full, ap (length {A = ℕ}) nothing))
  | inr words ↦ record { words = words; short = omega (arith, full) }
]

truncate_slug-IsSlug : (slug : Text) → hyphenated true slug ≡ true → IsSlug (truncate_slug slug)
unfolding truncate_slug
truncate_slug-IsSlug slug h =
    let start = take slug_max_bytes slug in
    let whole = rw (sym (take-append-drop slug_max_bytes slug)) at h in
    if_lem IsSlug (ltb slug_max_bytes (length slug))
      (λ long.
        or_whole-IsSlug start (drop slug_max_bytes slug) (before_last start)
          (let l = ltb→lt slug_max_bytes (length slug) long in
            omega (arith, length-take slug_max_bytes slug))
          whole (before_last-Split start))
      (λ fits. record { words = h; short = at_most slug_max_bytes (length slug) fits })

pub validate_slug-IsSlug : (slug : Text) → IsSlug slug → validate_slug slug ≡ ok tt
unfolding validate_slug
validate_slug-IsSlug slug h =
    let there = words_there slug h.words in
    let chars = all-is_slug_char true slug h.words in
    let bytes = byte_length-hyphenated true slug h.words in
    let short : ltb slug_max_bytes (byte_length slug) ≡ false =
      rw bytes (le→not_ltb (length slug) slug_max_bytes h.short) in
    rw (there, short, chars) refl

-- The answers of `slugify` for a folded title.
abbrev pub Slugs : Text → Result SchemaError Text → Type 0
Slugs text (ok slug) = IsSlug slug × (any is_word text ≡ true)
Slugs text (err error) = (error ≡ empty_slug) × (any is_word text ≡ false)

-- Whatever folding does, `slugify` does not reach its `unreachable!`: a title that folds to no small
-- letter and no digit is refused for an empty slug, and any other has a slug of at most SLUG_MAX_BYTES
-- bytes, words of small letters and digits with one `-` between two.
pub slugify-Slugs :
    (folded : Text → Text) (title : Text) → Slugs (folded title) (slugify folded title)
unfolding slugify
slugify-Slugs folded title =
    let text = folded title in
    elim (slug_loop-Pushed false [] text (inl refl)) [
      | inl nothing ↦
          let e : slug_loop false [] text ≡ [] = nothing.0 in
          rw e (unfold truncate_slug pop_hyphens validate_slug in (refl, nothing.2))
      | inr p ↦
          let slug = truncate_slug (slug_loop false [] text) in
          let h = truncate_slug-IsSlug (slug_loop false [] text) p.0 in
          let popped = pop_hyphens_lem true slug h.words in
          let valid = validate_slug-IsSlug slug h in rw (popped, valid) (h, p.1 refl)
    ]
