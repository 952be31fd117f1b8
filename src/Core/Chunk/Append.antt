-- ===== src/Core/Chunk/Append.antt =====
-- `append_piece` of crates/yams-core/src/chunk.rs: it ends, loses no text and keeps the sizes.
use mathlib.Core.List.{append-nil, append_assoc}
use yams.Prelude.{
  ℕ, zero, suc, ◌+◌, ◌-◌, ◌≤◌, ◌<◌, ◌≡◌, refl, sym, ap, ◌∙◌, inl, inr, false, some, List, [], ◌∷◌,
  ◌++◌, arith, ltb, leb, if◌then◌else◌, length, take, drop, is_empty, All, All-append,
  length-append, length-take, length-drop, take-append-drop, Bool-cases,
}
use yams.Core.Text.{Text, concat, concat-append}
use yams.Core.Chunk.{
  min_chunk, max_chunk, Boundary, plain, line, paragraph, boundary_text, Packing, flush_full,
  append_loop, append_piece,
}

-- Every finished chunk has between MIN_CHUNK and MAX_CHUNK characters, and the open one has fewer
-- than MIN_CHUNK.
abbrev pub IsFull : Text → Type 0
IsFull t = (min_chunk ≤ length t) × (length t ≤ max_chunk)

pub record IsPacked (p : Packing) : Type 0 where
  pub full : All IsFull p.0
  pub short : length p.1 < min_chunk

-- All text that a packing holds, in order.
abbrev pub content : Packing → Text
content p = concat p.0 ++ p.1

flush_full-content :
    (chunks : List Text) (pending : Text)
    → content (flush_full chunks pending) ≡ concat chunks ++ pending
unfolding flush_full concat
flush_full-content chunks pending = elim (Bool-cases (leb min_chunk (length pending))) [
  | inl full ↦ rw (full, append-nil, concat-append, append-nil)
  | inr short ↦ rw short
]

flush_full-IsPacked :
    (chunks : List Text) (pending : Text)
    → All IsFull chunks
    → length pending ≤ max_chunk
    → IsPacked (flush_full chunks pending)
unfolding flush_full
flush_full-IsPacked chunks pending h fits = elim (Bool-cases (leb min_chunk (length pending))) [
  | inl full ↦ rw full (record {
    full = All-append IsFull chunks (pending ∷ []) h ((ground arith, fits), tt);
    short = omega arith;
  })
  | inr short ↦ rw short (record { full = h; short = ground arith })
]

-- What a piece adds: the boundary goes only in front of text.
abbrev pub added : Text → Text → Text
added boundary text = if is_empty text then [] else boundary ++ text

pub added_nil : (text : Text) → added [] text ≡ text
added_nil [] = refl
added_nil (c ∷ cs) = refl

-- From a packing with fewer than MIN_CHUNK open characters the loop ends, within one round more
-- than the text is long; it has appended the boundary, if there is text, and the text.
append_loop_lem :
    (fuel : ℕ) (chunks : List Text) (pending boundary text : Text)
    → IsPacked (chunks, pending)
    → length boundary ≤ 2
    → length text ≤ fuel
    → (q : Packing) × (append_loop fuel chunks pending boundary text ≡ some q)
      × IsPacked q
      × (content q ≡ concat chunks ++ (pending ++ added boundary text))
unfolding append_loop
append_loop_lem zero chunks pending boundary [] w b h = ((chunks, pending), refl, w, rw append-nil)
append_loop_lem (suc fuel) chunks pending boundary [] w b h =
    ((chunks, pending), refl, w, rw append-nil)
append_loop_lem zero chunks pending boundary (c ∷ cs) w b h = absurd (omega arith)
append_loop_lem (suc fuel) chunks pending boundary (c ∷ cs) w b h =
    let room = max_chunk - length pending - length boundary in
    let filled = pending ++ (boundary ++ take room (c ∷ cs)) in
    let left = drop room (c ∷ cs) in
    let short = w.short in
    let size : length filled ≤ max_chunk = omega (
      arith,
      length-append pending (boundary ++ take room (c ∷ cs)),
      length-append boundary (take room (c ∷ cs)),
      length-take room (c ∷ cs),
    ) in
    let (chunks', pending') = flush_full chunks filled in
    let (q, e, packed, c') =
      append_loop_lem fuel chunks' pending' [] (drop room (c ∷ cs))
        (flush_full-IsPacked chunks filled w.full size) (omega arith)
        (omega (arith, length-drop room (c ∷ cs))) in
    let fits : ltb (max_chunk - length pending) (length boundary) ≡ false = ground arith in
    (
      q,
      rw (fits, append_loop) e,
      packed,
      c'
          ∙ ap (λ (t : Text). concat chunks' ++ (pending' ++ t)) (added_nil left)
          ∙ sym (append_assoc (concat chunks') pending' left)
          ∙ ap (λ (t : Text). t ++ left) (flush_full-content chunks filled)
          ∙ simp (append_assoc, take-append-drop),
    )

boundary_text-le : (b : Boundary) → length (boundary_text b) ≤ 2
boundary_text-le plain = omega arith
boundary_text-le line = omega arith
boundary_text-le paragraph = omega arith

pub append_piece_lem :
    (p : Packing) (b : Boundary) (text : Text)
    → IsPacked p
    → (q : Packing) × (append_piece p b text ≡ some q)
      × IsPacked q
      × (content q ≡ content p ++ added (boundary_text b) text)
unfolding append_piece
append_piece_lem (chunks, pending) b text w =
    let (q, e, packed, c) =
      append_loop_lem (length text + 2) chunks pending (boundary_text b) text w (boundary_text-le b)
        (omega arith) in
    (q, e, packed, c ∙ sym (append_assoc (concat chunks) pending _))
