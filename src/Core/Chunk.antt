-- ===== src/Core/Chunk.antt =====
-- crates/yams-core/src/chunk.rs: paragraphs, hard wraps and the packing of pieces into chunks.
pub mod Append
pub mod Content
pub mod Paragraphs
pub mod Correct
mod Tests
use yams.Prelude.{
  ℕ, zero, suc, ◌+◌, ◌-◌, ◌%◌, Bool, true, false, not, ◌&&◌, ◌||◌, Option, none, some, List, [],
  ◌∷◌, ◌++◌, ltb, leb, ◌==◌, if◌then◌else◌, length, take, drop, is_empty,
}
use yams.Core.Text.{Text, lf, cr, trim, split, join}

abbrev pub min_chunk : ℕ
min_chunk = 400

abbrev pub max_chunk : ℕ
max_chunk = 1200

-- `enum Boundary`; its constructor `None` is `plain` here.
pub data Boundary : Type 0 where
  plain line paragraph : Boundary

-- `Boundary::text`
abbrev pub boundary_text : Boundary → Text
boundary_text plain = []
boundary_text line = lf ∷ []
boundary_text paragraph = lf ∷ lf ∷ []

-- The chunks so far and the one that is being filled.
abbrev pub Packing : Type 0
Packing = List Text × Text

-- The flush that ends a round of `append_piece`.
pub flush_full : List Text → Text → Packing
flush_full chunks pending =
    if leb min_chunk (length pending) then (chunks ++ pending ∷ [], []) else (chunks, pending)

-- The `while` loop of `append_piece`; `none` means that the fuel ran out.
pub append_loop : ℕ → List Text → Text → Text → Text → Option Packing
append_loop fuel chunks pending boundary [] = some (chunks, pending)
append_loop zero chunks pending boundary (c ∷ cs) = none
append_loop (suc fuel) chunks pending boundary (c ∷ cs) =
    let available = max_chunk - length pending in
    let available_for_text = available - length boundary in
    let (chunks', pending') =
      flush_full chunks (pending ++ (boundary ++ take available_for_text (c ∷ cs))) in
    let retried = append_loop fuel (chunks ++ pending ∷ []) [] boundary (c ∷ cs) in
    let rest = append_loop fuel chunks' pending' [] (drop available_for_text (c ∷ cs)) in
    if ltb available (length boundary) then retried else rest

-- A round takes a character at least, but for one that only flushes or only adds the boundary.
pub append_piece : Packing → Boundary → Text → Option Packing
unfolding append_loop flush_full
append_piece (chunks, pending) boundary text =
    append_loop (length text + 2) chunks pending (boundary_text boundary) text

-- `for_each_hard_wrap` visits these parts of a line, in this order: `piece` is the part that is
-- open at the character with the given index.
pub wrap_loop : ℕ → Text → Text → List Text
wrap_loop index piece [] = piece ∷ []
wrap_loop index piece (c ∷ cs) =
    let rest = wrap_loop (suc index) (c ∷ []) cs in
    let further = wrap_loop (suc index) (piece ++ c ∷ []) cs in
    if ltb 0 index && (index % max_chunk == 0) then piece ∷ rest else further

pub hard_wraps : Text → List Text
unfolding wrap_loop
hard_wraps l = if leb (length l) max_chunk then l ∷ [] else wrap_loop 0 [] l

-- `first_part`, `line_index` and `paragraph_index` choose the boundary of a part.
pub boundary_for : Bool → Bool → Bool → Boundary
boundary_for first_part later_line later_paragraph =
    if first_part && later_line
    then line
    else if first_part && later_paragraph
    then paragraph
    else plain

-- The closure that `chunk` passes to `for_each_hard_wrap`, over the parts of one line.
pub append_parts : Packing → Bool → Bool → Bool → List Text → Option Packing
append_parts p first_part later_line later_paragraph [] = some p
append_parts p first_part later_line later_paragraph (part ∷ parts) =
    elim (append_piece p (boundary_for first_part later_line later_paragraph) part) [
      | none ↦ none
      | some p' ↦ append_parts p' false later_line later_paragraph parts
    ]

-- The loop over the lines of a paragraph.
pub append_lines : Packing → Bool → Bool → List Text → Option Packing
append_lines p later_line later_paragraph [] = some p
append_lines p later_line later_paragraph (l ∷ ls) =
    elim (append_parts p true later_line later_paragraph (hard_wraps l)) [
      | none ↦ none
      | some p' ↦ append_lines p' true later_paragraph ls
    ]

-- The loop over the paragraphs.
pub append_paragraphs : Packing → Bool → List Text → Option Packing
append_paragraphs p later_paragraph [] = some p
append_paragraphs p later_paragraph (t ∷ ts) =
    elim (append_lines p false later_paragraph (split lf t)) [
      | none ↦ none
      | some p' ↦ append_paragraphs p' true ts
    ]

-- `logical_lines`, with the line that is open: a line ends at LF, CR or CR LF.
pub lines_loop : Text → Text → List Text
lines_loop open_line [] = if is_empty open_line then [] else open_line ∷ []
lines_loop open_line (c ∷ []) =
    if c == lf || c == cr then open_line ∷ [] else (open_line ++ c ∷ []) ∷ []
lines_loop open_line (c ∷ d ∷ cs) = elim (c == cr && d == lf) [
  | true ↦ open_line ∷ lines_loop [] cs
  | false ↦ elim (c == lf || c == cr) [
    | true ↦ open_line ∷ lines_loop [] (d ∷ cs)
    | false ↦ lines_loop (open_line ++ c ∷ []) (d ∷ cs)
  ]
]

pub logical_lines : Text → List Text
unfolding lines_loop
logical_lines t = lines_loop [] t

-- `push_paragraph` on the lines of the open paragraph.
pub push_paragraph : List Text → List Text → List Text
push_paragraph paragraphs lines =
    if is_empty lines
    then paragraphs
    else let trimmed = trim (join (lf ∷ []) lines) in
      if is_empty trimmed then paragraphs else paragraphs ++ trimmed ∷ []

-- The loop of `paragraphs` over the logical lines.
pub paragraphs_loop : List Text → List Text → List Text → List Text
paragraphs_loop paragraphs lines [] = push_paragraph paragraphs lines
paragraphs_loop paragraphs lines (l ∷ ls) =
    let closed = paragraphs_loop (push_paragraph paragraphs lines) [] ls in
    let further = paragraphs_loop paragraphs (lines ++ l ∷ []) ls in
    if is_empty (trim l) then closed else further

pub paragraphs : Text → List Text
unfolding paragraphs_loop push_paragraph logical_lines
paragraphs t = paragraphs_loop [] [] (logical_lines t)

-- What `chunk` does behind its loops.
pub finish : Option Packing → Option (List Text)
finish none = none
finish (some (chunks, pending)) = some (if is_empty pending then chunks else chunks ++ pending ∷ [])

pub chunk : Text → Option (List Text)
unfolding append_piece hard_wraps boundary_for append_parts append_lines append_paragraphs finish
chunk t = finish (append_paragraphs ([], []) false (paragraphs t))
