-- ===== src/Core/Chunk/Correct.antt =====
-- `chunk` of crates/yams-core/src/chunk.rs as a whole.
use mathlib.Core.List.{append-nil}
use yams.Prelude.{◌≤◌, ◌<◌, ◌≡◌, refl, sym, ap, ◌∙◌, some, List, [], ◌∷◌, ◌++◌, arith, length, All}
use yams.Core.Text.{Text, lf, join, concat, concat-append}
use yams.Core.Chunk.{min_chunk, Packing, paragraphs, finish, chunk}
use yams.Core.Chunk.Append.{IsFull, IsPacked, content}
use yams.Core.Chunk.Content.{append_paragraphs-Appends}
use yams.Core.Chunk.Paragraphs.{paragraphs-IsParagraph}

-- The last chunk alone may be short.
abbrev pub IsShort : Text → Type 0
IsShort t = (0 < length t) × (length t < min_chunk)

-- Chunks that hold `text`: all are full, but that one short chunk may follow.
pub record Holds (text : Text) (chunks : List Text) : Type 0 where
  pub front : List Text
  pub last : List Text
  pub splits : chunks ≡ front ++ last
  pub front_full : All IsFull front
  pub last_short : All IsShort last
  pub last_alone : length last ≤ 1
  pub whole : concat chunks ≡ text

finish-Holds :
    (p : Packing)
    → IsPacked p
    → (cs : List Text) × (finish (some p) ≡ some cs) × Holds (content p) cs
unfolding finish
finish-Holds (chunks, []) w = (
  chunks,
  refl,
  record {
    front = chunks;
    last = [];
    splits = sym (append-nil chunks);
    front_full = w.full;
    last_short = tt;
    last_alone = omega arith;
    whole = sym (append-nil (concat chunks));
  },
)
finish-Holds (chunks, c ∷ cs) w = (
  chunks ++ (c ∷ cs) ∷ [],
  refl,
  record {
    front = chunks;
    last = (c ∷ cs) ∷ [];
    splits = refl;
    front_full = w.full;
    last_short = ((omega arith, w.short), tt);
    last_alone = omega arith;
    whole =
        concat-append chunks ((c ∷ cs) ∷ [])
        ∙ unfold concat in ap (λ (t : Text). concat chunks ++ t) (append-nil (c ∷ cs));
  },
)

-- `chunk` always returns. Its chunks, read one behind the other, are the paragraphs of the text
-- with a blank line between two; every chunk has MIN_CHUNK to MAX_CHUNK characters, but that the
-- last one may be shorter, and then is not empty.
pub chunk-Holds :
    (t : Text)
    → (cs : List Text) × (chunk t ≡ some cs) × Holds (join (lf ∷ lf ∷ []) (paragraphs t)) cs
unfolding chunk
chunk-Holds t =
    let a =
      append_paragraphs-Appends ([], []) (paragraphs t) (record { full = tt; short = omega arith })
        (paragraphs-IsParagraph t) in
    let (cs, e, holds) = finish-Holds a.result a.packed in
    let text : content a.result ≡ join (lf ∷ lf ∷ []) (paragraphs t) =
      a.grows ∙ unfold concat in refl in
    (cs, ap finish a.returns ∙ e, rw text at holds)
