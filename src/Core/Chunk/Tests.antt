-- ===== src/Core/Chunk/Tests.antt =====
-- Runs of `chunk` of crates/yams-core/src/chunk.rs, and its theorems at examples.
use yams.Prelude.{◌≡◌, refl, some, List, [], ◌∷◌}
use yams.Core.Text.{Text, lf, cr, is_whitespace, trim, split, join}
use yams.Core.Chunk.{paragraphs, chunk}
use yams.Core.Chunk.Correct.{Holds, chunk-Holds}

-- Two paragraphs, separated by CR LF, spaces, CR LF.
abbrev two : Text
two = b'a' ∷ cr ∷ lf ∷ b' ' ∷ cr ∷ lf ∷ b'b' ∷ lf ∷ b'c' ∷ b' ' ∷ []

paragraphs-two : paragraphs two ≡ (b'a' ∷ []) ∷ (b'b' ∷ lf ∷ b'c' ∷ []) ∷ []
unfolding paragraphs trim is_whitespace join
paragraphs-two = refl

chunk-two : chunk two ≡ some ((b'a' ∷ lf ∷ lf ∷ b'b' ∷ lf ∷ b'c' ∷ []) ∷ [])
unfolding chunk paragraphs trim is_whitespace join split
chunk-two = refl

chunk-Holds_example :
    (cs : List Text) × (chunk two ≡ some cs) × Holds (join (lf ∷ lf ∷ []) (paragraphs two)) cs
chunk-Holds_example = chunk-Holds two
