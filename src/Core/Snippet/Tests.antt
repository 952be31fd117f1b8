-- ===== src/Core/Snippet/Tests.antt =====
-- Runs of `snippet` of crates/yams-core/src/snippet.rs: ASCII letters, weights in hundredths.
use yams.Prelude.{
  ℕ, ◌+◌, ◌≡◌, refl, Bool, true, ◌&&◌, ◌||◌, [], ◌∷◌, leb, ◌==◌, if◌then◌else◌, ok, err,
}
use yams.Prelude.Sorting.{sort_by}
use yams.Core.Text.{Text, characters, is_whitespace}
use yams.Core.Text.Order.{text_eq, text_le}
use yams.Core.Floats.{hundredths}
use yams.Core.Snippet.{WeightedTerm, invalid_gain, snap}
use yams.Core.Snippet.Terms.{query_terms}
use yams.Core.Snippet.Terms.Found.{Found, query_terms-Found}
use yams.Core.Snippet.Choose.{snippet}
use yams.Core.Snippet.Snips.{Snips}

abbrev is_letter : ℕ → Bool
is_letter c = (leb b'a' c && leb c b'z') || (leb b'A' c && leb c b'Z')

abbrev to_lower : ℕ → Text
to_lower c = (if leb b'A' c && leb c b'Z' then c + 32 else c) ∷ []

abbrev same : ℕ → ℕ → Bool
same a b = a == b

abbrev a_term : WeightedTerm ℕ
a_term = record { term = characters "needle"; weight = 90 }

abbrev a_text : Text
a_text = characters "one two  three a Needle in it and more"

needle_run :
    snippet hundredths is_letter to_lower same 0 a_text (a_term ∷ []) 20 75
    ≡ ok (record {
      text = characters "three a Needle in it";
      clipped_start = true;
      clipped_end = true;
    })
unfolding snippet snap sort_by text_eq text_le is_whitespace
needle_run = refl

gain_run :
    snippet hundredths is_letter to_lower same 0 a_text (a_term ∷ []) 12 101 ≡ err invalid_gain
unfolding snippet
gain_run = refl

terms_run :
    query_terms is_letter to_lower (characters "The Needle a x, needle in hay")
    ≡ characters "needle" ∷ characters "hay" ∷ []
unfolding query_terms text_eq
terms_run = refl

query_terms-Found_example :
    Found is_letter to_lower (query_terms is_letter to_lower (characters "The Needle"))
query_terms-Found_example = query_terms-Found is_letter to_lower (characters "The Needle")
