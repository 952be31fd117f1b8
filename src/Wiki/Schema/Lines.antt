-- ===== src/Wiki/Schema/Lines.antt =====
-- `python_splitlines`, `is_splitlines_boundary` and `is_python_whitespace` of
-- crates/yams-wiki/src/schema.rs.
use mathlib.Core.List.{append-nil, append_assoc}
use yams.Prelude.{
  ℕ, ◌≡◌, sym, ap, ◌∙◌, Bool, false, ◌&&◌, ◌||◌, List, [], ◌∷◌, ◌++◌, arith, ◌==◌, if◌then◌else◌,
  is_empty, any,
}
use yams.Core.Text.{Text, lf, cr}

abbrev pub is_splitlines_boundary : ℕ → Bool
is_splitlines_boundary c =
    c == lf
    || c == cr
    || c == 0xb
    || c == 0xc
    || c == 0x1c
    || c == 0x1d
    || c == 0x1e
    || c == 0x85
    || c == 0x2028
    || c == 0x2029

-- The text in front of the separator that comes next is `line`; behind a carriage return a line feed is
-- passed over.
unfoldable pub splitlines_loop : Bool → Text → Text → List Text
splitlines_loop after_cr line [] = if is_empty line then [] else line ∷ []
splitlines_loop after_cr line (c ∷ cs) =
    let passed = splitlines_loop false line cs in
    let ended = splitlines_loop (c == cr) [] cs in
    let further = splitlines_loop false (line ++ (c ∷ [])) cs in
    if after_cr && c == lf
    then passed
    else if is_splitlines_boundary c
    then line ∷ ended
    else further

unfoldable pub python_splitlines : Text → List Text
unfolding splitlines_loop
python_splitlines source = splitlines_loop false [] source

abbrev pub IsLine : Text → Type 0
IsLine line = any is_splitlines_boundary line ≡ false

pub IsLine-append : (t u : Text) → IsLine t → IsLine u → IsLine (t ++ u)
IsLine-append [] u p q = q
IsLine-append (c ∷ cs) u p q = ground (arith, IsLine-append cs u)

splitlines_loop-line :
    (line more rest : Text)
    → IsLine more
    → splitlines_loop false line (more ++ (lf ∷ rest))
      ≡ (line ++ more) ∷ splitlines_loop false [] rest
unfolding splitlines_loop
splitlines_loop-line line [] rest h =
    ap (λ (t : Text). t ∷ splitlines_loop false [] rest) (sym (append-nil line))
splitlines_loop-line line (c ∷ cs) rest h =
    let off : is_splitlines_boundary c ≡ false = ground arith in
    rw off (
      splitlines_loop-line (line ++ (c ∷ [])) cs rest (ground arith)
      ∙ ap (λ (t : Text). t ∷ splitlines_loop false [] rest) (append_assoc line (c ∷ []) cs))

-- A line, and the lines behind it.
pub python_splitlines-line :
    (line rest : Text)
    → IsLine line
    → python_splitlines (line ++ (lf ∷ rest)) ≡ line ∷ python_splitlines rest
unfolding python_splitlines
python_splitlines-line line rest h = splitlines_loop-line [] line rest h
