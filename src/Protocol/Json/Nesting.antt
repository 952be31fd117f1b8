-- ===== src/Protocol/Json/Nesting.antt =====
-- `validate_nesting` of crates/yams-protocol/src/json.rs against the nesting of JSON texts.
use mathlib.Core.List.{append_assoc, append-nil}
use yams.Prelude.{
  ℕ, suc, ◌+◌, ◌≤◌, ◌<◌, max, ◌≡◌, refl, ◌∙◌, inl, inr, true, false, ◌||◌, List, [], ◌∷◌, ◌++◌,
  arith, leb, ◌==◌, if◌then◌else◌, ok, err, Bool-cases,
}
use yams.Protocol.Errors.{invalid_json}
use yams.Protocol.Json.Decode.{
  max_json_nesting, Nest, is_open, is_close, nest_string, nest_plain, nesting_loop,
  validate_nesting,
}

-- What stands between the quotes of a JSON string.
pub data IsBody : List ℕ → Type 0 where
  empty : IsBody []
  letter :
      {byte : ℕ} {rest : List ℕ}
      → (byte == b'"' || byte == b'\\') ≡ false
      → IsBody rest
      → IsBody (byte ∷ rest)
  escape : {byte : ℕ} {rest : List ℕ} → IsBody rest → IsBody (b'\\' ∷ byte ∷ rest)

-- A text whose brackets outside of strings are balanced, and how deep they nest.
pub data Nests : ℕ → List ℕ → Type 0 where
  nothing : Nests 0 []
  plain :
      {byte depth : ℕ} {rest : List ℕ}
      → (byte == b'"' || (is_open byte || is_close byte)) ≡ false
      → Nests depth rest
      → Nests depth (byte ∷ rest)
  quoted :
      {depth : ℕ} {body rest whole : List ℕ}
      → IsBody body
      → Nests depth rest
      → whole ≡ b'"' ∷ (body ++ (b'"' ∷ rest))
      → Nests depth whole
  nested :
      (opening closing : ℕ) {inner_depth rest_depth depth : ℕ} {inner rest whole : List ℕ}
      → is_open opening ≡ true
      → is_close closing ≡ true
      → Nests inner_depth inner
      → Nests rest_depth rest
      → depth ≡ max (suc inner_depth) rest_depth
      → whole ≡ opening ∷ (inner ++ (closing ∷ rest))
      → Nests depth whole

abbrev outside : ℕ → Nest
outside depth = record { depth = depth; in_string = false; escaped = false }

abbrev inside : ℕ → Nest
inside depth = record { depth = depth; in_string = true; escaped = false }

nesting_loop-body :
    (depth : ℕ) {body : List ℕ} (tail : List ℕ)
    → IsBody body
    → nesting_loop (inside depth) (body ++ (b'"' ∷ tail)) ≡ nesting_loop (outside depth) tail
unfolding nesting_loop
nesting_loop-body depth tail empty = refl
nesting_loop-body depth tail (letter {byte} e rest) =
    let step : nest_string (inside depth) byte ≡ inside depth = ground arith in
    rw step (nesting_loop-body depth tail rest)
nesting_loop-body depth tail (escape rest) = nesting_loop-body depth tail rest

nest_plain-open :
    (depth opening : ℕ)
    → is_open opening ≡ true
    → depth < max_json_nesting
    → nest_plain (outside depth) opening ≡ ok (outside (suc depth))
nest_plain-open depth opening e h = ground arith

nest_plain-deep :
    (depth opening : ℕ)
    → is_open opening ≡ true
    → max_json_nesting ≤ depth
    → nest_plain (outside depth) opening ≡ err invalid_json
nest_plain-deep depth opening e h = ground arith

nest_plain-close :
    (depth closing : ℕ)
    → is_close closing ≡ true
    → nest_plain (outside (suc depth)) closing ≡ ok (outside depth)
nest_plain-close depth closing e = ground arith

nest_plain-other :
    (depth byte : ℕ)
    → (byte == b'"' || (is_open byte || is_close byte)) ≡ false
    → nest_plain (outside depth) byte ≡ ok (outside depth)
nest_plain-other depth byte e = ground arith

-- A text that nests within the limit is passed over.
nesting_loop-fits :
    (at : ℕ) {depth : ℕ} {body : List ℕ} (tail : List ℕ)
    → Nests depth body
    → at + depth ≤ max_json_nesting
    → nesting_loop (outside at) (body ++ tail) ≡ nesting_loop (outside at) tail
unfolding nesting_loop
nesting_loop-fits at tail nothing h = refl
nesting_loop-fits at tail (plain {byte} e rest) h =
    rw (nest_plain-other at byte e) (nesting_loop-fits at tail rest h)
nesting_loop-fits at tail (quoted {body = body} {rest} quotes more same) h =
    rw (same, append_assoc body (b'"' ∷ rest) tail)
      (nesting_loop-body at (rest ++ tail) quotes ∙ nesting_loop-fits at tail more h)
nesting_loop-fits at tail (nested opening closing {inner = inner} {rest} o c deep more size same)
      h =
    let open_step = nest_plain-open at opening o (omega (arith, size)) in
    let close_step = nest_plain-close at closing c in
    let inner_step =
      nesting_loop-fits (suc at) (closing ∷ (rest ++ tail)) deep (omega (arith, size)) in
    rw (same, append_assoc inner (closing ∷ rest) tail, open_step, inner_step, close_step)
      (nesting_loop-fits at tail more (omega (arith, size)))

-- A text that nests deeper is refused.
nesting_loop-deep :
    (at : ℕ) {depth : ℕ} {body : List ℕ} (tail : List ℕ)
    → Nests depth body
    → at ≤ max_json_nesting
    → max_json_nesting < at + depth
    → nesting_loop (outside at) (body ++ tail) ≡ err invalid_json
unfolding nesting_loop
nesting_loop-deep at tail nothing h deep = absurd (omega arith)
nesting_loop-deep at tail (plain {byte} e rest) h deep =
    rw (nest_plain-other at byte e) (nesting_loop-deep at tail rest h deep)
nesting_loop-deep at tail (quoted {body = body} {rest} quotes more same) h deep =
    rw (same, append_assoc body (b'"' ∷ rest) tail)
      (nesting_loop-body at (rest ++ tail) quotes ∙ nesting_loop-deep at tail more h deep)
nesting_loop-deep at tail
      (nested opening closing {inner_depth} {rest_depth} {inner = inner} {rest} o c within more size
        same)
      h deep =
    rw (same, append_assoc inner (closing ∷ rest) tail)
      (elim (Bool-cases (leb max_json_nesting at)) [
        | inl full ↦ rw (nest_plain-deep at opening o (ground arith)) refl
        | inr room ↦
            let open_step = nest_plain-open at opening o (ground arith) in
            elim (Bool-cases (leb (suc at + inner_depth) max_json_nesting)) [
              | inl fits ↦
                  let inner_step =
                    nesting_loop-fits (suc at) (closing ∷ (rest ++ tail)) within (ground arith) in
                  rw (open_step, inner_step, nest_plain-close at closing c)
                    (nesting_loop-deep at tail more h (ground (arith, size)))
              | inr below ↦ rw open_step (
                  nesting_loop-deep (suc at) (closing ∷ (rest ++ tail)) within (ground arith)
                    (ground arith))
            ]
      ])

-- A text whose brackets outside of strings are balanced is refused exactly if they nest deeper than
-- MAX_JSON_NESTING, and the refusal is the one of invalid JSON.
pub validate_nesting_lem :
    {depth : ℕ} {body : List ℕ}
    → Nests depth body
    → validate_nesting body ≡ (if leb depth max_json_nesting then ok tt else err invalid_json)
unfolding validate_nesting nesting_loop
validate_nesting_lem {depth} {body} nests = elim (Bool-cases (leb depth max_json_nesting)) [
  | inl fits ↦
      let e = rw (append-nil body) at (nesting_loop-fits 0 [] nests (ground arith)) in
      rw (fits, e) refl
  | inr over ↦
      let e =
        rw (append-nil body) at (nesting_loop-deep 0 [] nests (ground arith) (ground arith)) in
      rw (over, e) refl
]
