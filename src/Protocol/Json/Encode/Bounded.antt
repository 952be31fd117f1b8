-- ===== src/Protocol/Json/Encode/Bounded.antt =====
-- `BoundedJsonWriter` and `encode_bounded` of crates/yams-protocol/src/json.rs against the whole text.
use mathlib.Core.List.{append-nil, append_assoc}
use native.Mathlib.Numerals.{unary_clauses}
use yams.Prelude.{
  ℕ, zero, suc, ◌-◌, ◌≤◌, ◌<◌, min, ◌≡◌, refl, sym, ap, ◌∙◌, true, false, Option, some, List, [],
  ◌∷◌, ◌++◌, arith, ltb, if◌then◌else◌, length, length-append, length-take, take, take_all, ok, err,
  Bool-cases, inl, inr, Option-cases, >>-ok,
}
use yams.Core.Text.{concat}
use yams.Protocol.Errors.{frame_too_large}
use yams.Protocol.Message.{Message, request, accepted, completed, rejected}
use yams.Protocol.Json.{Json}
use yams.Protocol.Json.Encode.{
  BoundedJsonWriter, usize_max, new_writer, write_json, write_pieces, finish_writer, limit_of,
  validate_message, wire, encode_bounded, encode,
}

-- The writer holds the start of `all` and its length.
record Wrote (limit : ℕ) (all : List ℕ) (w : BoundedJsonWriter) : Type 0 where
  bound : w.limit ≡ limit
  kept : w.bytes ≡ take limit all
  counted : w.written ≡ min (length all) usize_max

module _ {ℓ} {A : Type ℓ} where
  take-append_split :
      (n : ℕ) (xs ys : List A) → take n (xs ++ ys) ≡ take n xs ++ take (n - length xs) ys
  take-append_split zero [] ys = refl
  take-append_split (suc n) [] ys = simp unary_clauses refl
  take-append_split zero (x ∷ xs) ys =
      let none_left : 0 ≡ 0 - length (x ∷ xs) = omega arith in ap (λ (k : ℕ). take k ys) none_left
  take-append_split (suc n) (x ∷ xs) ys =
      simp unary_clauses (ap (◌∷◌ x) (take-append_split n xs ys))

  take-min : (n : ℕ) (xs : List A) → take (min n (length xs)) xs ≡ take n xs
  take-min zero xs = simp unary_clauses refl
  take-min (suc n) [] = simp unary_clauses refl
  take-min (suc n) (x ∷ xs) = simp unary_clauses (ap (◌∷◌ x) (take-min n xs))

  take_nil : (n : ℕ) → take {A = A} n [] ≡ []
  take_nil zero = refl
  take_nil (suc n) = refl

write_json-Wrote :
    (limit : ℕ) (all input : List ℕ) (w : BoundedJsonWriter)
    → Wrote limit all w
    → Wrote limit (all ++ input) (write_json w input)
unfolding write_json
write_json-Wrote limit all input w h =
    let held : length w.bytes ≡ min limit (length all) =
      ap (length {A = ℕ}) h.kept ∙ length-take limit all in
    let room : w.limit - length w.bytes ≡ limit - length all = omega (arith, h.bound, held) in
    record {
      bound = h.bound;
      kept =
          ap (λ (k : ℕ). w.bytes ++ take (min k (length input)) input) room
          ∙ ap (◌++◌ w.bytes) (take-min (limit - length all) input)
          ∙ ap (λ (t : List ℕ). t ++ take (limit - length all) input) h.kept
          ∙ sym (take-append_split limit all input);
      counted = omega (arith, h.counted, length-append all input);
    }

write_pieces-Wrote :
    (limit : ℕ) (all : List ℕ) (pieces : List (List ℕ)) (w : BoundedJsonWriter)
    → Wrote limit all w
    → Wrote limit (all ++ concat pieces) (write_pieces w pieces)
unfolding write_pieces concat
write_pieces-Wrote limit all [] w h = rw (append-nil all) h
write_pieces-Wrote limit all (piece ∷ rest) w h = rw (append_assoc all piece (concat rest)) at (
    write_pieces-Wrote limit (all ++ piece) rest (write_json w piece)
      (write_json-Wrote limit all piece w h))

-- What the writer returns for the pieces of a text.
pub finish-write_pieces :
    (limit : ℕ) (pieces : List (List ℕ))
    → limit < usize_max
    → finish_writer (write_pieces (new_writer limit) pieces) ≡ (
        if ltb limit (length (concat pieces))
        then err (frame_too_large (min (length (concat pieces)) usize_max) limit)
        else ok (concat pieces))
unfolding finish_writer
finish-write_pieces limit pieces small =
    let w = write_pieces (new_writer limit) pieces in
    let all = concat pieces in
    let h : Wrote limit all w =
      write_pieces-Wrote limit [] pieces (new_writer limit)
        (record { bound = refl; kept = sym (take_nil limit); counted = omega arith }) in
    elim (Bool-cases (ltb limit (length all))) [
      | inl over ↦
          let test : ltb w.limit w.written ≡ true = ground (arith, h.bound, h.counted) in
          let size : frame_too_large w.written w.limit
              ≡ frame_too_large (min (length all) usize_max) limit =
            cc (h.counted, h.bound) in
          rw (test, over) (ap err size)
      | inr within ↦
          let test : ltb w.limit w.written ≡ false = ground (arith, h.bound, h.counted) in
          rw (test, within) (ap ok (h.kept ∙ take_all limit all (ground arith)))
    ]

limit_of-small : (m : Message) → limit_of m < usize_max
limit_of-small (request r) = omega arith
limit_of-small (accepted request_id) = omega arith
limit_of-small (completed c) = omega arith
limit_of-small (rejected code detail) = omega arith

-- The text of a message that `encode` returned.
pub encode-ok :
    (to_writer : Json → Option (List (List ℕ))) (m : Message) {body : List ℕ}
    → encode to_writer m ≡ ok body
    → (pieces : List (List ℕ)) × (to_writer (wire m) ≡ some pieces)
      × (body ≡ concat pieces)
      × (length body ≤ limit_of m)
      × (validate_message m ≡ ok tt)
unfolding encode encode_bounded
encode-ok to_writer m {body} h =
    let (valid, rest) =
      >>-ok (validate_message m) (encode_bounded to_writer (wire m) (limit_of m)) h in
    elim (Option-cases (to_writer (wire m))) [
      | inl failed ↦ let e = rw (encode_bounded, failed) at rest in cc
      | inr (pieces, wrote) ↦
          let e = rw (encode_bounded, wrote) at rest in
          let whole = finish-write_pieces (limit_of m) pieces (limit_of-small m) in
          elim (Bool-cases (ltb (limit_of m) (length (concat pieces)))) [
            | inl over ↦ let w = rw over at whole in cc
            | inr within ↦
                let w = rw within at whole in
                let same : body ≡ concat pieces = cc in
                (pieces, wrote, same, rw same (ground arith), valid)
          ]
    ]
