-- ===== src/Protocol/Json/Trips.antt =====
-- What the decoders of crates/yams-protocol/src/json.rs make of an encoded message.
pub mod Request
pub mod Response
use yams.Prelude.{
  ℕ, suc, max, ◌≤◌, ◌≡◌, refl, ap, ◌∙◌, Bool, true, false, not, List, [], ◌∷◌, arith, ltb, leb,
  le→leb, length, Result, ok, err, ◌>>=◌,
}
use yams.Core.Text.{Text}
use yams.Core.Text.Utf8.{is_utf8}
use yams.Protocol.Errors.{ProtocolError}
use yams.Protocol.Json.{
  Json, null, boolean, number, text, array, object, malformed, Items, nil, item, Entries, closed,
  broken, entry,
}
use yams.Protocol.Json.Raw.{RawMessage, as_message, strings_of}
use yams.Protocol.Json.Encode.{strings_json}
use yams.Protocol.Json.Decode.{
  max_json_nesting, validate_nesting, opens_other, decode_object, classify_json_error,
}
use yams.Protocol.Json.Nesting.{Nests, validate_nesting_lem}

unfoldable mutual
  pub depth_of : Json → ℕ
  depth_of (array items) = suc (depth_of_items items)
  depth_of (object entries) = suc (depth_of_entries entries)
  depth_of null = 0
  depth_of (boolean b) = 0
  depth_of (number n) = 0
  depth_of (text t) = 0
  depth_of malformed = 0

  pub depth_of_items : Items → ℕ
  depth_of_items nil = 0
  depth_of_items (item value rest) = max (depth_of value) (depth_of_items rest)

  pub depth_of_entries : Entries → ℕ
  depth_of_entries closed = 0
  depth_of_entries broken = 0
  depth_of_entries (entry key value rest) = max (depth_of value) (depth_of_entries rest)

-- What serde_json gives for the text of an object that it wrote itself: it is UTF-8 and starts with
-- a brace, its brackets are those of the value, and it is read as the value again.
pub record IsWritten (reads : List ℕ → Json × Bool) (value : Json) (body : List ℕ) : Type 0 where
  pub utf8 : is_utf8 body ≡ true
  pub rest : List ℕ
  pub opens : body ≡ b'{' ∷ rest
  pub nests : Nests (depth_of value) body
  pub read_back : reads body ≡ (value, true)

-- Reading the object of such a text.
pub decode_object-IsWritten :
    (reads : List ℕ → Json × Bool) {value : Json} (body : List ℕ) (limit : ℕ) {raw : RawMessage}
    → IsWritten reads value body
    → length body ≤ limit
    → depth_of value ≤ max_json_nesting
    → as_message value ≡ ok raw
    → decode_object reads body limit ≡ ok raw
unfolding decode_object
decode_object-IsWritten reads body limit h fits shallow reads_raw =
    let small : ltb limit (length body) ≡ false = ground arith in
    let deep : leb (depth_of _) max_json_nesting ≡ true = le→leb _ _ shallow in
    let nesting : validate_nesting body ≡ ok tt = rw deep at (validate_nesting_lem h.nests) in
    let opens : opens_other body ≡ false = ap opens_other h.opens ∙ unfold opens_other in refl in
    let value_is = ap (λ (p : Json × Bool). p.0) h.read_back in
    let ends = ap (λ (p : Json × Bool). p.1) h.read_back in
    rw (small, h.utf8, nesting, opens, value_is, reads_raw, ends) refl

pub strings_of-strings_json : (ts : List Text) → strings_of (strings_json ts) ≡ ok ts
unfolding strings_of
strings_of-strings_json [] = refl
strings_of-strings_json (t ∷ ts) = rw (strings_of-strings_json ts) refl
