-- ===== src/Protocol/Json/Tests.antt =====
-- Runs of crates/yams-protocol/src/json.rs.
use yams.Prelude.{
  any, ◌||◌, ◌==◌, false, ℕ, ◌≡◌, refl, Bool, true, some, List, [], ◌∷◌, ◌++◌, arith, leb,
  if◌then◌else◌, ok, err,
}
use mathlib.Core.Path.{subst}
use yams.Core.Text.{characters, concat}
use yams.Protocol.Errors.{invalid_json, duplicate_field, frame_too_large}
use yams.Protocol.Message.{OperationKind, default_operation, Request, Message, request, accepted}
use yams.Protocol.Json.{text, number, object, closed, entry}
use yams.Protocol.Json.Raw.{as_message, message_loop, put_message}
use yams.Protocol.Json.Encode.{wire, new_writer, write_pieces, finish_writer, encode}
use yams.Protocol.Json.Decode.{
  max_json_nesting, is_open, is_close, classify_json_error, validate_nesting, decode_request,
  decode_response,
}
use yams.Protocol.Json.Nesting.{
  IsBody, empty, letter, Nests, nothing, plain, quoted, nested, validate_nesting_lem,
}
use yams.Protocol.Json.Valid.{IsAdmitted, decode_request-IsAdmitted}
use yams.Protocol.Json.Trips.{IsWritten, depth_of, depth_of_entries}
use yams.Core.Text.Utf8.{is_utf8}
use yams.Protocol.Json.Trips.Request.{decode_request-encode}
use yams.Protocol.Json.Trips.Response.{decode_response-encode}

abbrev notice : Message
notice = accepted (characters "7")

abbrev notice_text : List ℕ
notice_text = characters "{\"version\":4,\"type\":\"accepted\",\"request_id\":\"7\"}"

notice_encoded : encode (λ value. some (notice_text ∷ [])) notice ≡ ok notice_text
unfolding encode
notice_encoded = refl

notice_decoded : decode_response (λ body. (wire notice, true)) notice_text ≡ ok notice
unfolding decode_response message_loop put_message
notice_decoded = refl

doubled :
    classify_json_error (
      as_message (
        object (entry (characters "code") (text []) (entry (characters "code") (number 1) closed))))
    ≡ err duplicate_field
unfolding message_loop put_message
doubled = refl

overflown :
    finish_writer (write_pieces (new_writer 4) (characters "abc" ∷ characters "def" ∷ []))
    ≡ err (frame_too_large 6 4)
unfolding write_pieces finish_writer
overflown = refl

letters-IsBody : (t : List ℕ) → any (λ byte. byte == b'"' || byte == b'\\') t ≡ false → IsBody t
letters-IsBody [] h = empty
letters-IsBody (byte ∷ rest) h = letter (ground arith) (letters-IsBody rest (ground arith))

abbrev is_special : ℕ → Bool
is_special byte = byte == b'"' || (is_open byte || is_close byte)

letters-Nests :
    {depth : ℕ} (t : List ℕ) {rest : List ℕ}
    → any is_special t ≡ false
    → Nests depth rest
    → Nests depth (t ++ rest)
letters-Nests [] h more = more
letters-Nests (byte ∷ t) h more = plain (ground arith) (letters-Nests t (ground arith) more)

string-Nests :
    {depth : ℕ} (t : List ℕ) {rest : List ℕ}
    → any (λ byte. byte == b'"' || byte == b'\\') t ≡ false
    → Nests depth rest
    → Nests depth (b'"' ∷ (t ++ (b'"' ∷ rest)))
string-Nests t h more = quoted (letters-IsBody t h) more refl

notice-Nests : Nests 1 notice_text
notice-Nests =
    nested b'{' b'}' refl refl
      (string-Nests (characters "version") refl (
        letters-Nests (characters ":4,") refl (
          string-Nests (characters "type") refl (
            letters-Nests (characters ":") refl (
              string-Nests (characters "accepted") refl (
                letters-Nests (characters ",") refl (
                  string-Nests (characters "request_id") refl (
                    letters-Nests (characters ":") refl
                      (string-Nests (characters "7") refl nothing)))))))))
      nothing (omega arith) refl

validate_nesting_lem_example :
    validate_nesting notice_text ≡ (if leb 1 max_json_nesting then ok tt else err invalid_json)
validate_nesting_lem_example = validate_nesting_lem notice-Nests

notice-IsWritten :
    (pieces : List (List ℕ))
    → some (notice_text ∷ []) ≡ some pieces
    → IsWritten (λ body. (wire notice, true)) (wire notice) (concat pieces)
unfolding concat depth_of depth_of_entries is_utf8
notice-IsWritten pieces e =
    let same : (notice_text ∷ []) ≡ pieces = cc in
    let written : IsWritten (λ body. (wire notice, true)) (wire notice)
        (concat (notice_text ∷ [])) =
      record { utf8 = refl; rest = _; opens = refl; nests = notice-Nests; read_back = refl } in
    subst (λ (p : List (List ℕ)). IsWritten (λ body. (wire notice, true)) (wire notice) (concat p))
      same written

decode_response-encode_example :
    decode_response (λ body. (wire notice, true)) notice_text ≡ ok notice
decode_response-encode_example =
    decode_response-encode (λ value. some (notice_text ∷ [])) (λ body. (wire notice, true)) notice
      notice_text notice-IsWritten tt notice_encoded

abbrev asked : Request
asked = record {
  operation = record default_operation { kind = OperationKind.stats };
  argv = characters "--stats" ∷ [];
  cwd = characters "/";
}

switches_nest :
    Nests 0 (characters ",\"json\":false,\"full\":false,\"no_gate\":false,\"explain\":false")
switches_nest = letters-Nests (characters ",") refl (
    string-Nests (characters "json") refl (
      letters-Nests (characters ":false,") refl (
        string-Nests (characters "full") refl (
          letters-Nests (characters ":false,") refl (
            string-Nests (characters "no_gate") refl (
              letters-Nests (characters ":false,") refl (
                string-Nests (characters "explain") refl
                  (letters-Nests (characters ":false") refl nothing))))))))

operation-Nests : Nests 0 (
    characters
      "\"kind\":\"stats\",\"query\":\"\",\"k\":\"5\",\"json\":false,\"full\":false,\"no_gate\":false,\"explain\":false")
operation-Nests = string-Nests (characters "kind") refl (
    letters-Nests (characters ":") refl (
      string-Nests (characters "stats") refl (
        letters-Nests (characters ",") refl (
          string-Nests (characters "query") refl (
            letters-Nests (characters ":") refl (
              string-Nests [] refl (
                letters-Nests (characters ",") refl (
                  string-Nests (characters "k") refl (
                    letters-Nests (characters ":") refl
                      (string-Nests (characters "5") refl switches_nest))))))))))

more-Nests : Nests 1 (characters ",\"argv\":[\"--stats\"],\"cwd\":\"/\"")
more-Nests = letters-Nests (characters ",") refl (
    string-Nests (characters "argv") refl (
      letters-Nests (characters ":") refl (
        nested b'[' b']' refl refl (string-Nests (characters "--stats") refl nothing)
          (letters-Nests (characters ",") refl (
            string-Nests (characters "cwd") refl
              (letters-Nests (characters ":") refl (string-Nests (characters "/") refl nothing))))
          (omega arith) refl)))

abbrev asked_text : List ℕ
asked_text =
    characters
      "{\"version\":4,\"type\":\"request\",\"operation\":{\"kind\":\"stats\",\"query\":\"\",\"k\":\"5\",\"json\":false,\"full\":false,\"no_gate\":false,\"explain\":false},\"argv\":[\"--stats\"],\"cwd\":\"/\"}"

asked-Nests : Nests 2 asked_text
asked-Nests =
    nested b'{' b'}' {inner_depth = 1} refl refl
      (string-Nests (characters "version") refl (
        letters-Nests (characters ":4,") refl (
          string-Nests (characters "type") refl (
            letters-Nests (characters ":") refl (
              string-Nests (characters "request") refl (
                letters-Nests (characters ",") refl (
                  string-Nests (characters "operation") refl (
                    letters-Nests (characters ":") refl (
                      nested b'{' b'}' refl refl operation-Nests more-Nests (omega arith)
                        refl)))))))))
      nothing (omega arith) refl

asked_encoded : encode (λ value. some (asked_text ∷ [])) (request asked) ≡ ok asked_text
unfolding encode
asked_encoded = refl

asked-IsWritten :
    (pieces : List (List ℕ))
    → some (asked_text ∷ []) ≡ some pieces
    → IsWritten (λ body. (wire (request asked), true)) (wire (request asked)) (concat pieces)
unfolding concat depth_of depth_of_entries is_utf8
asked-IsWritten pieces e =
    let same : (asked_text ∷ []) ≡ pieces = cc in
    let written : IsWritten (λ body. (wire (request asked), true)) (wire (request asked))
        (concat (asked_text ∷ [])) =
      record { utf8 = refl; rest = _; opens = refl; nests = asked-Nests; read_back = refl } in
    subst
      (λ (p : List (List ℕ)).
        IsWritten (λ body. (wire (request asked), true)) (wire (request asked)) (concat p))
      same written

decode_request-encode_example :
    decode_request (λ body. (wire (request asked), true)) asked_text ≡ ok (request asked)
decode_request-encode_example =
    decode_request-encode (λ value. some (asked_text ∷ [])) (λ body. (wire (request asked), true))
      asked asked_text asked-IsWritten (omega arith) asked_encoded

decode_request-IsAdmitted_example : IsAdmitted asked_text (request asked)
decode_request-IsAdmitted_example =
    decode_request-IsAdmitted (λ body. (wire (request asked), true)) asked_text (request asked)
      decode_request-encode_example
