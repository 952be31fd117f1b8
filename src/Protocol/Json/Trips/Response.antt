-- ===== src/Protocol/Json/Trips/Response.antt =====
-- Responses through `encode` and `decode_response` of crates/yams-protocol/src/json.rs.
use yams.Prelude.{ℕ, ◌≤◌, ◌≡◌, refl, sym, Bool, Option, some, List, arith, le→leb, ok}
use yams.Core.Text.{characters, concat}
use yams.Core.Text.Order.{text_eq}
use yams.Protocol.Message.{max_response_bytes, Message, request, accepted, completed, rejected}
use yams.Protocol.Json.{Json}
use yams.Protocol.Json.Raw.{RawMessage, raw_message, as_message, put_message, message_loop}
use yams.Protocol.Json.Encode.{wire, validate_message, limit_of, encode}
use yams.Protocol.Json.Encode.Bounded.{encode-ok}
use yams.Protocol.Json.Decode.{
  max_json_nesting, validate_version, response_of, accepted_of, completed_of, rejected_of, has_type,
  decode_response,
}
use yams.Protocol.Json.Trips.{depth_of, depth_of_entries, IsWritten, decode_object-IsWritten}

-- No request, and an exit code of eight bits.
abbrev pub IsResponse : Message → Type 0
IsResponse (request r) = 1 ≤ 0
IsResponse (accepted request_id) = Unit
IsResponse (completed c) = c.exit_code ≤ 255
IsResponse (rejected code detail) = Unit

-- The fields that stand in a response.
abbrev raw_response : Message → RawMessage
raw_response (request r) = raw_message
raw_response (accepted request_id) = record raw_message {
  version = some 4;
  message_type = some (characters "accepted");
  request_id = some request_id;
}
raw_response (completed c) = record raw_message {
  version = some 4;
  message_type = some (characters "completed");
  request_id = some c.request_id;
  exit_code = some c.exit_code;
  stdout = some c.stdout;
  stderr = some c.stderr;
}
raw_response (rejected code detail) = record raw_message {
  version = some 4;
  message_type = some (characters "rejected");
  code = some code;
  message = some detail;
}

as_message-response : (m : Message) → IsResponse m → as_message (wire m) ≡ ok (raw_response m)
unfolding message_loop put_message
as_message-response (request r) h = absurd (omega arith)
as_message-response (accepted request_id) h = refl
as_message-response (completed c) h = rw (le→leb c.exit_code 255 h) refl
as_message-response (rejected code detail) h = refl

depth_of-response : (m : Message) → IsResponse m → depth_of (wire m) ≤ max_json_nesting
unfolding depth_of depth_of_entries
depth_of-response (request r) h = absurd (omega arith)
depth_of-response (accepted request_id) h = omega arith
depth_of-response (completed c) h = omega arith
depth_of-response (rejected code detail) h = omega arith

response_of-raw_response :
    (m : Message) → IsResponse m → validate_message m ≡ ok tt → response_of (raw_response m) ≡ ok m
unfolding response_of accepted_of completed_of rejected_of validate_message has_type text_eq
response_of-raw_response (request r) h valid = absurd (omega arith)
response_of-raw_response (accepted request_id) h valid = rw valid refl
response_of-raw_response (completed c) h valid = rw valid refl
response_of-raw_response (rejected code detail) h valid = rw valid refl

validate_version-response : (m : Message) → IsResponse m → validate_version (raw_response m) ≡ ok tt
unfolding validate_version
validate_version-response (request r) h = absurd (omega arith)
validate_version-response (accepted request_id) h = refl
validate_version-response (completed c) h = refl
validate_version-response (rejected code detail) h = refl

limit_of-response : (m : Message) → IsResponse m → limit_of m ≡ max_response_bytes
limit_of-response (request r) h = absurd (omega arith)
limit_of-response (accepted request_id) h = refl
limit_of-response (completed c) h = refl
limit_of-response (rejected code detail) h = refl

-- If serde_json reads back what it writes for a response, whose exit code has eight bits, then
-- `decode_response` returns the response whose encoding `encode` returned.
pub decode_response-encode :
    (to_writer : Json → Option (List (List ℕ))) (reads : List ℕ → Json × Bool) (m : Message)
    (body : List ℕ)
    → ((pieces : List (List ℕ))
        → to_writer (wire m) ≡ some pieces
        → IsWritten reads (wire m) (concat pieces))
    → IsResponse m
    → encode to_writer m ≡ ok body
    → decode_response reads body ≡ ok m
unfolding decode_response
decode_response-encode to_writer reads m body serde h e =
    let (pieces, wrote, same, fits, valid) = encode-ok to_writer m e in
    let written = rw (sym same) at (serde pieces wrote) in
    let object =
      decode_object-IsWritten reads body max_response_bytes written
        (rw (limit_of-response m h) at fits) (depth_of-response m h) (as_message-response m h) in
    rw (object, validate_version-response m h, response_of-raw_response m h valid) refl
