-- ===== src/Protocol/Json/Decode.antt =====
-- `decode_request` and `decode_response` of crates/yams-protocol/src/json.rs.
use yams.Prelude.{
  ℕ, suc, ◌-◌, Bool, true, false, not, ◌||◌, Option, none, some, List, [], ◌∷◌, ltb, ◌==◌,
  if◌then◌else◌, length, is_empty, Result, ok, err, ◌>>◌, ◌>>=◌, refuse_if,
}
use yams.Core.Text.{Text, characters}
use yams.Core.Text.Order.{text_eq}
use yams.Core.Text.Utf8.{is_utf8}
use yams.Protocol.Errors.{
  ProtocolError, invalid_utf8, invalid_json, message_must_be_object, duplicate_field, unknown_field,
  fields_do_not_match, unsupported_version, invalid_request_type, unknown_response_type,
  empty_rejection_code, argument_too_large, frame_too_large,
}
use yams.Protocol.Message.{
  protocol_version, max_request_bytes, max_response_bytes, max_argument_bytes, parse_kind,
  ServiceOperation, Request, Message, request, accepted, completed, rejected,
}
use yams.Protocol.Json.{Json}
use yams.Protocol.Json.Raw.{
  JsonError, duplicate_sentinel, unknown_sentinel, other_error, is_some, RawOperation, RawMessage,
  as_message,
}
use yams.Protocol.Json.Encode.{validate_request, validate_request_id}

abbrev pub max_json_nesting : ℕ
max_json_nesting = 128

pub record Nest : Type 0 where
  pub depth : ℕ
  pub in_string : Bool
  pub escaped : Bool

abbrev pub is_open : ℕ → Bool
is_open byte = byte == b'{' || byte == b'['

abbrev pub is_close : ℕ → Bool
is_close byte = byte == b'}' || byte == b']'

-- One round of `validate_nesting` in a string.
abbrev pub nest_string : Nest → ℕ → Nest
nest_string n byte =
    if n.escaped
    then record n { escaped = false }
    else if byte == b'\\'
    then record n { escaped = true }
    else if byte == b'"'
    then record n { in_string = false }
    else n

-- One round outside. `checked_add` does not fail, since the depth is at most the limit.
abbrev pub nest_plain : Nest → ℕ → Result ProtocolError Nest
nest_plain n byte =
    if byte == b'"'
    then ok (record n { in_string = true })
    else if is_open byte
    then (if ltb max_json_nesting (suc n.depth)
        then err invalid_json
        else ok (record n { depth = suc n.depth }))
    else if is_close byte
    then ok (record n { depth = n.depth - 1 })
    else ok n

abbrev pub nest_step : Nest → ℕ → Result ProtocolError Nest
nest_step n byte = if n.in_string then ok (nest_string n byte) else nest_plain n byte

unfoldable pub nesting_loop : Nest → List ℕ → Result ProtocolError Nest
nesting_loop n [] = ok n
nesting_loop n (byte ∷ rest) = do next ← nest_step n byte; nesting_loop next rest

abbrev pub no_nest : Nest
no_nest = record { depth = 0; in_string = false; escaped = false }

unfoldable pub validate_nesting : List ℕ → Result ProtocolError (Unit {0})
unfolding nesting_loop
validate_nesting body = do n ← nesting_loop no_nest body; ok tt

abbrev pub is_ascii_whitespace : ℕ → Bool
is_ascii_whitespace byte = byte == 32 || byte == 9 || byte == 10 || byte == 12 || byte == 13

-- `find` gives a first byte, and it is not `{`.
unfoldable pub opens_other : List ℕ → Bool
opens_other [] = false
opens_other (byte ∷ rest) =
    let later = opens_other rest in if is_ascii_whitespace byte then later else not (byte == b'{')

abbrev pub classify_json_error : {A : Type 0} → Result JsonError A → Result ProtocolError A
classify_json_error (ok a) = ok a
classify_json_error (err duplicate_sentinel) = err duplicate_field
classify_json_error (err unknown_sentinel) = err unknown_field
classify_json_error (err other_error) = err invalid_json

unfoldable pub validate_version : RawMessage → Result ProtocolError (Unit {0})
validate_version raw = elim raw.version [
  | none ↦ err unsupported_version
  | some version ↦
      if version == protocol_version
      then refuse_if (not (is_some raw.message_type)) fields_do_not_match
      else err unsupported_version
]

-- A field that must be there.
abbrev pub required : {A : Type 0} → Option A → Result ProtocolError A
required none = err fields_do_not_match
required (some a) = ok a

unfoldable pub decode_operation : RawOperation → Result ProtocolError ServiceOperation
unfolding parse_kind
decode_operation raw = do
  kind_text ← required raw.kind
  query ← required raw.query
  k ← required raw.k
  json ← required raw.json
  full ← required raw.full
  no_gate ← required raw.no_gate
  explain ← required raw.explain
  kind ← required (parse_kind kind_text)
  refuse_if (ltb max_argument_bytes (length query)) argument_too_large
      >> ok (record {
        kind = kind;
        query = query;
        k = k;
        json = json;
        full = full;
        no_gate = no_gate;
        explain = explain;
        min_score = raw.min_score;
        max_gap = raw.max_gap;
        project = raw.project;
      })

unfoldable pub has_type : Text → RawMessage → Bool
unfolding text_eq
has_type name raw = elim raw.message_type [
  | none ↦ false
  | some message_type ↦ text_eq message_type name
]

abbrev pub has_response_fields : RawMessage → Bool
has_response_fields raw =
    is_some raw.request_id
    || is_some raw.exit_code
    || is_some raw.stdout
    || is_some raw.stderr
    || is_some raw.code
    || is_some raw.message

abbrev pub has_request_fields : RawMessage → Bool
has_request_fields raw = is_some raw.argv || is_some raw.cwd || is_some raw.operation

unfoldable pub request_of : RawMessage → Result ProtocolError Message
unfolding decode_operation validate_request
request_of raw = do
  argv ← required raw.argv
  cwd ← required raw.cwd
  raw_operation ← required raw.operation
  checked ← refuse_if (has_response_fields raw) fields_do_not_match
  operation ← decode_operation raw_operation
  let r : Request = record { operation = operation; argv = argv; cwd = cwd }
  valid ← validate_request r
  ok (request r)

-- `has_nonaccepted_fields`
abbrev pub has_nonaccepted_fields : RawMessage → Bool
has_nonaccepted_fields raw =
    has_request_fields raw
    || is_some raw.exit_code
    || is_some raw.stdout
    || is_some raw.stderr
    || is_some raw.code
    || is_some raw.message

unfoldable pub accepted_of : RawMessage → Result ProtocolError Message
unfolding validate_request_id
accepted_of raw = do
  request_id ← required raw.request_id
  checked ← refuse_if (has_nonaccepted_fields raw) fields_do_not_match
  valid ← validate_request_id request_id
  ok (accepted request_id)

unfoldable pub completed_of : RawMessage → Result ProtocolError Message
unfolding validate_request_id
completed_of raw = do
  request_id ← required raw.request_id
  exit_code ← required raw.exit_code
  stdout ← required raw.stdout
  stderr ← required raw.stderr
  checked ←
      refuse_if (has_request_fields raw || is_some raw.code || is_some raw.message)
        fields_do_not_match
  valid ← validate_request_id request_id
  ok (
      completed (record {
        request_id = request_id;
        exit_code = exit_code;
        stdout = stdout;
        stderr = stderr;
      }))

unfoldable pub rejected_of : RawMessage → Result ProtocolError Message
rejected_of raw = do
  code ← required raw.code
  detail ← required raw.message
  checked ←
      refuse_if
        (has_request_fields raw
          || is_some raw.request_id
          || is_some raw.exit_code
          || is_some raw.stdout
          || is_some raw.stderr)
        fields_do_not_match
  valid ← refuse_if (is_empty code) empty_rejection_code
  ok (rejected code detail)

-- The `match` of `decode_response` on the type.
unfoldable pub response_of : RawMessage → Result ProtocolError Message
unfolding accepted_of completed_of rejected_of has_type
response_of raw =
    if has_type (characters "accepted") raw
    then accepted_of raw
    else if has_type (characters "completed") raw
    then completed_of raw
    else if has_type (characters "rejected") raw
    then rejected_of raw
    else if is_some raw.message_type
    then err unknown_response_type
    else err fields_do_not_match

module _ (reads : List ℕ → Json × Bool) where
  unfoldable pub decode_object : List ℕ → ℕ → Result ProtocolError RawMessage
  unfolding is_utf8 validate_nesting opens_other
  decode_object body limit = do
    fits ← refuse_if (ltb limit (length body)) (frame_too_large (length body) limit)
    utf8 ← refuse_if (not (is_utf8 body)) invalid_utf8
    nests ← validate_nesting body
    opens ← refuse_if (opens_other body) message_must_be_object
    raw ← classify_json_error (as_message (reads body).0)
    ends ← refuse_if (not (reads body).1) invalid_json
    ok raw

  unfoldable pub decode_request : List ℕ → Result ProtocolError Message
  unfolding decode_object validate_version request_of has_type
  decode_request body = do
    raw ← decode_object body max_request_bytes
    version ← validate_version raw
    typed ← refuse_if (not (has_type (characters "request") raw)) invalid_request_type
    request_of raw

  unfoldable pub decode_response : List ℕ → Result ProtocolError Message
  unfolding decode_object validate_version response_of
  decode_response body = do
    raw ← decode_object body max_response_bytes
    version ← validate_version raw
    response_of raw
