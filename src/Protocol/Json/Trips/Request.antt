-- ===== src/Protocol/Json/Trips/Request.antt =====
-- Requests through `encode` and `decode_request` of crates/yams-protocol/src/json.rs.
use yams.Prelude.{
  ℕ, ◌≤◌, ◌≡◌, refl, sym, Bool, false, Option, none, some, List, [], ◌∷◌, arith, ltb, length, ok,
}
use yams.Core.Text.{Text, characters, concat}
use yams.Core.Text.Order.{text_eq}
use yams.Protocol.Message.{
  max_argument_bytes, OperationKind, as_str, parse_kind, ServiceOperation, Request, request,
}
use yams.Protocol.Json.{Json}
use yams.Protocol.Json.Raw.{
  RawOperation, RawMessage, raw_message, as_operation, as_message, put_operation, operation_loop,
  put_message, message_loop,
}
use yams.Protocol.Json.Encode.{operation_wire, strings_json, wire, validate_message, encode}
use yams.Protocol.Json.Encode.Bounded.{encode-ok}
use yams.Protocol.Json.Decode.{
  max_json_nesting, decode_operation, validate_version, has_type, request_of, decode_request,
}
use yams.Protocol.Json.Trips.{
  depth_of, depth_of_items, depth_of_entries, IsWritten, decode_object-IsWritten,
  strings_of-strings_json,
}

parse_kind-as_str : (kind : OperationKind) → parse_kind (as_str kind) ≡ some kind
unfolding parse_kind
parse_kind-as_str OperationKind.search = refl
parse_kind-as_str OperationKind.all = refl
parse_kind-as_str OperationKind.index = refl
parse_kind-as_str OperationKind.stats = refl
parse_kind-as_str OperationKind.projects = refl
parse_kind-as_str OperationKind.gc = refl

-- The fields of an operation as they are read.
abbrev raw_of : ServiceOperation → RawOperation
raw_of op = record {
  kind = some (as_str op.kind);
  query = some op.query;
  k = some op.k;
  json = some op.json;
  full = some op.full;
  no_gate = some op.no_gate;
  explain = some op.explain;
  min_score = op.min_score;
  max_gap = op.max_gap;
  project = op.project;
}

read_optional :
    (op : ServiceOperation) (min_score max_gap project : Option Text)
    → as_operation
        (operation_wire (record op { min_score = min_score; max_gap = max_gap; project = project }))
      ≡ ok (raw_of (record op { min_score = min_score; max_gap = max_gap; project = project }))
unfolding operation_loop put_operation
read_optional op none none none = refl
read_optional op none none (some p) = refl
read_optional op none (some g) none = refl
read_optional op none (some g) (some p) = refl
read_optional op (some m) none none = refl
read_optional op (some m) none (some p) = refl
read_optional op (some m) (some g) none = refl
read_optional op (some m) (some g) (some p) = refl

as_operation-operation_wire :
    (op : ServiceOperation) → as_operation (operation_wire op) ≡ ok (raw_of op)
as_operation-operation_wire op = read_optional op op.min_score op.max_gap op.project

decode_operation-raw_of :
    (op : ServiceOperation)
    → length op.query ≤ max_argument_bytes
    → decode_operation (raw_of op) ≡ ok op
unfolding decode_operation
decode_operation-raw_of op h =
    let fits : ltb max_argument_bytes (length op.query) ≡ false = ground arith in
    rw (parse_kind-as_str op.kind, fits) refl

abbrev raw_request : Request → RawMessage
raw_request r = record raw_message {
  version = some 4;
  message_type = some (characters "request");
  argv = some r.argv;
  cwd = some r.cwd;
  operation = some (raw_of r.operation);
}

as_message-wire : (r : Request) → as_message (wire (request r)) ≡ ok (raw_request r)
unfolding message_loop put_message
as_message-wire r =
    rw (as_operation-operation_wire r.operation, strings_of-strings_json r.argv) refl

depth_of-optional :
    (op : ServiceOperation) (min_score max_gap project : Option Text)
    → depth_of
        (operation_wire (record op { min_score = min_score; max_gap = max_gap; project = project }))
      ≡ 1
unfolding depth_of depth_of_entries
depth_of-optional op none none none = refl
depth_of-optional op none none (some p) = refl
depth_of-optional op none (some g) none = refl
depth_of-optional op none (some g) (some p) = refl
depth_of-optional op (some m) none none = refl
depth_of-optional op (some m) none (some p) = refl
depth_of-optional op (some m) (some g) none = refl
depth_of-optional op (some m) (some g) (some p) = refl

depth_of_items-strings_json : (ts : List Text) → depth_of_items (strings_json ts) ≡ 0
unfolding depth_of_items depth_of
depth_of_items-strings_json [] = refl
depth_of_items-strings_json (t ∷ ts) = omega (arith, depth_of_items-strings_json ts)

depth_of-request : (r : Request) → depth_of (wire (request r)) ≤ max_json_nesting
unfolding depth_of depth_of_entries
depth_of-request r =
    let op =
      depth_of-optional r.operation r.operation.min_score r.operation.max_gap r.operation.project in
    rw (op, depth_of_items-strings_json r.argv) (omega arith)

-- If serde_json reads back what it writes for the request, and the query is at most
-- MAX_ARGUMENT_BYTES long, then `decode_request` returns the request whose encoding `encode`
-- returned.
pub decode_request-encode :
    (to_writer : Json → Option (List (List ℕ))) (reads : List ℕ → Json × Bool) (r : Request)
    (body : List ℕ)
    → ((pieces : List (List ℕ))
        → to_writer (wire (request r)) ≡ some pieces
        → IsWritten reads (wire (request r)) (concat pieces))
    → length r.operation.query ≤ max_argument_bytes
    → encode to_writer (request r) ≡ ok body
    → decode_request reads body ≡ ok (request r)
unfolding decode_request request_of validate_version validate_message text_eq has_type
decode_request-encode to_writer reads r body serde short h =
    let (pieces, wrote, same, fits, valid) = encode-ok to_writer (request r) h in
    let written = rw (sym same) at (serde pieces wrote) in
    let object =
      decode_object-IsWritten reads body _ written fits (depth_of-request r) (as_message-wire r) in
    rw (object, decode_operation-raw_of r.operation short, valid) refl
