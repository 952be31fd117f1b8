-- ===== src/Protocol/Json/Encode.antt =====
-- `encode` of crates/yams-protocol/src/json.rs: validation, the wire form of each message, and the
-- writer that counts every byte and keeps those within the limit.
pub mod Bounded
use yams.Prelude.{
  ℕ, ◌+◌, ◌-◌, ◌^◌, min, Bool, true, false, not, Option, none, some, List, [], ◌∷◌, ◌++◌, ltb,
  if◌then◌else◌, length, take, any, is_empty, Result, ok, err, ◌>>◌, ◌>>=◌, refuse_if,
}
use yams.Core.Text.{Text, characters}
use yams.Core.Text.Order.{starts_with}
use yams.Protocol.Errors.{
  ProtocolError, invalid_json, cwd_not_absolute, empty_request_id, empty_rejection_code,
  too_many_arguments, argument_too_large, frame_too_large,
}
use yams.Protocol.Message.{
  protocol_version, max_request_bytes, max_response_bytes, max_arguments, max_argument_bytes,
  as_str, ServiceOperation, Request, Completed, Message, request, accepted, completed, rejected,
}
use yams.Protocol.Json.{
  Json, boolean, number, text, array, object, Items, nil, item, Entries, closed, entry,
}

-- `Path::is_absolute`
unfoldable pub is_absolute : Text → Bool
unfolding starts_with
is_absolute path = starts_with path (characters "/")

abbrev pub is_long : Text → Bool
is_long argument = ltb max_argument_bytes (length argument)

unfoldable pub validate_request : Request → Result ProtocolError (Unit {0})
unfolding is_absolute
validate_request r =
    refuse_if (ltb max_arguments (length r.argv)) too_many_arguments
    >> (refuse_if (any is_long r.argv) argument_too_large
        >> refuse_if (not (is_absolute r.cwd)) cwd_not_absolute)

unfoldable pub validate_request_id : Text → Result ProtocolError (Unit {0})
validate_request_id request_id = refuse_if (is_empty request_id) empty_request_id

abbrev pub strings_json : List Text → Items
strings_json [] = nil
strings_json (t ∷ ts) = item (text t) (strings_json ts)

-- `skip_serializing_if = "Option::is_none"`
abbrev pub optional_entry : Text → Option Text → Entries → Entries
optional_entry key none rest = rest
optional_entry key (some t) rest = entry key (text t) rest

-- `OperationWire`
abbrev pub operation_wire : ServiceOperation → Json
operation_wire op = object (
    entry (characters "kind") (text (as_str op.kind)) (
      entry (characters "query") (text op.query) (
        entry (characters "k") (text op.k) (
          entry (characters "json") (boolean op.json) (
            entry (characters "full") (boolean op.full) (
              entry (characters "no_gate") (boolean op.no_gate) (
                entry (characters "explain") (boolean op.explain) (
                  optional_entry (characters "min_score") op.min_score (
                    optional_entry (characters "max_gap") op.max_gap
                      (optional_entry (characters "project") op.project closed))))))))))

abbrev pub typed : Text → Entries → Json
typed message_type entries = object (
    entry (characters "version") (number protocol_version)
      (entry (characters "type") (text message_type) entries))

-- `RequestWire`, `AcceptedWire`, `CompletedWire` and `RejectedWire`
abbrev pub wire : Message → Json
wire (request r) = typed (characters "request") (
    entry (characters "operation") (operation_wire r.operation) (
      entry (characters "argv") (array (strings_json r.argv))
        (entry (characters "cwd") (text r.cwd) closed)))
wire (accepted request_id) =
    typed (characters "accepted") (entry (characters "request_id") (text request_id) closed)
wire (completed c) = typed (characters "completed") (
    entry (characters "request_id") (text c.request_id) (
      entry (characters "exit_code") (number c.exit_code) (
        entry (characters "stdout") (text c.stdout)
          (entry (characters "stderr") (text c.stderr) closed))))
wire (rejected code detail) =
    typed (characters "rejected")
      (entry (characters "code") (text code) (entry (characters "message") (text detail) closed))

pub record BoundedJsonWriter : Type 0 where
  pub bytes : List ℕ
  pub written : ℕ
  pub limit : ℕ

-- `usize::MAX`
abbrev pub usize_max : ℕ
usize_max = 2 ^ 64 - 1

abbrev pub new_writer : ℕ → BoundedJsonWriter
new_writer limit = record { bytes = []; written = 0; limit = limit }

-- `BoundedJsonWriter::write`, which takes all of its input
unfoldable pub write_json : BoundedJsonWriter → List ℕ → BoundedJsonWriter
write_json w input =
    let retained = min (w.limit - length w.bytes) (length input) in
    record w {
      written = min (w.written + length input) usize_max;
      bytes = w.bytes ++ take retained input;
    }

unfoldable pub write_pieces : BoundedJsonWriter → List (List ℕ) → BoundedJsonWriter
unfolding write_json
write_pieces w [] = w
write_pieces w (piece ∷ rest) = write_pieces (write_json w piece) rest

unfoldable pub finish_writer : BoundedJsonWriter → Result ProtocolError (List ℕ)
finish_writer w =
    if ltb w.limit w.written then err (frame_too_large w.written w.limit) else ok w.bytes

abbrev pub limit_of : Message → ℕ
limit_of (request r) = max_request_bytes
limit_of (accepted request_id) = max_response_bytes
limit_of (completed c) = max_response_bytes
limit_of (rejected code detail) = max_response_bytes

unfoldable pub validate_message : Message → Result ProtocolError (Unit {0})
unfolding validate_request validate_request_id
validate_message (request r) = validate_request r
validate_message (accepted request_id) = validate_request_id request_id
validate_message (completed c) = validate_request_id c.request_id
validate_message (rejected code detail) = refuse_if (is_empty code) empty_rejection_code

module _ (to_writer : Json → Option (List (List ℕ))) where
  unfoldable pub encode_bounded : Json → ℕ → Result ProtocolError (List ℕ)
  unfolding write_pieces finish_writer
  encode_bounded value limit = elim (to_writer value) [
    | none ↦ err invalid_json
    | some pieces ↦ finish_writer (write_pieces (new_writer limit) pieces)
  ]

  unfoldable pub encode : Message → Result ProtocolError (List ℕ)
  unfolding validate_message encode_bounded
  encode m = validate_message m >> encode_bounded (wire m) (limit_of m)
