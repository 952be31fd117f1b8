-- ===== src/Protocol/Json/Raw.antt =====
-- `RawMessage` and `RawOperation` of crates/yams-protocol/src/json.rs with their visitors.
use yams.Prelude.{
  ℕ, Bool, true, false, Option, none, some, List, [], ◌∷◌, leb, if◌then◌else◌, Result, ok, err,
  ◌>>=◌,
}
use yams.Core.Text.{Text, characters}
use yams.Core.Text.Order.{text_eq}
use yams.Protocol.Json.{
  Json, boolean, number, text, array, object, Items, nil, item, Entries, closed, broken, entry,
}

-- What `serde_json::Error` says: one of the two sentinels, or anything else.
pub data JsonError : Type 0 where
  duplicate_sentinel unknown_sentinel other_error : JsonError

abbrev pub is_some : {A : Type 0} → Option A → Bool
is_some none = false
is_some (some a) = true

-- `next_value` at the types of the fields
abbrev pub as_u8 : Json → Result JsonError ℕ
as_u8 (number n) = if leb n 255 then ok n else err other_error
as_u8 _ = err other_error

abbrev pub as_string : Json → Result JsonError Text
as_string (text t) = ok t
as_string _ = err other_error

abbrev pub as_bool : Json → Result JsonError Bool
as_bool (boolean b) = ok b
as_bool _ = err other_error

unfoldable pub strings_of : Items → Result JsonError (List Text)
strings_of nil = ok []
strings_of (item value rest) = do t ← as_string value; ts ← strings_of rest; ok (t ∷ ts)

abbrev pub as_strings : Json → Result JsonError (List Text)
as_strings (array items) = strings_of items
as_strings _ = err other_error

-- `read_once!`
abbrev pub read_once : {A : Type 0} → Option A → Result JsonError A → Result JsonError (Option A)
read_once (some a) next_value = err duplicate_sentinel
read_once none (err e) = err e
read_once none (ok a) = ok (some a)

pub record RawOperation : Type 0 where
  pub kind : Option Text
  pub query : Option Text
  pub k : Option Text
  pub json : Option Bool
  pub full : Option Bool
  pub no_gate : Option Bool
  pub explain : Option Bool
  pub min_score : Option Text
  pub max_gap : Option Text
  pub project : Option Text

abbrev pub raw_operation : RawOperation
raw_operation = record {
  kind = none;
  query = none;
  k = none;
  json = none;
  full = none;
  no_gate = none;
  explain = none;
  min_score = none;
  max_gap = none;
  project = none;
}

-- One round of `visit_map`.
unfoldable pub put_operation : RawOperation → Text → Json → Result JsonError RawOperation
unfolding text_eq
put_operation raw key value =
    if text_eq key (characters "kind")
    then (do v ← read_once raw.kind (as_string value); ok (record raw { kind = v }))
    else if text_eq key (characters "query")
    then (do v ← read_once raw.query (as_string value); ok (record raw { query = v }))
    else if text_eq key (characters "k")
    then (do v ← read_once raw.k (as_string value); ok (record raw { k = v }))
    else if text_eq key (characters "json")
    then (do v ← read_once raw.json (as_bool value); ok (record raw { json = v }))
    else if text_eq key (characters "full")
    then (do v ← read_once raw.full (as_bool value); ok (record raw { full = v }))
    else if text_eq key (characters "no_gate")
    then (do v ← read_once raw.no_gate (as_bool value); ok (record raw { no_gate = v }))
    else if text_eq key (characters "explain")
    then (do v ← read_once raw.explain (as_bool value); ok (record raw { explain = v }))
    else if text_eq key (characters "min_score")
    then (do v ← read_once raw.min_score (as_string value); ok (record raw { min_score = v }))
    else if text_eq key (characters "max_gap")
    then (do v ← read_once raw.max_gap (as_string value); ok (record raw { max_gap = v }))
    else if text_eq key (characters "project")
    then (do v ← read_once raw.project (as_string value); ok (record raw { project = v }))
    else err unknown_sentinel

unfoldable pub operation_loop : RawOperation → Entries → Result JsonError RawOperation
unfolding put_operation
operation_loop raw closed = ok raw
operation_loop raw broken = err other_error
operation_loop raw (entry key value rest) = do
  next ← put_operation raw key value
  operation_loop next rest

abbrev pub as_operation : Json → Result JsonError RawOperation
unfolding operation_loop
as_operation (object entries) = operation_loop raw_operation entries
as_operation _ = err other_error

pub record RawMessage : Type 0 where
  pub version : Option ℕ
  pub message_type : Option Text
  pub argv : Option (List Text)
  pub cwd : Option Text
  pub operation : Option RawOperation
  pub request_id : Option Text
  pub exit_code : Option ℕ
  pub stdout : Option Text
  pub stderr : Option Text
  pub code : Option Text
  pub message : Option Text

abbrev pub raw_message : RawMessage
raw_message = record {
  version = none;
  message_type = none;
  argv = none;
  cwd = none;
  operation = none;
  request_id = none;
  exit_code = none;
  stdout = none;
  stderr = none;
  code = none;
  message = none;
}

-- One round of `visit_map`.
unfoldable pub put_message : RawMessage → Text → Json → Result JsonError RawMessage
unfolding text_eq
put_message raw key value =
    if text_eq key (characters "version")
    then (do v ← read_once raw.version (as_u8 value); ok (record raw { version = v }))
    else if text_eq key (characters "type")
    then (do v ← read_once raw.message_type (as_string value); ok (record raw { message_type = v }))
    else if text_eq key (characters "argv")
    then (do v ← read_once raw.argv (as_strings value); ok (record raw { argv = v }))
    else if text_eq key (characters "cwd")
    then (do v ← read_once raw.cwd (as_string value); ok (record raw { cwd = v }))
    else if text_eq key (characters "operation")
    then (do v ← read_once raw.operation (as_operation value); ok (record raw { operation = v }))
    else if text_eq key (characters "request_id")
    then (do v ← read_once raw.request_id (as_string value); ok (record raw { request_id = v }))
    else if text_eq key (characters "exit_code")
    then (do v ← read_once raw.exit_code (as_u8 value); ok (record raw { exit_code = v }))
    else if text_eq key (characters "stdout")
    then (do v ← read_once raw.stdout (as_string value); ok (record raw { stdout = v }))
    else if text_eq key (characters "stderr")
    then (do v ← read_once raw.stderr (as_string value); ok (record raw { stderr = v }))
    else if text_eq key (characters "code")
    then (do v ← read_once raw.code (as_string value); ok (record raw { code = v }))
    else if text_eq key (characters "message")
    then (do v ← read_once raw.message (as_string value); ok (record raw { message = v }))
    else err unknown_sentinel

unfoldable pub message_loop : RawMessage → Entries → Result JsonError RawMessage
unfolding put_message
message_loop raw closed = ok raw
message_loop raw broken = err other_error
message_loop raw (entry key value rest) = do
  next ← put_message raw key value
  message_loop next rest

abbrev pub as_message : Json → Result JsonError RawMessage
unfolding message_loop
as_message (object entries) = message_loop raw_message entries
as_message _ = err other_error
