-- ===== src/Protocol/Json/Valid.antt =====
-- What `decode_request` of crates/yams-protocol/src/json.rs lets through.
use yams.Prelude.{
  ℕ, ◌≤◌, ◌≡◌, ap, Bool, true, false, not, List, [], ◌∷◌, arith, ltb, length, any, All, Result, ok,
  err, ◌>>◌, refuse_if, refuse_if-ok, refuse_not, refuse_over, >>=-Steps, >>-ok,
}
use yams.Core.Text.{Text, characters}
use yams.Core.Text.Utf8.{is_utf8}
use yams.Protocol.Errors.{ProtocolError}
use yams.Protocol.Message.{
  max_request_bytes, max_arguments, max_argument_bytes, parse_kind, ServiceOperation, Request,
  Message, request,
}
use yams.Protocol.Json.{Json}
use yams.Protocol.Json.Raw.{RawOperation, RawMessage}
use yams.Protocol.Json.Encode.{is_absolute, is_long, validate_request}
use yams.Protocol.Json.Decode.{
  required, has_type, has_response_fields, validate_nesting, decode_operation, validate_version,
  request_of, decode_object, decode_request,
}

-- The bounds on a request.
pub record IsValid (r : Request) : Type 0 where
  pub few : length r.argv ≤ max_arguments
  pub short : All (λ argument. length argument ≤ max_argument_bytes) r.argv
  pub absolute : is_absolute r.cwd ≡ true
  pub query_short : length r.operation.query ≤ max_argument_bytes

abbrev query_of : Result ProtocolError ServiceOperation → Text
query_of (ok op) = op.query
query_of (err error) = []

All-is_long :
    (ts : List Text)
    → any is_long ts ≡ false
    → All (λ argument. length argument ≤ max_argument_bytes) ts
All-is_long [] h = tt
All-is_long (t ∷ ts) h = (ground arith, All-is_long ts (ground arith))

validate_request-ok :
    (r : Request)
    → validate_request r ≡ ok tt
    → length r.operation.query ≤ max_argument_bytes
    → IsValid r
unfolding validate_request
validate_request-ok r h query =
    let (few, rest) =
      >>-ok (refuse_if (ltb max_arguments (length r.argv)) _)
        (refuse_if (any is_long r.argv) _ >> refuse_if (not (is_absolute r.cwd)) _) h in
    let (short, absolute) =
      >>-ok (refuse_if (any is_long r.argv) _) (refuse_if (not (is_absolute r.cwd)) _) rest in
    record {
      few = refuse_over max_arguments (length r.argv) _ few;
      short = All-is_long r.argv (refuse_if-ok _ _ short);
      absolute = refuse_not (is_absolute r.cwd) _ absolute;
      query_short = query;
    }

decode_operation-ok :
    (raw : RawOperation) (op : ServiceOperation)
    → decode_operation raw ≡ ok op
    → length op.query ≤ max_argument_bytes
unfolding decode_operation
decode_operation-ok raw op h =
    let kind_text = >>=-Steps (required raw.kind) _ h in
    let query = >>=-Steps (required raw.query) _ kind_text.next_ok in
    let k = >>=-Steps (required raw.k) _ query.next_ok in
    let json = >>=-Steps (required raw.json) _ k.next_ok in
    let full = >>=-Steps (required raw.full) _ json.next_ok in
    let no_gate = >>=-Steps (required raw.no_gate) _ full.next_ok in
    let explain = >>=-Steps (required raw.explain) _ no_gate.next_ok in
    let kind = >>=-Steps (required (parse_kind kind_text.value)) _ explain.next_ok in
    let (fits, made) =
      >>-ok (refuse_if (ltb max_argument_bytes (length query.value)) _) _ kind.next_ok in
    rw (ap query_of made) at (refuse_over max_argument_bytes (length query.value) _ fits)

-- A request made of a message, within its bounds.
record IsMade (m : Message) : Type 0 where
  r : Request
  is_request : m ≡ request r
  valid : IsValid r

request_of-ok : (raw : RawMessage) (m : Message) → request_of raw ≡ ok m → IsMade m
unfolding request_of
request_of-ok raw m h =
    let argv = >>=-Steps (required raw.argv) _ h in
    let cwd = >>=-Steps (required raw.cwd) _ argv.next_ok in
    let operation = >>=-Steps (required raw.operation) _ cwd.next_ok in
    let checked = >>=-Steps (refuse_if (has_response_fields raw) _) _ operation.next_ok in
    let op = >>=-Steps (decode_operation operation.value) _ checked.next_ok in
    let r : Request = record { operation = op.value; argv = argv.value; cwd = cwd.value } in
    let valid = >>=-Steps (validate_request r) _ op.next_ok in
    record {
      r = r;
      is_request = cc;
      valid =
          validate_request-ok r valid.first_ok
            (decode_operation-ok operation.value op.value op.first_ok);
    }

-- A request whose body was admitted.
pub record IsAdmitted (body : List ℕ) (m : Message) : Type 0 where
  pub r : Request
  pub is_request : m ≡ request r
  pub valid : IsValid r
  pub fits : length body ≤ max_request_bytes
  pub utf8 : is_utf8 body ≡ true
  pub nests : validate_nesting body ≡ ok tt

-- Whatever serde_json reads, what `decode_request` returns is a request with at most MAX_ARGUMENTS
-- arguments, none of them nor its query longer than MAX_ARGUMENT_BYTES, and with an absolute
-- directory; its body is at most MAX_REQUEST_BYTES long, UTF-8, and passed `validate_nesting`.
pub decode_request-IsAdmitted :
    (reads : List ℕ → Json × Bool) (body : List ℕ) (m : Message)
    → decode_request reads body ≡ ok m
    → IsAdmitted body m
unfolding decode_request decode_object
decode_request-IsAdmitted reads body m h =
    let raw = >>=-Steps (decode_object reads body max_request_bytes) _ h in
    let version = >>=-Steps (validate_version raw.value) _ raw.next_ok in
    let typed =
      >>=-Steps (refuse_if (not (has_type (characters "request") raw.value)) _) _ version.next_ok in
    let made = request_of-ok raw.value m typed.next_ok in
    let fits = >>=-Steps (refuse_if (ltb max_request_bytes (length body)) _) _ raw.first_ok in
    let utf8 = >>=-Steps (refuse_if (not (is_utf8 body)) _) _ fits.next_ok in
    let nests = >>=-Steps (validate_nesting body) _ utf8.next_ok in
    record {
      r = made.r;
      is_request = made.is_request;
      valid = made.valid;
      fits = refuse_over max_request_bytes (length body) _ fits.first_ok;
      utf8 = refuse_not (is_utf8 body) _ utf8.first_ok;
      nests = nests.first_ok;
    }
