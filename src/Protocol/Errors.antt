-- ===== src/Protocol/Errors.antt =====
-- The failures of crates/yams-protocol/src/json.rs, with the error kinds of `std::io` that the
-- protocol code tells apart.
use yams.Prelude.{ℕ}

-- `io::ErrorKind`, as far as frame.rs distinguishes its values; `other` is any further kind.
pub data ErrorKind : Type 0 where
  interrupted would_block timed_out write_zero : ErrorKind
  other : ℕ → ErrorKind

pub data ProtocolError : Type 0 where
  invalid_utf8 invalid_json message_must_be_object : ProtocolError
  duplicate_field unknown_field fields_do_not_match : ProtocolError
  unsupported_version invalid_request_type unknown_response_type : ProtocolError
  cwd_not_absolute empty_request_id empty_rejection_code : ProtocolError
  too_many_arguments argument_too_large : ProtocolError
  frame_too_large : ℕ → ℕ → ProtocolError
  truncated_frame frame_deadline_exceeded : ProtocolError
  response_deadline_after_request_delivery : ProtocolError
  frame_already_complete frame_input_too_long : ProtocolError
  io : ErrorKind → ProtocolError
