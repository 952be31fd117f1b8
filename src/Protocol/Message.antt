-- ===== src/Protocol/Message.antt =====
-- crates/yams-protocol/src/message.rs: the operations and messages of the protocol, and the
-- operation that an argument vector names. Texts are lists of bytes here.
use yams.Prelude.{ℕ, ◌*◌, Bool, true, false, Option, none, some, List, [], ◌∷◌, if◌then◌else◌, any}
use yams.Core.Text.{Text, characters}
use yams.Core.Text.Order.{text_eq, starts_with}

abbrev pub protocol_version : ℕ
protocol_version = 4

abbrev pub max_request_bytes : ℕ
max_request_bytes = 64 * 1024

abbrev pub max_response_bytes : ℕ
max_response_bytes = 8 * 1024 * 1024

abbrev pub max_arguments : ℕ
max_arguments = 256

abbrev pub max_argument_bytes : ℕ
max_argument_bytes = 16 * 1024

pub data OperationKind : Type 0 where
  search all index stats projects gc : OperationKind

pub record ServiceOperation : Type 0 where
  pub kind : OperationKind
  pub query : Text
  pub k : Text
  pub json : Bool
  pub full : Bool
  pub no_gate : Bool
  pub explain : Bool
  pub min_score : Option Text
  pub max_gap : Option Text
  pub project : Option Text

-- `OperationKind::as_str`
abbrev pub as_str : OperationKind → Text
as_str search = characters "search"
as_str all = characters "all"
as_str index = characters "index"
as_str stats = characters "stats"
as_str projects = characters "projects"
as_str gc = characters "gc"

-- `OperationKind::parse`
unfoldable pub parse_kind : Text → Option OperationKind
unfolding text_eq
parse_kind value =
    if text_eq value (characters "search")
    then some search
    else if text_eq value (characters "all")
    then some all
    else if text_eq value (characters "index")
    then some index
    else if text_eq value (characters "stats")
    then some stats
    else if text_eq value (characters "projects")
    then some projects
    else if text_eq value (characters "gc")
    then some gc
    else none

-- The options of an argument vector that take a value.
pub data Valued : Type 0 where
  k_value min_score_value max_gap_value project_value : Valued

-- What the loop of `from_argv` is at: an option, the value of one, or the text behind `--`.
pub data Mode : Type 0 where
  at_option : Mode
  at_value : Valued → Mode
  after_separator : Mode

abbrev pub set_value : Valued → Text → ServiceOperation → ServiceOperation
set_value k_value value op = record op { k = value }
set_value min_score_value value op = record op { min_score = some value }
set_value max_gap_value value op = record op { max_gap = some value }
set_value project_value value op = record op { project = some value }

-- `argv.get(index)` behind the last argument: the value is unset, but for `-k`.
abbrev pub end_mode : Mode → ServiceOperation → ServiceOperation
end_mode (at_value min_score_value) op = record op { min_score = none }
end_mode (at_value max_gap_value) op = record op { max_gap = none }
end_mode (at_value project_value) op = record op { project = none }
end_mode _ op = op

-- The arms of the `match` on one argument.
unfoldable pub read_option : Text → ServiceOperation → Mode × ServiceOperation
unfolding text_eq starts_with
read_option argument op =
    if text_eq argument (characters "--")
    then (after_separator, op)
    else if text_eq argument (characters "--all")
    then (at_option, record op { kind = all })
    else if text_eq argument (characters "--index")
    then (at_option, record op { kind = index })
    else if text_eq argument (characters "--stats")
    then (at_option, record op { kind = stats })
    else if text_eq argument (characters "--projects")
    then (at_option, record op { kind = projects })
    else if text_eq argument (characters "--gc")
    then (at_option, record op { kind = gc })
    else if text_eq argument (characters "--json")
    then (at_option, record op { json = true })
    else if text_eq argument (characters "--full")
    then (at_option, record op { full = true })
    else if text_eq argument (characters "--no-gate")
    then (at_option, record op { no_gate = true })
    else if text_eq argument (characters "--explain")
    then (at_option, record op { explain = true })
    else if text_eq argument (characters "-k")
    then (at_value k_value, op)
    else if text_eq argument (characters "--min-score")
    then (at_value min_score_value, op)
    else if text_eq argument (characters "--max-gap")
    then (at_value max_gap_value, op)
    else if text_eq argument (characters "--project")
    then (at_value project_value, op)
    else if starts_with argument (characters "-")
    then (at_option, op)
    else (at_option, record op { query = argument })

unfoldable pub read_argument : Mode → Text → ServiceOperation → Mode × ServiceOperation
unfolding read_option
read_argument at_option argument op = read_option argument op
read_argument (at_value flag) argument op = (at_option, set_value flag argument op)
read_argument after_separator argument op = (after_separator, record op { query = argument })

unfoldable pub argv_loop : Mode → ServiceOperation → List Text → ServiceOperation
unfolding read_argument
argv_loop mode op [] = end_mode mode op
argv_loop mode op (argument ∷ rest) =
    let next = read_argument mode argument op in argv_loop next.0 next.1 rest

abbrev pub default_operation : ServiceOperation
default_operation = record {
  kind = search;
  query = [];
  k = characters "5";
  json = false;
  full = false;
  no_gate = false;
  explain = false;
  min_score = none;
  max_gap = none;
  project = none;
}

unfoldable pub is_write : Text → Bool
unfolding text_eq
is_write argument = text_eq argument (characters "--write")

-- `ServiceOperation::from_argv`
unfoldable pub operation_from_argv : List Text → Option ServiceOperation
unfolding argv_loop is_write
operation_from_argv argv =
    if any is_write argv then none else some (argv_loop at_option default_operation argv)

pub record Request : Type 0 where
  pub operation : ServiceOperation
  pub argv : List Text
  pub cwd : Text

-- `Request::from_argv`
unfoldable pub request_from_argv : List Text → Text → Option Request
unfolding operation_from_argv
request_from_argv argv cwd = elim (operation_from_argv argv) [
  | none ↦ none
  | some operation ↦ some (record { operation = operation; argv = argv; cwd = cwd })
]

pub record Completed : Type 0 where
  pub request_id : Text
  pub exit_code : ℕ
  pub stdout : Text
  pub stderr : Text

pub data Message : Type 0 where
  request : Request → Message
  accepted : Text → Message
  completed : Completed → Message
  -- the code and the detail
  rejected : Text → Text → Message
