-- ===== src/Cli/Client.antt =====
-- `service_operation` and `request_argv` of crates/yams-cli/src/client.rs, which put a
-- `DirectRequest` of args.rs on the wire. A float and a path are of a type with their
-- `to_string` and `to_str`.
pub mod Argv
mod Tests
use yams.Prelude.{
  ℕ, Bool, true, false, Option, none, some, List, [], ◌∷◌, ◌++◌, ◌==◌, if◌then◌else◌,
}
use yams.Prelude.Options.{◌>>=◌, map_some}
use yams.Core.Text.{Text, characters}
use yams.Core.Text.Decimal.{decimal}
use yams.Protocol.Message.{OperationKind, ServiceOperation}

pub data DirectOperation : Type 0 where
  search all write index stats projects gc : DirectOperation

pub record DirectRequest (F Filename : Type 0) : Type 0 where
  pub operation : DirectOperation
  pub project : Option Filename
  pub query : Option Text
  pub k : ℕ
  pub requested_k : Text
  pub json : Bool
  pub full : Bool
  pub no_gate : Bool
  pub explain : Bool
  pub min_score : Option F
  pub max_gap : Option F

abbrev pub service_kind : DirectOperation → Option OperationKind
service_kind search = some OperationKind.search
service_kind all = some OperationKind.all
service_kind index = some OperationKind.index
service_kind stats = some OperationKind.stats
service_kind projects = some OperationKind.projects
service_kind gc = some OperationKind.gc
service_kind write = none

-- `push` of an option, if it is set.
abbrev pub push_if : Bool → Text → List Text
push_if true name = name ∷ []
push_if false name = []

-- `extend` by an option and its value, if there is one.
abbrev pub extend_if : Text → Option Text → List Text
extend_if name none = []
extend_if name (some value) = name ∷ value ∷ []

abbrev pub operation_option : DirectOperation → Option (List Text)
operation_option search = some []
operation_option all = some (characters "--all" ∷ [])
operation_option write = none
operation_option index = some (characters "--index" ∷ [])
operation_option stats = some (characters "--stats" ∷ [])
operation_option projects = some (characters "--projects" ∷ [])
operation_option gc = some (characters "--gc" ∷ [])

abbrev pub k_option : ℕ → Text → List Text
k_option k requested_k = if k == 5 then [] else characters "-k" ∷ requested_k ∷ []

-- `to_str()?` of a path that may be missing
abbrev pub path_text :
    {Filename : Type 0} → (Filename → Option Text) → Option Filename → Option (Option Text)
path_text to_str none = some none
path_text to_str (some path) = map_some some (to_str path)

abbrev pub unwrap_or_default : Option Text → Text
unwrap_or_default none = []
unwrap_or_default (some text) = text

abbrev pub query_arguments : Option Text → List Text
query_arguments none = []
query_arguments (some query) = characters "--" ∷ query ∷ []

module _ {F Filename : Type 0} (to_string : F → Text) (to_str : Filename → Option Text) where
  unfoldable pub service_operation : DirectRequest F Filename → Option ServiceOperation
  service_operation request = do
    kind ← service_kind request.operation
    project ← path_text to_str request.project
    some (record {
      kind = kind;
      query = unwrap_or_default request.query;
      k = decimal request.k;
      json = request.json;
      full = request.full;
      no_gate = request.no_gate;
      explain = request.explain;
      min_score = map_some to_string request.min_score;
      max_gap = map_some to_string request.max_gap;
      project = project;
    })

  -- What `request_argv` pushes behind the operation, if the project's path is `project`.
  abbrev pub pushed_arguments : DirectRequest F Filename → Option Text → List Text
  pushed_arguments request project =
      push_if request.json (characters "--json")
      ++ (push_if request.full (characters "--full")
          ++ (push_if request.no_gate (characters "--no-gate")
              ++ (push_if request.explain (characters "--explain")
                  ++ (k_option request.k request.requested_k
                      ++ (extend_if (characters "--min-score")
                            (map_some to_string request.min_score)
                          ++ (extend_if (characters "--max-gap")
                                (map_some to_string request.max_gap)
                              ++ (extend_if (characters "--project") project
                                  ++ query_arguments request.query)))))))

  unfoldable pub request_argv : DirectRequest F Filename → Option (List Text)
  request_argv request = do
    operation ← operation_option request.operation
    project ← path_text to_str request.project
    some (operation ++ pushed_arguments request project)
