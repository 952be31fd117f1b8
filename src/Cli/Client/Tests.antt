-- ===== src/Cli/Client/Tests.antt =====
-- Runs of crates/yams-cli/src/client.rs.
use yams.Prelude.{ℕ, ◌≡◌, refl, true, false, none, some, List, [], ◌∷◌, if◌then◌else◌, any}
use yams.Core.Text.{Text, characters}
use yams.Core.Text.Decimal.{decimal}
use yams.Protocol.Message.{default_operation, is_write, operation_from_argv}
use yams.Cli.Client.{DirectOperation, DirectRequest, service_operation, request_argv}
use yams.Cli.Client.Argv.{operation_from_argv-request_argv}

abbrev asked : DirectRequest ℕ Text
asked = record {
  operation = DirectOperation.all;
  project = some (characters "/p");
  query = some (characters "--index");
  k = 12;
  requested_k = characters "12";
  json = true;
  full = false;
  no_gate = false;
  explain = true;
  min_score = some 7;
  max_gap = none;
}

abbrev argv : List Text
argv =
    characters "--all"
    ∷ characters "--json"
    ∷ characters "--explain"
    ∷ characters "-k"
    ∷ characters "12"
    ∷ characters "--min-score"
    ∷ characters "7"
    ∷ characters "--project"
    ∷ characters "/p"
    ∷ characters "--"
    ∷ characters "--index"
    ∷ []

asked_argv : request_argv decimal some asked ≡ some argv
unfolding request_argv decimal
asked_argv = refl

-- Behind the separator an option is a query; in front of it an unknown one is skipped.
unknown_skipped :
    operation_from_argv (characters "--verbose" ∷ characters "--" ∷ characters "--gc" ∷ [])
    ≡ some (record default_operation { query = characters "--gc" })
unfolding operation_from_argv
unknown_skipped = refl

operation_from_argv-request_argv_example :
    operation_from_argv argv
    ≡ (if any is_write argv then none else service_operation decimal some asked)
operation_from_argv-request_argv_example =
    operation_from_argv-request_argv decimal some asked argv (unfold decimal in refl) asked_argv
