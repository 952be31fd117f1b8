-- ===== src/Wiki/Schema.antt =====
-- crates/yams-wiki/src/schema.rs: the types, requests and refusals of wiki pages. Text is a list of
-- characters. A refusal is named by what its message says.
pub mod Slug
pub mod Scalar
pub mod Lines
pub mod Page
pub mod Render
pub mod Trip
pub mod Update
mod Tests
use yams.Prelude.{ℕ, Bool, Option, none, some, List, [], ◌∷◌, if◌then◌else◌}
use yams.Core.Text.{Text, characters}
use yams.Core.Text.Order.{text_eq}

pub data PageType : Type 0 where
  gotcha pattern_page project_state feature workflow decision : PageType

pub data Owner : Type 0 where
  claude codex shared : Owner

pub data Status : Type 0 where
  current historical in_progress : Status

-- What `scalar_problem` says.
pub data ScalarProblem : Type 0 where
  scalar_empty : ScalarProblem
  line_boundary control_character : ℕ → ScalarProblem
  comment_delimiter link_shaped : ScalarProblem

pub data SchemaError : Type 0 where
  empty_slug unreachable_slug : SchemaError
  no_frontmatter : SchemaError
  unknown_key duplicate_key missing_field : Text → SchemaError
  non_slug long_slug : Text → SchemaError
  bad_type bad_status bad_owner : Text → SchemaError
  bad_updated bad_verified bad_today : Text → SchemaError
  verified_before_updated : Text → Text → SchemaError
  required : Text → SchemaError
  scalar_refused : Text → ScalarProblem → SchemaError
  only_quotes : Text → SchemaError
  code_fence : Text → Text → SchemaError
  related_long related_bad : Text → SchemaError
  related_itself : SchemaError
  cites : Text → SchemaError
  parsers_disagree extra_fields : SchemaError
  not_an_update bad_sha256 renames : SchemaError
  page_changed : SchemaError
  wrong_target : Text → SchemaError

pub record CreateRequest : Type 0 where
  pub title : Text
  pub page_type : PageType
  pub owner : Owner
  pub fact : Text
  pub why : Text
  pub how_to_apply : Text
  pub falsified_by : Text
  pub summary : Text
  pub related : List Text

pub record UpdateRequest : Type 0 where
  pub title : Text
  pub page_type : PageType
  pub fact : Text
  pub why : Text
  pub how_to_apply : Text
  pub falsified_by : Text
  pub summary : Text
  pub related : List Text
  pub update : Bool
  pub target : Text
  pub expected_sha256 : Option Text

-- `PageType::as_str`
abbrev pub type_text : PageType → Text
type_text gotcha = characters "gotcha"
type_text pattern_page = characters "pattern"
type_text project_state = characters "project-state"
type_text feature = characters "feature"
type_text workflow = characters "workflow"
type_text decision = characters "decision"

-- `Owner::as_str`
abbrev pub owner_text : Owner → Text
owner_text claude = characters "claude"
owner_text codex = characters "codex"
owner_text shared = characters "shared"

-- `Status::as_str`
abbrev pub status_text : Status → Text
status_text current = characters "current"
status_text historical = characters "historical"
status_text in_progress = characters "in-progress"

-- The value spelled by the text, among those listed.
abbrev pub spelled : {A : Type 0} → (A → Text) → List A → Text → Option A
spelled as_str [] value = none
spelled as_str (a ∷ all) value =
    let rest = spelled as_str all value in if text_eq value (as_str a) then some a else rest

abbrev pub page_types : List PageType
page_types = gotcha ∷ pattern_page ∷ project_state ∷ feature ∷ workflow ∷ decision ∷ []

abbrev pub owners : List Owner
owners = claude ∷ codex ∷ shared ∷ []

abbrev pub statuses : List Status
statuses = current ∷ historical ∷ in_progress ∷ []
