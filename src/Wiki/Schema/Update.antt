-- ===== src/Wiki/Schema/Update.antt =====
-- `render_update` and what it calls of crates/yams-wiki/src/schema.rs.
pub mod StoredLines
pub mod Body
pub mod Dates
pub mod StoredPage
pub mod Changes
pub mod Runs
pub mod Renders
use yams.Prelude.{
  ℕ, Bool, true, false, not, ◌&&◌, ◌||◌, Option, none, some, List, [], ◌∷◌, ◌++◌, ◌==◌,
  if◌then◌else◌, is_empty, Result, ok, err, ◌>>◌, ◌>>=◌, refuse_if,
}
use yams.Core.Text.{Text, characters, lf, cr, onto_first, concat}
use yams.Core.Text.Order.{text_eq, text_le, starts_with}
use yams.Wiki.Schema.{
  Owner, Status, SchemaError, UpdateRequest, not_an_update, bad_sha256, renames, page_changed,
  wrong_target, bad_updated,
}
use yams.Wiki.Schema.Scalar.{require_nonempty}
use yams.Wiki.Schema.Lines.{is_splitlines_boundary}
use yams.Wiki.Schema.Page.{
  Fields, canonical_keys, field, strip_bom, is_page_fence, parse_frontmatter_fields,
  required_page_field, validate_page_slug, parse_owner, parse_status, is_iso_date,
}
use yams.Wiki.Schema.Render.{
  of_update, render_page, expects_sha256, Outside, validate_today, ensure_rendered_page,
  validate_common,
}

-- `RenderedUpdate`
pub record RenderedUpdate : Type 0 where
  pub page : Text
  pub content_changed : Bool

-- What stands behind the separator `c`.
abbrev pub behind : ℕ → Text → Text
behind c [] = []
behind c (d ∷ ds) = if c == cr && d == lf then ds else d ∷ ds

-- What stands behind the first fence that is not the first line; `line` has been read of this line.
unfoldable pub body_loop : Bool → Bool → Text → Text → Option Text
unfolding is_page_fence
body_loop first after_cr line [] = if not first && is_page_fence line then some [] else none
body_loop first after_cr line (c ∷ cs) =
    let passed = body_loop first false line cs in
    let ended = body_loop false (c == cr) [] cs in
    let further = body_loop first false (line ++ (c ∷ [])) cs in
    if after_cr && c == lf
    then passed
    else if is_splitlines_boundary c
    then (if not first && is_page_fence line then some (behind c cs) else ended)
    else further

abbrev pub canonical_block : List Text → Fields → Text → Text
canonical_block [] fields rest = rest
canonical_block (key ∷ keys) fields rest =
    key ++ (characters ": " ++ (field key fields ++ (lf ∷ canonical_block keys fields rest)))

abbrev pub with_body : Text → Fields → Option Text → Text
with_body source fields none = source
with_body source fields (some body) =
    characters "---\n" ++ canonical_block canonical_keys fields (characters "---\n" ++ body)

unfoldable pub recanonicalize_frontmatter : Text → Fields → Text
unfolding body_loop
recanonicalize_frontmatter source fields =
    with_body (strip_bom source) fields (body_loop true false [] (strip_bom source))

-- `str::split_inclusive` at line feeds
unfoldable pub split_inclusive : Text → List Text
unfolding onto_first
split_inclusive [] = []
split_inclusive (c ∷ cs) =
    let rest = split_inclusive cs in if c == lf then (c ∷ []) ∷ rest else onto_first c rest

-- `strip_suffix` of a line feed
abbrev pub strip_lf : Text → Text
strip_lf [] = []
strip_lf (c ∷ []) = if c == lf then [] else c ∷ []
strip_lf (c ∷ d ∷ cs) = c ∷ strip_lf (d ∷ cs)

-- The two flags of `without_dates`.
pub record Seen : Type 0 where
  pub frontmatter : Bool
  pub closed : Bool

unfoldable pub keeps_line : Seen → Text → Bool × Seen
unfolding is_page_fence starts_with
keeps_line seen content =
    if not seen.frontmatter && is_page_fence content
    then (true, record seen { frontmatter = true })
    else if (seen.frontmatter && not seen.closed) && is_page_fence content
    then (true, record seen { closed = true })
    else (
      not (
          (seen.frontmatter && not seen.closed)
          && (starts_with content (characters "updated:")
              || starts_with content (characters "verified:"))),
      seen,
    )

unfoldable pub dates_loop : Seen → List Text → List Text
unfolding keeps_line
dates_loop seen [] = []
dates_loop seen (line ∷ lines) =
    let step = keeps_line seen (strip_lf line) in
    let rest = dates_loop step.1 lines in if step.0 then line ∷ rest else rest

unfoldable pub without_dates : Text → Text
unfolding split_inclusive dates_loop concat
without_dates source =
    concat (dates_loop (record { frontmatter = false; closed = false }) (split_inclusive source))

abbrev pub refuse_changed : Option Text → Text → Result SchemaError (Unit {0})
refuse_changed none actual = ok tt
refuse_changed (some expected) actual = refuse_if (not (text_eq actual expected)) page_changed

module _ (o : Outside) where
  unfoldable pub validate_update : UpdateRequest → Result SchemaError Text
  unfolding require_nonempty validate_common
  validate_update request = do
    aimed ← require_nonempty (characters "target") request.target
    updating ← refuse_if (not request.update) not_an_update
    digest ← refuse_if (not (expects_sha256 request.expected_sha256)) bad_sha256
    slug ← validate_common o (of_update request)
    on_target ← refuse_if (not (text_eq slug request.target)) renames
    ok slug

  -- The candidate, or the page with a new date if the content has changed.
  abbrev pub updated_page : UpdateRequest → Text → Owner → Status → Text → Text → Bool → Text
  updated_page request slug owner status updated today content_changed =
      if content_changed
      then render_page (of_update request) slug owner status today today
      else render_page (of_update request) slug owner status updated today

  unfoldable pub content_changes :
      UpdateRequest → Text → Fields → Text → Owner → Status → Text → Text → Bool
  unfolding recanonicalize_frontmatter without_dates render_page text_eq
  content_changes request stored_page stored slug owner status updated today = not (
      text_eq (without_dates (render_page (of_update request) slug owner status updated today))
        (without_dates (recanonicalize_frontmatter stored_page stored)))

  unfoldable pub render_update : UpdateRequest → Text → Text → Result SchemaError RenderedUpdate
  unfolding validate_today validate_update parse_frontmatter_fields required_page_field
      validate_page_slug is_iso_date content_changes ensure_rendered_page
  render_update request stored_page today = do
    dated ← validate_today o today
    valid ← validate_update request
    unchanged ← refuse_changed request.expected_sha256 (o.sha256_hex stored_page)
    stored ← parse_frontmatter_fields stored_page
    slug ← required_page_field stored (characters "slug")
    shaped ← validate_page_slug slug
    on_target ← refuse_if (not (text_eq slug request.target)) (wrong_target slug)
    owner ← parse_owner (field (characters "owner") stored)
    status ← parse_status (field (characters "status") stored)
    let updated = field (characters "updated") stored
    past ←
        refuse_if (not (is_iso_date o.is_decimal updated) || not (text_le updated today))
          (bad_updated updated)
    let content_changed = content_changes request stored_page stored slug owner status updated today
    let page = updated_page request slug owner status updated today content_changed
    ensured ← ensure_rendered_page o page
    ok (record { page = page; content_changed = content_changed })
