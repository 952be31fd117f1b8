-- ===== src/Wiki/Schema/Trip.antt =====
-- A page that `render_create` of crates/yams-wiki/src/schema.rs returns, parsed again.
pub mod Values
pub mod Block
pub mod Checked
pub mod Rendered
use yams.Prelude.{
  ℕ, ◌≡◌, refl, sym, ap, ◌∙◌, Bool, true, false, not, ◌||◌, Option, none, some, List, [], ◌∷◌, ◌++◌,
  arith, All, Result, ok, err, ◌>>◌, ◌>>=◌, refuse_if, refuse_not, Steps, >>=-Steps, ok-injective,
  ok_unique, any,
}
use yams.Core.Text.{Text, characters, is_whitespace, trim}
use yams.Core.Text.Order.{text_eq}
use yams.Core.Text.Maps.{lookup}
use yams.Wiki.Schema.{
  PageType, gotcha, pattern_page, project_state, feature, workflow, decision, Owner, claude, codex,
  shared, Status, current, CreateRequest, SchemaError, type_text, owner_text, status_text,
}
use yams.Wiki.Schema.Slug.{slugify}
use yams.Wiki.Schema.Slug.Slugged.{Slugs, slugify-Slugs, IsSlug}
use yams.Wiki.Schema.Scalar.{require_nonempty, validate_frontmatter_scalar}
use yams.Wiki.Schema.Lines.{IsLine, IsLine-append}
use yams.Wiki.Schema.Page.{
  Fields, field, strict_unquote, is_iso_date, parse_type, parse_owner, parse_status,
  parse_frontmatter_fields, page_of_fields, ParsedWikiPage, parse_wiki_page,
}
use yams.Wiki.Schema.Page.Parsed.{Parsed, page_of_fields-Parsed}
use yams.Wiki.Schema.Render.{
  CommonRequest, of_create, body_text, render_page, related_loop, Outside, validate_today,
  ensure_rendered_page, validate_common, render_create, refuse_citation, folded,
  first_line_reference,
}
use yams.Wiki.Schema.Trip.Values.{
  is_odd, IsPlain, plain_value, trim_space, IsPlain-IsLine, scalar-IsLine, hyphenated-IsPlain,
  is_iso_date-IsPlain,
}
use yams.Wiki.Schema.Trip.Block.{
  taken, block_lines, canonical_fields, with_lines, parse_frontmatter_fields-block,
}
use yams.Wiki.Schema.Trip.Rendered.{Kept, Fit, render_page-Kept}
use yams.Wiki.Schema.Trip.Checked.{
  Valid, validate_common-Valid, slugify-IsPlain, ensure_rendered_page-parse,
  validate_today-is_iso_date,
}

-- A new page and its parse.
pub record Created (o : Outside) (request : CreateRequest) (today page : Text) : Type 0 where
  pub slug : Text
  pub slugged : slugify (folded o) request.title ≡ ok slug
  pub wiki : ParsedWikiPage
  pub parses : parse_wiki_page o.is_decimal o.is_link page ≡ ok wiki
  pub kept : Kept (of_create request) slug request.owner current today today wiki

-- The run of `render_create`.
record Run (o : Outside) (request : CreateRequest) (today page : Text) : Type 0 where
  slug : Text
  wiki : ParsedWikiPage
  dated : is_iso_date o.is_decimal today ≡ true
  checked : validate_common o (of_create request) ≡ ok slug
  rendered : render_page (of_create request) slug request.owner current today today ≡ page
  parses :
      parse_wiki_page o.is_decimal o.is_link
        (render_page (of_create request) slug request.owner current today today)
      ≡ ok wiki

module _ (o : Outside) where
  render_create-Run :
      (request : CreateRequest) (today page : Text)
      → render_create o request today ≡ ok page
      → Run o request today page
  unfolding render_create
  render_create-Run request today page h =
      let dated = >>=-Steps (validate_today o today) _ h in
      let common = >>=-Steps (validate_common o (of_create request)) _ dated.next_ok in
      let made : Text =
        render_page (of_create request) common.value request.owner current today today in
      let ensured = >>=-Steps (ensure_rendered_page o made) _ common.next_ok in
      let same : made ≡ page = ok-injective ensured.next_ok in
      let (wiki, parses) = ensure_rendered_page-parse o made ensured.first_ok in
      record {
        slug = common.value;
        wiki = wiki;
        dated = validate_today-is_iso_date o today dated.first_ok;
        checked = common.first_ok;
        rendered = same;
        parses = parses;
      }

abbrev pub PlainDigits : (ℕ → Bool) → Type 0
PlainDigits is_decimal = (c : ℕ) → is_decimal c ≡ true → is_odd c ≡ false

module _ (o : Outside) (plain_digits : PlainDigits o.is_decimal) where
  -- A page that `render_create` returns, for a request and a date it accepts, is one that
  -- `parse_wiki_page` accepts, when no decimal number of Unicode is white space, a line boundary or a
  -- quote. The parsed page has the slug that `slugify` makes of the title, the request's type and
  -- owner, the status `current`, the date given for both `updated` and `verified`, and the request's
  -- title and summary trimmed and without a pair of quotes around them.
  pub render_create-Created :
      (request : CreateRequest) (today page : Text)
      → render_create o request today ≡ ok page
      → Created o request today page
  render_create-Created request today page h =
      let run : Run o request today page = render_create-Run o request today page h in
      let valid = validate_common-Valid o (of_create request) run.slug run.checked in
      let plain = is_iso_date-IsPlain o.is_decimal plain_digits today run.dated in
      let fit : Fit (of_create request) run.slug today today = record {
        slug_plain = slugify-IsPlain (folded o) request.title run.slug valid.slugged;
        title_line = valid.title_line;
        updated_plain = plain;
        verified_plain = plain;
        summary_line = valid.summary_line;
      } in
      record {
        slug = run.slug;
        slugged = valid.slugged;
        wiki = run.wiki;
        parses = sym (ap (parse_wiki_page o.is_decimal o.is_link) run.rendered) ∙ run.parses;
        kept =
            render_page-Kept (of_create request) run.slug request.owner current today today
              o.is_decimal o.is_link run.wiki fit run.parses;
      }
