-- ===== src/Wiki/Schema/Update/Renders.antt =====
-- A page that `render_update` of crates/yams-wiki/src/schema.rs returns, parsed again.
use yams.Wiki.Schema.Update.Runs.{Run, render_update-Run}
use yams.Prelude.{◌≡◌, ◌↔◌, refl, sym, ap, ◌∙◌, Bool, true, false, if◌then◌else◌, ok}
use yams.Core.Text.{Text, characters}
use yams.Wiki.Schema.{Owner, Status, UpdateRequest}
use yams.Wiki.Schema.Slug.{slugify}
use yams.Wiki.Schema.Page.{
  Fields, field, ParsedWikiPage, parse_wiki_page, parse_frontmatter_fields, parse_owner,
  parse_status,
}
use yams.Wiki.Schema.Render.{of_update, render_page, Outside, folded}
use yams.Wiki.Schema.Trip.{PlainDigits}
use yams.Wiki.Schema.Trip.Values.{IsPlain, is_iso_date-IsPlain}
use yams.Wiki.Schema.Trip.Rendered.{Kept, Fit, render_page-Kept}
use yams.Wiki.Schema.Trip.Checked.{slugify-IsPlain, ensure_rendered_page-parse}
use yams.Wiki.Schema.{type_text, owner_text, status_text}
use yams.Wiki.Schema.Lines.{IsLine}
use yams.Wiki.Schema.Page.{strip_bom}
use yams.Wiki.Schema.Trip.Values.{IsPlain-IsLine}
use yams.Wiki.Schema.Trip.Rendered.{type_text-IsPlain}
use yams.Wiki.Schema.Update.StoredLines.{field-IsLine}
use yams.Wiki.Schema.Update.Dates.{page_lines-IsLine}
use yams.Wiki.Schema.Update.StoredPage.{Stored, Opened, parse_frontmatter_fields-Opened}
use yams.Wiki.Schema.Update.Changes.{
  SameContent, parse_owner_text, parse_status_text, content_changes_iff,
}
use yams.Wiki.Schema.Update.{RenderedUpdate, render_update}

-- An updated page and its parse.
pub record Updated (o : Outside) (request : UpdateRequest) (stored_page today : Text)
    (rendered : RenderedUpdate) : Type 0 where
  pub stored : Fields
  pub owner : Owner
  pub status : Status
  pub wiki : ParsedWikiPage
  pub stored_parses : parse_frontmatter_fields stored_page ≡ ok stored
  pub slug_stored : field (characters "slug") stored ≡ request.target
  pub owner_stored : parse_owner (field (characters "owner") stored) ≡ ok owner
  pub status_stored : parse_status (field (characters "status") stored) ≡ ok status
  pub slugged : slugify (folded o) request.title ≡ ok request.target
  pub parses : parse_wiki_page o.is_decimal o.is_link rendered.page ≡ ok wiki
  pub page_stored : Stored (strip_bom stored_page)
  pub unchanged : (rendered.content_changed ≡ false) ↔ SameContent request stored page_stored.body
  pub kept :
      Kept
        (of_update request)
        request.target
        owner
        status
        (if rendered.content_changed then today else field (characters "updated") stored)
        today
        wiki

chosen :
    {A : Type 0} (f : Text → A) (b : Bool) (t u : Text)
    → (if b then f t else f u) ≡ f (if b then t else u)
chosen f true t u = refl
chosen f false t u = refl

chosen-IsPlain : (b : Bool) (t u : Text) → IsPlain t → IsPlain u → IsPlain (if b then t else u)
chosen-IsPlain true t u p q = p
chosen-IsPlain false t u p q = q

change_iff :
    (o : Outside) (request : UpdateRequest) (stored_page today : Text) (rendered : RenderedUpdate)
    (run : Run o request stored_page today rendered)
    (opened : Opened (strip_bom stored_page) run.stored)
    → IsPlain today
    → (rendered.content_changed ≡ false) ↔ SameContent request run.stored opened.stored.body
change_iff o request stored_page today rendered run opened today_plain =
    let at : (key : Text) → IsLine (field key run.stored) =
      λ key. field-IsLine key run.stored opened.values in
    let owner_is =
      parse_owner_text (field (characters "owner") run.stored) run.owner run.owner_stored in
    let status_is =
      parse_status_text (field (characters "status") run.stored) run.status run.status_stored in
    let lines =
      page_lines-IsLine request.target request.title (type_text request.page_type)
        (status_text run.status) (owner_text run.owner) (field (characters "updated") run.stored)
        today request.summary (rw run.slug_stored at (at (characters "slug"))) run.valid.title_line
        (IsPlain-IsLine (type_text request.page_type) (type_text-IsPlain request.page_type))
        (rw status_is at (at (characters "status"))) (rw owner_is at (at (characters "owner")))
        (at (characters "updated")) (IsPlain-IsLine today today_plain) run.valid.summary_line in
    let both =
      content_changes_iff o request stored_page run.stored opened.stored.body run.owner run.status
        today lines opened.values opened.found run.slug_stored owner_is status_is in
    ((λ h. both.0 (sym run.change ∙ h)), (λ same. run.change ∙ both.1 same))

module _ (o : Outside) (plain_digits : PlainDigits o.is_decimal) where
  -- If no decimal number of Unicode is white space, a line boundary or a quote, then a page that
  -- `render_update` returns is one that `parse_wiki_page` accepts. The stored page parses, has the
  -- request's target for its slug, and its owner and status are kept; the title still makes the target
  -- for its slug. The parsed page has the request's type, its title and summary trimmed and without a
  -- pair of quotes around them, the date given for `verified`, and for `updated` the date given if the
  -- content has changed and otherwise the one of the stored page. The content has not changed exactly if
  -- the title, type and summary of the stored page, and its body, which is what stands behind the fence
  -- that closes its block, are those of the request.
  pub render_update-Updated :
      (request : UpdateRequest) (stored_page today : Text) (rendered : RenderedUpdate)
      → render_update o request stored_page today ≡ ok rendered
      → Updated o request stored_page today rendered
  render_update-Updated request stored_page today rendered h =
      let run : Run o request stored_page today rendered =
        render_update-Run o request stored_page today rendered h in
      let stored_date : Text = field (characters "updated") run.stored in
      let changed : Bool = rendered.content_changed in
      let updated : Text = if changed then today else stored_date in
      let today_plain = is_iso_date-IsPlain o.is_decimal plain_digits today run.dated in
      let stored_plain =
        is_iso_date-IsPlain o.is_decimal plain_digits stored_date run.updated_dated in
      let fit : Fit (of_update request) request.target updated today = record {
        slug_plain = slugify-IsPlain (folded o) request.title request.target run.valid.slugged;
        title_line = run.valid.title_line;
        updated_plain = chosen-IsPlain changed today stored_date today_plain stored_plain;
        verified_plain = today_plain;
        summary_line = run.valid.summary_line;
      } in
      let opened : Opened (strip_bom stored_page) run.stored =
        parse_frontmatter_fields-Opened stored_page run.stored run.stored_parses in
      let unchanged = change_iff o request stored_page today rendered run opened today_plain in
      let dated_page : Text → Text =
        λ date. render_page (of_update request) request.target run.owner run.status date today in
      let (wiki, parses) = ensure_rendered_page-parse o rendered.page run.page_ok in
      let same : dated_page updated ≡ rendered.page =
        sym (chosen dated_page changed today stored_date) ∙ run.page_is in
      record {
        stored = run.stored;
        owner = run.owner;
        status = run.status;
        wiki = wiki;
        stored_parses = run.stored_parses;
        slug_stored = run.slug_stored;
        owner_stored = run.owner_stored;
        status_stored = run.status_stored;
        slugged = run.valid.slugged;
        parses = parses;
        page_stored = opened.stored;
        unchanged = unchanged;
        kept =
            render_page-Kept (of_update request) request.target run.owner run.status updated today
              o.is_decimal o.is_link wiki fit
              (ap (parse_wiki_page o.is_decimal o.is_link) same ∙ parses);
      }
