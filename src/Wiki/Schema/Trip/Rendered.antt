-- ===== src/Wiki/Schema/Trip/Rendered.antt =====
-- What `parse_wiki_page` of crates/yams-wiki/src/schema.rs reads in a page that `render_page` made.
use yams.Prelude.{ℕ, ◌≡◌, refl, ap, ◌∙◌, Bool, List, All, ok, ok_unique}
use yams.Core.Text.{Text, characters, is_whitespace, trim}
use yams.Core.Text.Order.{text_eq}
use yams.Core.Text.Maps.{lookup}
use yams.Wiki.Schema.{
  PageType, gotcha, pattern_page, project_state, feature, workflow, decision, Owner, claude, codex,
  shared, Status, current, historical, in_progress, type_text, owner_text, status_text,
}
use yams.Wiki.Schema.Lines.{IsLine, IsLine-append}
use yams.Wiki.Schema.Page.{
  Fields, strict_unquote, parse_type, parse_owner, parse_status, parse_frontmatter_fields,
  page_of_fields, ParsedWikiPage, parse_wiki_page,
}
use yams.Wiki.Schema.Page.Parsed.{Parsed, page_of_fields-Parsed}
use yams.Wiki.Schema.Render.{CommonRequest, body_text, render_page}
use yams.Wiki.Schema.Trip.Values.{IsPlain, plain_value, trim_space, IsPlain-IsLine}
use yams.Wiki.Schema.Trip.Block.{
  taken, block_lines, canonical_fields, parse_frontmatter_fields-block,
}

pub type_text-IsPlain : (t : PageType) → IsPlain (type_text t)
unfolding is_whitespace
type_text-IsPlain gotcha = refl
type_text-IsPlain pattern_page = refl
type_text-IsPlain project_state = refl
type_text-IsPlain feature = refl
type_text-IsPlain workflow = refl
type_text-IsPlain decision = refl

owner_text-IsPlain : (w : Owner) → IsPlain (owner_text w)
unfolding is_whitespace
owner_text-IsPlain claude = refl
owner_text-IsPlain codex = refl
owner_text-IsPlain shared = refl

status_text-IsPlain : (s : Status) → IsPlain (status_text s)
unfolding is_whitespace
status_text-IsPlain current = refl
status_text-IsPlain historical = refl
status_text-IsPlain in_progress = refl

parse_type-type_text : (t : PageType) → parse_type (type_text t) ≡ ok t
unfolding text_eq
parse_type-type_text gotcha = refl
parse_type-type_text pattern_page = refl
parse_type-type_text project_state = refl
parse_type-type_text feature = refl
parse_type-type_text workflow = refl
parse_type-type_text decision = refl

parse_owner-owner_text : (w : Owner) → parse_owner (owner_text w) ≡ ok w
unfolding text_eq
parse_owner-owner_text claude = refl
parse_owner-owner_text codex = refl
parse_owner-owner_text shared = refl

parse_status-status_text : (s : Status) → parse_status (status_text s) ≡ ok s
unfolding text_eq
parse_status-status_text current = refl
parse_status-status_text historical = refl
parse_status-status_text in_progress = refl

module _ (slug title page_type status owner updated verified summary : Text) where
  abbrev lines : List Text
  lines = block_lines slug title page_type status owner updated verified summary

  lines-IsLine :
      IsPlain slug
      → IsLine title
      → IsPlain page_type
      → IsPlain status
      → IsPlain owner
      → IsPlain updated
      → IsPlain verified
      → IsLine summary
      → All IsLine lines
  lines-IsLine s t p c w d e u = (
    IsLine-append (characters "slug: ") slug refl (IsPlain-IsLine slug s),
    (
      IsLine-append (characters "title: ") title refl t,
      (
        IsLine-append (characters "type: ") page_type refl (IsPlain-IsLine page_type p),
        (
          IsLine-append (characters "status: ") status refl (IsPlain-IsLine status c),
          (
            IsLine-append (characters "owner: ") owner refl (IsPlain-IsLine owner w),
            (
              IsLine-append (characters "updated: ") updated refl (IsPlain-IsLine updated d),
              (
                IsLine-append (characters "verified: ") verified refl (IsPlain-IsLine verified e),
                (IsLine-append (characters "summary: ") summary refl u, tt),
              ),
            ),
          ),
        ),
      ),
    ),
  )

taken_trimmed : (value : Text) → taken value ≡ strict_unquote (trim value)
taken_trimmed value = ap strict_unquote (trim_space value)

-- The values of a rendered page, parsed.
pub record Kept (request : CommonRequest) (slug : Text) (owner : Owner) (status : Status)
    (updated verified : Text) (wiki : ParsedWikiPage) : Type 0 where
  pub slug_kept : wiki.slug ≡ slug
  pub title_kept : wiki.title ≡ strict_unquote (trim request.title)
  pub type_kept : wiki.page_type ≡ request.page_type
  pub status_kept : wiki.status ≡ status
  pub owner_kept : wiki.owner ≡ owner
  pub updated_kept : wiki.updated ≡ updated
  pub verified_kept : wiki.verified ≡ verified
  pub summary_kept : wiki.summary ≡ strict_unquote (trim request.summary)

-- The page of given fields, when it parses.
parse_wiki_page-Parsed :
    (is_decimal : ℕ → Bool) (is_link : Text → Bool) (page : Text) (fields : Fields)
    (wiki : ParsedWikiPage)
    → parse_frontmatter_fields page ≡ ok fields
    → parse_wiki_page is_decimal is_link page ≡ ok wiki
    → Parsed fields wiki
unfolding parse_wiki_page
parse_wiki_page-Parsed is_decimal is_link page fields wiki e h =
    let next : page_of_fields is_decimal is_link fields ≡ ok wiki = rw e at h in
    page_of_fields-Parsed is_decimal is_link fields wiki next

-- What is on one line or plain.
pub record Fit (request : CommonRequest) (slug updated verified : Text) : Type 0 where
  pub slug_plain : IsPlain slug
  pub title_line : IsLine request.title
  pub updated_plain : IsPlain updated
  pub verified_plain : IsPlain verified
  pub summary_line : IsLine request.summary

module _ (request : CommonRequest) (slug : Text) (owner : Owner) (status : Status)
    (updated verified : Text) where
  abbrev page_fields : Fields
  page_fields =
      canonical_fields (taken slug) (taken request.title) (taken (type_text request.page_type))
        (taken (status_text status)) (taken (owner_text owner)) (taken updated) (taken verified)
        (taken request.summary)

  parse_frontmatter_fields-render_page :
      Fit request slug updated verified
      → parse_frontmatter_fields (render_page request slug owner status updated verified)
        ≡ ok page_fields
  unfolding render_page
  parse_frontmatter_fields-render_page fit =
      parse_frontmatter_fields-block slug request.title (type_text request.page_type)
        (status_text status) (owner_text owner) updated verified request.summary (body_text request)
        (lines-IsLine slug request.title (type_text request.page_type) (status_text status)
          (owner_text owner) updated verified request.summary fit.slug_plain fit.title_line
          (type_text-IsPlain request.page_type) (status_text-IsPlain status)
          (owner_text-IsPlain owner) fit.updated_plain fit.verified_plain fit.summary_line)

  page_fields-Kept :
      (wiki : ParsedWikiPage)
      → Fit request slug updated verified
      → Parsed page_fields wiki
      → Kept request slug owner status updated verified wiki
  unfolding lookup text_eq
  page_fields-Kept wiki fit parsed = record {
    slug_kept = parsed.slug_is ∙ plain_value slug fit.slug_plain;
    title_kept = parsed.title_is ∙ taken_trimmed request.title;
    type_kept = ok_unique parsed.type_is (
        ap parse_type
          (plain_value (type_text request.page_type) (type_text-IsPlain request.page_type))
        ∙ parse_type-type_text request.page_type);
    status_kept = ok_unique parsed.status_is (
        ap parse_status (plain_value (status_text status) (status_text-IsPlain status))
        ∙ parse_status-status_text status);
    owner_kept = ok_unique parsed.owner_is (
        ap parse_owner (plain_value (owner_text owner) (owner_text-IsPlain owner))
        ∙ parse_owner-owner_text owner);
    updated_kept = parsed.updated_is ∙ plain_value updated fit.updated_plain;
    verified_kept = parsed.verified_is ∙ plain_value verified fit.verified_plain;
    summary_kept = parsed.summary_is ∙ taken_trimmed request.summary;
  }

  pub render_page-Kept :
      (is_decimal : ℕ → Bool) (is_link : Text → Bool) (wiki : ParsedWikiPage)
      → Fit request slug updated verified
      → parse_wiki_page is_decimal is_link (render_page request slug owner status updated verified)
        ≡ ok wiki
      → Kept request slug owner status updated verified wiki
  render_page-Kept is_decimal is_link wiki fit h = page_fields-Kept wiki fit (
      parse_wiki_page-Parsed is_decimal is_link
        (render_page request slug owner status updated verified) page_fields wiki
        (parse_frontmatter_fields-render_page fit) h)
