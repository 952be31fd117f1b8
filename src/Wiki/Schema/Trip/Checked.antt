-- ===== src/Wiki/Schema/Trip/Checked.antt =====
-- What the checks of crates/yams-wiki/src/schema.rs show of a request and a page.
use yams.Prelude.{◌≡◌, ap, ◌∙◌, true, ok, refuse_not, >>=-Steps, ok-injective}
use yams.Core.Text.{Text, characters}
use yams.Wiki.Schema.{shared, current}
use yams.Wiki.Schema.Slug.{slugify}
use yams.Wiki.Schema.Slug.Slugged.{Slugs, slugify-Slugs}
use yams.Wiki.Schema.Scalar.{require_nonempty, validate_frontmatter_scalar}
use yams.Wiki.Schema.Lines.{IsLine}
use yams.Wiki.Schema.Page.{is_iso_date, ParsedWikiPage, parse_wiki_page}
use yams.Wiki.Schema.Render.{
  CommonRequest, render_page, related_loop, Outside, validate_today, ensure_rendered_page,
  validate_common, refuse_citation, folded, first_line_reference,
}
use yams.Wiki.Schema.Trip.Values.{IsPlain, scalar-IsLine, hyphenated-IsPlain}

-- What validation shows of a request.
pub record Valid (o : Outside) (request : CommonRequest) (slug : Text) : Type 0 where
  pub title_line : IsLine request.title
  pub summary_line : IsLine request.summary
  pub slugged : slugify (folded o) request.title ≡ ok slug

pub validate_common-Valid :
    (o : Outside) (request : CommonRequest) (slug : Text)
    → validate_common o request ≡ ok slug
    → Valid o request slug
unfolding validate_common
validate_common-Valid o request slug h =
    let title = >>=-Steps (require_nonempty (characters "title") request.title) _ h in
    let fact = >>=-Steps (require_nonempty (characters "fact") request.fact) _ title.next_ok in
    let why = >>=-Steps (require_nonempty (characters "why") request.why) _ fact.next_ok in
    let how =
      >>=-Steps (require_nonempty (characters "how_to_apply") request.how_to_apply) _ why.next_ok in
    let falsified =
      >>=-Steps (require_nonempty (characters "falsified_by") request.falsified_by) _ how.next_ok in
    let summary =
      >>=-Steps (require_nonempty (characters "summary") request.summary) _ falsified.next_ok in
    let title_fine =
      >>=-Steps (validate_frontmatter_scalar o.is_link (characters "title") request.title) _
        summary.next_ok in
    let summary_fine =
      >>=-Steps (validate_frontmatter_scalar o.is_link (characters "summary") request.summary) _
        title_fine.next_ok in
    let made = >>=-Steps (slugify (folded o) request.title) _ summary_fine.next_ok in
    let related = >>=-Steps (related_loop made.value request.related) _ made.next_ok in
    let probe : Text =
      render_page request made.value shared current (characters "2026-01-01")
        (characters "2026-01-01") in
    let uncited = >>=-Steps (refuse_citation (first_line_reference o probe)) _ related.next_ok in
    record {
      title_line = scalar-IsLine o.is_link (characters "title") request.title title_fine.first_ok;
      summary_line =
          scalar-IsLine o.is_link (characters "summary") request.summary summary_fine.first_ok;
      slugged = made.first_ok ∙ ap ok (ok-injective uncited.next_ok);
    }

pub slugify-IsPlain :
    (folded : Text → Text) (title slug : Text) → slugify folded title ≡ ok slug → IsPlain slug
slugify-IsPlain folded title slug e =
    let s : Slugs (folded title) (ok slug) = rw e at (slugify-Slugs folded title) in
    hyphenated-IsPlain true slug s.0.words

module _ (o : Outside) where
  pub ensure_rendered_page-parse :
      (page : Text)
      → ensure_rendered_page o page ≡ ok tt
      → (wiki : ParsedWikiPage) × (parse_wiki_page o.is_decimal o.is_link page ≡ ok wiki)
  unfolding ensure_rendered_page
  ensure_rendered_page-parse page h =
      let wiki = >>=-Steps (parse_wiki_page o.is_decimal o.is_link page) _ h in
      (wiki.value, wiki.first_ok)

  pub validate_today-is_iso_date :
      (today : Text) → validate_today o today ≡ ok tt → is_iso_date o.is_decimal today ≡ true
  unfolding validate_today
  validate_today-is_iso_date today h = refuse_not (is_iso_date o.is_decimal today) _ h
