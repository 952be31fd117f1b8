-- ===== src/Wiki/Schema/Tests.antt =====
-- Pages of crates/yams-wiki/src/schema.rs. Folding keeps the text, no text is a link, and only the
-- digits of ASCII are decimal numbers.
use yams.Prelude.{ℕ, ◌≡◌, refl, Bool, true, false, none, [], ◌∷◌, ◌++◌, leb, ◌&&◌, arith, ok, err}
use yams.Core.Text.{Text, characters, is_whitespace, trim}
use yams.Core.Text.Order.{starts_with}
use yams.Core.Text.Maps.{lookup, update}
use yams.Core.Frontmatter.Fields.{parse_frontmatter}
use yams.Wiki.Schema.Scalar.{trim_start_matches, trim_end_matches}
use yams.Wiki.Schema.{
  CreateRequest, UpdateRequest, gotcha, codex, empty_slug, bad_today, related_itself,
}
use yams.Wiki.Schema.Slug.{slugify}
use yams.Wiki.Schema.Slug.Slugged.{Slugs, slugify-Slugs}
use yams.Wiki.Schema.Page.{strict_unquote, canonical_key}
use yams.Wiki.Schema.Render.{Outside, render_create}
use yams.Wiki.Schema.Update.{render_update}
use yams.Wiki.Schema.Update.Renders.{Updated, render_update-Updated}
use yams.Wiki.Schema.Trip.{Created, render_create-Created, PlainDigits}

abbrev ascii_digit : ℕ → Bool
ascii_digit c = leb b'0' c && leb c b'9'

abbrev outside : Outside
outside = record {
  nfkd = λ t. t;
  case_fold = λ t. t;
  canonical_combining_class = λ c. 0;
  is_link = λ t. false;
  without_fences = λ t. t;
  without_urls = λ t. t;
  find_reference = λ t. none;
  is_decimal = ascii_digit;
  sha256_hex = λ t. t;
}

ascii_digit-PlainDigits : PlainDigits ascii_digit
unfolding is_whitespace
ascii_digit-PlainDigits c h = ground arith

abbrev same_text : Text → Text
same_text t = t

slugify-Slugs_example :
    Slugs (characters " a lock, held") (slugify same_text (characters " a lock, held"))
slugify-Slugs_example = slugify-Slugs same_text (characters " a lock, held")

lock_slug : slugify same_text (characters " a lock, held") ≡ ok (characters "a-lock-held")
unfolding slugify
lock_slug = refl

nothing_slug : slugify same_text (characters " -- ") ≡ err empty_slug
unfolding slugify
nothing_slug = refl

abbrev request : CreateRequest
request = record {
  title = characters "'a lock' ";
  page_type = gotcha;
  owner = codex;
  fact = characters "f";
  why = characters "w";
  how_to_apply = characters "h";
  falsified_by = characters "b";
  summary = characters "s";
  related = characters "x" ∷ characters "y" ∷ characters "x" ∷ [];
}

abbrev today : Text
today = characters "2026-02-03"

abbrev lock_page : Text
lock_page =
    characters
      "---\nslug: a-lock\ntitle: 'a lock' \ntype: gotcha\nstatus: current\nowner: codex\nupdated: 2026-02-03\nverified: 2026-02-03\nsummary: s\n---\n\nf\n\n**Why:** w\n\n**How to apply:** h\n\n**Falsified by:** b\n\nRelated: [[x]], [[y]]\n"

lock_created : render_create outside request today ≡ ok lock_page
unfolding render_create trim_start_matches trim_end_matches starts_with trim is_whitespace
    canonical_key lookup update strict_unquote parse_frontmatter
lock_created = refl

undated :
    render_create outside request (characters "2026-2-03")
    ≡ err (bad_today (characters "2026-2-03"))
unfolding render_create trim_start_matches trim_end_matches starts_with trim is_whitespace
    canonical_key lookup update strict_unquote parse_frontmatter
undated = refl

related_to_itself :
    render_create outside (record request { related = characters "a-lock" ∷ [] }) today
    ≡ err related_itself
unfolding render_create trim_start_matches trim_end_matches starts_with trim is_whitespace
    canonical_key lookup update strict_unquote parse_frontmatter
related_to_itself = refl

render_create-Created_example : Created outside request today lock_page
render_create-Created_example =
    render_create-Created outside ascii_digit-PlainDigits request today lock_page lock_created

abbrev verification : UpdateRequest
verification = record {
  title = characters "a lock";
  page_type = request.page_type;
  fact = request.fact;
  why = request.why;
  how_to_apply = request.how_to_apply;
  falsified_by = request.falsified_by;
  summary = request.summary;
  related = request.related;
  update = true;
  target = characters "a-lock";
  expected_sha256 = none;
}

abbrev dated_page : Text → Text → Text
dated_page updated verified =
    characters
      "---\nslug: a-lock\ntitle: a lock\ntype: gotcha\nstatus: current\nowner: codex\nupdated: "
    ++ (updated
        ++ (characters "\nverified: "
            ++ (verified
                ++ characters
                    "\nsummary: s\n---\n\nf\n\n**Why:** w\n\n**How to apply:** h\n\n**Falsified by:** b\n\nRelated: [[x]], [[y]]\n")))

abbrev tomorrow : Text
tomorrow = characters "2026-02-04"

-- The title of the stored page is quoted, which changes nothing.
lock_verified :
    render_update outside verification lock_page tomorrow
    ≡ ok (record { page = dated_page today tomorrow; content_changed = false })
unfolding render_update trim_start_matches trim_end_matches starts_with trim is_whitespace
    canonical_key lookup update strict_unquote parse_frontmatter
lock_verified = refl

lock_changed :
    render_update outside (record verification { related = [] }) lock_page tomorrow
    ≡ ok (record {
      page =
          characters
            "---\nslug: a-lock\ntitle: a lock\ntype: gotcha\nstatus: current\nowner: codex\nupdated: 2026-02-04\nverified: 2026-02-04\nsummary: s\n---\n\nf\n\n**Why:** w\n\n**How to apply:** h\n\n**Falsified by:** b\n";
      content_changed = true;
    })
unfolding render_update trim_start_matches trim_end_matches starts_with trim is_whitespace
    canonical_key lookup update strict_unquote parse_frontmatter
lock_changed = refl

render_update-Updated_example :
    Updated outside verification lock_page tomorrow
      (record { page = dated_page today tomorrow; content_changed = false })
render_update-Updated_example =
    render_update-Updated outside ascii_digit-PlainDigits verification lock_page tomorrow
      (record { page = dated_page today tomorrow; content_changed = false }) lock_verified
