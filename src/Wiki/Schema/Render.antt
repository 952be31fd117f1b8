-- ===== src/Wiki/Schema/Render.antt =====
-- `render_page`, `validate_common`, `render_create`, `render_update` and what they call of
-- crates/yams-wiki/src/schema.rs. The regular expressions, the tables of Unicode and the SHA-256 digest
-- in hexadecimal are parameters.
use yams.Prelude.{
  ℕ, Bool, true, false, not, ◌&&◌, ◌||◌, Option, none, some, List, [], ◌∷◌, ◌++◌, ◌==◌, length,
  filter, all, map, leb, Result, ok, err, ◌>>◌, ◌>>=◌, refuse_if,
}
use yams.Core.Text.{Text, characters, lf, join}
use yams.Core.Text.Order.{text_eq}
use yams.Core.Text.Firsts.{first_per}
use yams.Core.Frontmatter.Fields.{parse_frontmatter}
use yams.Wiki.Schema.{
  PageType, Owner, shared, Status, current, type_text, owner_text, status_text, CreateRequest,
  UpdateRequest, SchemaError, bad_today, related_long, related_bad, related_itself, cites,
  parsers_disagree, extra_fields,
}
use yams.Wiki.Schema.Slug.{SlugProblem, empty, too_long, invalid_character, validate_slug, slugify}
use yams.Wiki.Schema.Scalar.{require_nonempty, validate_frontmatter_scalar}
use yams.Wiki.Schema.Page.{Fields, canonical_keys, is_iso_date, parse_wiki_page}

-- `CommonRequest`
pub record CommonRequest : Type 0 where
  pub title : Text
  pub page_type : PageType
  pub fact : Text
  pub why : Text
  pub how_to_apply : Text
  pub falsified_by : Text
  pub summary : Text
  pub related : List Text

abbrev pub of_create : CreateRequest → CommonRequest
of_create request = record {
  title = request.title;
  page_type = request.page_type;
  fact = request.fact;
  why = request.why;
  how_to_apply = request.how_to_apply;
  falsified_by = request.falsified_by;
  summary = request.summary;
  related = request.related;
}

abbrev pub of_update : UpdateRequest → CommonRequest
of_update request = record {
  title = request.title;
  page_type = request.page_type;
  fact = request.fact;
  why = request.why;
  how_to_apply = request.how_to_apply;
  falsified_by = request.falsified_by;
  summary = request.summary;
  related = request.related;
}

-- A line of the block, in front of the rest of the page; `start` is its key, colon and space.
abbrev pub block_line : Text → Text → Text → Text
block_line start value rest = (start ++ value) ++ (lf ∷ rest)

abbrev pub itself : Text → Text
itself slug = slug

abbrev pub wikilink : Text → Text
wikilink slug = characters "[[" ++ (slug ++ characters "]]")

abbrev pub related_text : List Text → Text
related_text [] = []
related_text (link ∷ links) =
    characters "\nRelated: " ++ (join (characters ", ") (link ∷ links) ++ (lf ∷ []))

unfoldable pub body_text : CommonRequest → Text
unfolding first_per join
body_text request =
    lf
    ∷ (request.fact
        ++ (characters "\n\n**Why:** "
            ++ (request.why
                ++ (characters "\n\n**How to apply:** "
                    ++ (request.how_to_apply
                        ++ (characters "\n\n**Falsified by:** "
                            ++ (request.falsified_by
                                ++ (lf
                                    ∷ related_text
                                        (map wikilink (first_per itself [] request.related))))))))))

unfoldable pub render_page : CommonRequest → Text → Owner → Status → Text → Text → Text
unfolding body_text
render_page request slug owner status updated verified = block_line (characters "---") [] (
    block_line (characters "slug: ") slug (
      block_line (characters "title: ") request.title (
        block_line (characters "type: ") (type_text request.page_type) (
          block_line (characters "status: ") (status_text status) (
            block_line (characters "owner: ") (owner_text owner) (
              block_line (characters "updated: ") updated (
                block_line (characters "verified: ") verified (
                  block_line (characters "summary: ") request.summary
                    (block_line (characters "---") [] (body_text request))))))))))

abbrev pub fields_eq : Fields → Fields → Bool
fields_eq [] [] = true
fields_eq ((j, u) ∷ fs) ((k, v) ∷ gs) = (text_eq j k && text_eq u v) && fields_eq fs gs
fields_eq _ _ = false

abbrev pub related_refusal : Text → Result SlugProblem (Unit {0}) → Result SchemaError (Unit {0})
related_refusal related (ok valid) = ok tt
related_refusal related (err too_long) = err (related_long related)
related_refusal related (err empty) = err (related_bad related)
related_refusal related (err invalid_character) = err (related_bad related)

unfoldable pub related_loop : Text → List Text → Result SchemaError (Unit {0})
unfolding validate_slug text_eq
related_loop slug [] = ok tt
related_loop slug (related ∷ rest) =
    related_refusal related (validate_slug related)
    >> (refuse_if (text_eq related slug) related_itself >> related_loop slug rest)

abbrev pub refuse_citation : Option Text → Result SchemaError (Unit {0})
refuse_citation none = ok tt
refuse_citation (some reference) = err (cites reference)

-- `is_sha256`
abbrev pub is_sha256 : Text → Bool
is_sha256 value =
    length value == 64 && all (λ c. (leb b'0' c && leb c b'9') || (leb b'a' c && leb c b'f')) value

abbrev pub expects_sha256 : Option Text → Bool
expects_sha256 none = true
expects_sha256 (some expected) = is_sha256 expected

-- The crates that the code calls: compatibility decomposition, case folding and combining classes, the
-- regular expressions and the decimal numbers of Unicode.
pub record Outside : Type 0 where
  pub nfkd : Text → Text
  pub case_fold : Text → Text
  pub canonical_combining_class : ℕ → ℕ
  pub is_link : Text → Bool
  pub without_fences : Text → Text
  pub without_urls : Text → Text
  pub find_reference : Text → Option Text
  pub is_decimal : ℕ → Bool
  pub sha256_hex : Text → Text

module _ (o : Outside) where
  -- The text over which `slugify` loops.
  abbrev pub folded : Text → Text
  folded title = filter (λ c. o.canonical_combining_class c == 0) (o.case_fold (o.nfkd title))

  abbrev pub first_line_reference : Text → Option Text
  first_line_reference source = o.find_reference (o.without_urls (o.without_fences source))

  unfoldable pub validate_today : Text → Result SchemaError (Unit {0})
  unfolding is_iso_date
  validate_today today = refuse_if (not (is_iso_date o.is_decimal today)) (bad_today today)

  unfoldable pub ensure_rendered_page : Text → Result SchemaError (Unit {0})
  unfolding parse_wiki_page
  ensure_rendered_page page = do
    wiki ← parse_wiki_page o.is_decimal o.is_link page
    refuse_if (not (fields_eq wiki.fields (parse_frontmatter page).fields)) parsers_disagree
        >> refuse_if (not (length wiki.fields == length canonical_keys)) extra_fields

  unfoldable pub validate_common : CommonRequest → Result SchemaError Text
  unfolding require_nonempty validate_frontmatter_scalar slugify related_loop render_page
  validate_common request = do
    title ← require_nonempty (characters "title") request.title
    fact ← require_nonempty (characters "fact") request.fact
    why ← require_nonempty (characters "why") request.why
    how_to_apply ← require_nonempty (characters "how_to_apply") request.how_to_apply
    falsified_by ← require_nonempty (characters "falsified_by") request.falsified_by
    summary ← require_nonempty (characters "summary") request.summary
    title_fine ← validate_frontmatter_scalar o.is_link (characters "title") request.title
    summary_fine ← validate_frontmatter_scalar o.is_link (characters "summary") request.summary
    slug ← slugify folded request.title
    related ← related_loop slug request.related
    let probe =
        render_page request slug shared current (characters "2026-01-01") (characters "2026-01-01")
    uncited ← refuse_citation (first_line_reference probe)
    ok slug

  unfoldable pub render_create : CreateRequest → Text → Result SchemaError Text
  unfolding validate_today validate_common ensure_rendered_page
  render_create request today = do
    dated ← validate_today today
    slug ← validate_common (of_create request)
    let page = render_page (of_create request) slug request.owner current today today
    ensured ← ensure_rendered_page page
    ok page
