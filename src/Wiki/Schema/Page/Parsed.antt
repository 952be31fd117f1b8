-- ===== src/Wiki/Schema/Page/Parsed.antt =====
-- Where `parse_wiki_page` of crates/yams-wiki/src/schema.rs takes a page's values from.
use yams.Prelude.{
  ℕ, ◌≡◌, sym, ap, ◌∙◌, Bool, not, is_empty, ok, refuse_if, >>=-Steps, >>-ok, ok-injective,
}
use yams.Core.Text.{Text, characters}
use yams.Core.Text.Order.{text_le}
use yams.Wiki.Schema.Scalar.{validate_frontmatter_scalar}
use yams.Wiki.Schema.Page.{
  Fields, field, required_page_field, validate_page_slug, parse_type, parse_status, parse_owner,
  is_iso_date, ParsedWikiPage, page_of_fields,
}

-- The values of a page are those of its fields.
pub record Parsed (fields : Fields) (wiki : ParsedWikiPage) : Type 0 where
  pub same_fields : wiki.fields ≡ fields
  pub slug_is : wiki.slug ≡ field (characters "slug") fields
  pub title_is : wiki.title ≡ field (characters "title") fields
  pub summary_is : wiki.summary ≡ field (characters "summary") fields
  pub updated_is : wiki.updated ≡ field (characters "updated") fields
  pub verified_is : wiki.verified ≡ field (characters "verified") fields
  pub type_is : parse_type (field (characters "type") fields) ≡ ok wiki.page_type
  pub status_is : parse_status (field (characters "status") fields) ≡ ok wiki.status
  pub owner_is : parse_owner (field (characters "owner") fields) ≡ ok wiki.owner

pub required_page_field-ok :
    (fields : Fields) (key value : Text)
    → required_page_field fields key ≡ ok value
    → value ≡ field key fields
unfolding required_page_field
required_page_field-ok fields key value h =
    let (there, made) = >>-ok (refuse_if (is_empty (field key fields)) _) _ h in
    sym (ok-injective made)

-- The parse of a page from its fields, step by step.
pub page_of_fields-Parsed :
    (is_decimal : ℕ → Bool) (is_link : Text → Bool) (fields : Fields) (wiki : ParsedWikiPage)
    → page_of_fields is_decimal is_link fields ≡ ok wiki
    → Parsed fields wiki
unfolding page_of_fields
page_of_fields-Parsed is_decimal is_link fields wiki h =
    let slug = >>=-Steps (required_page_field fields (characters "slug")) _ h in
    let shaped = >>=-Steps (validate_page_slug slug.value) _ slug.next_ok in
    let title = >>=-Steps (required_page_field fields (characters "title")) _ shaped.next_ok in
    let title_fine =
      >>=-Steps (validate_frontmatter_scalar is_link (characters "title") title.value) _
        title.next_ok in
    let summary =
      >>=-Steps (required_page_field fields (characters "summary")) _ title_fine.next_ok in
    let summary_fine =
      >>=-Steps (validate_frontmatter_scalar is_link (characters "summary") summary.value) _
        summary.next_ok in
    let page_type =
      >>=-Steps (parse_type (field (characters "type") fields)) _ summary_fine.next_ok in
    let status =
      >>=-Steps (parse_status (field (characters "status") fields)) _ page_type.next_ok in
    let owner = >>=-Steps (parse_owner (field (characters "owner") fields)) _ status.next_ok in
    let updated = >>=-Steps (required_page_field fields (characters "updated")) _ owner.next_ok in
    let verified =
      >>=-Steps (required_page_field fields (characters "verified")) _ updated.next_ok in
    let updated_fine =
      >>=-Steps (refuse_if (not (is_iso_date is_decimal updated.value)) _) _ verified.next_ok in
    let verified_fine =
      >>=-Steps (refuse_if (not (is_iso_date is_decimal verified.value)) _) _
        updated_fine.next_ok in
    let in_order =
      >>=-Steps (refuse_if (not (text_le updated.value verified.value)) _) _
        verified_fine.next_ok in
    let made = sym (ok-injective in_order.next_ok) in
    record {
      same_fields = ap (λ (w : ParsedWikiPage). w.fields) made;
      slug_is =
          ap (λ (w : ParsedWikiPage). w.slug) made
          ∙ required_page_field-ok fields (characters "slug") slug.value slug.first_ok;
      title_is =
          ap (λ (w : ParsedWikiPage). w.title) made
          ∙ required_page_field-ok fields (characters "title") title.value title.first_ok;
      summary_is =
          ap (λ (w : ParsedWikiPage). w.summary) made
          ∙ required_page_field-ok fields (characters "summary") summary.value summary.first_ok;
      updated_is =
          ap (λ (w : ParsedWikiPage). w.updated) made
          ∙ required_page_field-ok fields (characters "updated") updated.value updated.first_ok;
      verified_is =
          ap (λ (w : ParsedWikiPage). w.verified) made
          ∙ required_page_field-ok fields (characters "verified") verified.value verified.first_ok;
      type_is = page_type.first_ok ∙ ap (λ (w : ParsedWikiPage). ok w.page_type) (sym made);
      status_is = status.first_ok ∙ ap (λ (w : ParsedWikiPage). ok w.status) (sym made);
      owner_is = owner.first_ok ∙ ap (λ (w : ParsedWikiPage). ok w.owner) (sym made);
    }
