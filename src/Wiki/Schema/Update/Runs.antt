-- ===== src/Wiki/Schema/Update/Runs.antt =====
-- The steps of `render_update` of crates/yams-wiki/src/schema.rs, when it returns.
use yams.Prelude.{
  ◌≡◌, refl, sym, ap, ◌∙◌, Bool, true, false, not, ◌||◌, ok, refuse_if, >>=-Steps, ok-injective,
  refuse_not,
}
use yams.Core.Text.{Text, characters}
use yams.Core.Text.Order.{text_eq, text_le, text_eq_iff}
use yams.Wiki.Schema.{Owner, Status, SchemaError, UpdateRequest}
use yams.Wiki.Schema.Scalar.{require_nonempty}
use yams.Wiki.Schema.Page.{
  Fields, field, parse_frontmatter_fields, required_page_field, validate_page_slug, parse_owner,
  parse_status, is_iso_date,
}
use yams.Wiki.Schema.Page.Parsed.{required_page_field-ok}
use yams.Wiki.Schema.Render.{
  of_update, expects_sha256, Outside, validate_today, ensure_rendered_page, validate_common,
}
use yams.Wiki.Schema.Trip.Checked.{Valid, validate_common-Valid, validate_today-is_iso_date}
use yams.Wiki.Schema.Update.{
  RenderedUpdate, refuse_changed, validate_update, updated_page, content_changes, render_update,
}

same_text : (t u : Text) (error : SchemaError) → refuse_if (not (text_eq t u)) error ≡ ok tt → t ≡ u
same_text t u error h = (text_eq_iff t u).0 (refuse_not (text_eq t u) error h)

validate_update-Valid :
    (o : Outside) (request : UpdateRequest) (slug : Text)
    → validate_update o request ≡ ok slug
    → Valid o (of_update request) request.target
unfolding validate_update
validate_update-Valid o request slug h =
    let aimed = >>=-Steps (require_nonempty (characters "target") request.target) _ h in
    let updating = >>=-Steps (refuse_if (not request.update) _) _ aimed.next_ok in
    let digest =
      >>=-Steps (refuse_if (not (expects_sha256 request.expected_sha256)) _) _ updating.next_ok in
    let common = >>=-Steps (validate_common o (of_update request)) _ digest.next_ok in
    let aim =
      >>=-Steps (refuse_if (not (text_eq common.value request.target)) _) _ common.next_ok in
    let same = same_text common.value request.target _ aim.first_ok in
    validate_common-Valid o (of_update request) request.target (common.first_ok ∙ ap ok same)

-- The run of `render_update`.
pub record Run (o : Outside) (request : UpdateRequest) (stored_page today : Text)
    (rendered : RenderedUpdate) : Type 0 where
  pub stored : Fields
  pub owner : Owner
  pub status : Status
  pub dated : is_iso_date o.is_decimal today ≡ true
  pub valid : Valid o (of_update request) request.target
  pub stored_parses : parse_frontmatter_fields stored_page ≡ ok stored
  pub slug_stored : field (characters "slug") stored ≡ request.target
  pub owner_stored : parse_owner (field (characters "owner") stored) ≡ ok owner
  pub status_stored : parse_status (field (characters "status") stored) ≡ ok status
  pub updated_dated : is_iso_date o.is_decimal (field (characters "updated") stored) ≡ true
  pub change :
      rendered.content_changed
      ≡ content_changes o request stored_page stored request.target owner status
          (field (characters "updated") stored)
          today
  pub page_ok : ensure_rendered_page o rendered.page ≡ ok tt
  pub page_is :
      updated_page o request request.target owner status
        (field (characters "updated") stored)
        today
        rendered.content_changed
      ≡ rendered.page

both_hold : (a b : Bool) (error : SchemaError) → refuse_if (not a || not b) error ≡ ok tt → a ≡ true
both_hold true b error h = refl
both_hold false b error h = cc

module _ (o : Outside) (request : UpdateRequest) (stored_page today : Text)
    (rendered : RenderedUpdate) where
  pub render_update-Run :
      render_update o request stored_page today ≡ ok rendered
      → Run o request stored_page today rendered
  unfolding render_update
  render_update-Run h =
      let dated = >>=-Steps (validate_today o today) _ h in
      let valid = >>=-Steps (validate_update o request) _ dated.next_ok in
      let unchanged =
        >>=-Steps (refuse_changed request.expected_sha256 (o.sha256_hex stored_page)) _
          valid.next_ok in
      let stored = >>=-Steps (parse_frontmatter_fields stored_page) _ unchanged.next_ok in
      let slug =
        >>=-Steps (required_page_field stored.value (characters "slug")) _ stored.next_ok in
      let shaped = >>=-Steps (validate_page_slug slug.value) _ slug.next_ok in
      let aim =
        >>=-Steps (refuse_if (not (text_eq slug.value request.target)) _) _ shaped.next_ok in
      let owner = >>=-Steps (parse_owner (field (characters "owner") stored.value)) _ aim.next_ok in
      let status =
        >>=-Steps (parse_status (field (characters "status") stored.value)) _ owner.next_ok in
      let updated : Text = field (characters "updated") stored.value in
      let past =
        >>=-Steps
          (refuse_if (not (is_iso_date o.is_decimal updated) || not (text_le updated today)) _) _
          status.next_ok in
      let changed : Bool =
        content_changes o request stored_page stored.value slug.value owner.value status.value
          updated today in
      let page : Text =
        updated_page o request slug.value owner.value status.value updated today changed in
      let ensured = >>=-Steps (ensure_rendered_page o page) _ past.next_ok in
      let made = ok-injective ensured.next_ok in
      let same = same_text slug.value request.target _ aim.first_ok in
      record {
        stored = stored.value;
        owner = owner.value;
        status = status.value;
        dated = validate_today-is_iso_date o today dated.first_ok;
        valid = validate_update-Valid o request valid.value valid.first_ok;
        stored_parses = stored.first_ok;
        slug_stored =
            sym (required_page_field-ok stored.value (characters "slug") slug.value slug.first_ok)
            ∙ same;
        owner_stored = owner.first_ok;
        status_stored = status.first_ok;
        updated_dated =
            both_hold (is_iso_date o.is_decimal updated) (text_le updated today) _ past.first_ok;
        change =
            sym (ap (λ (r : RenderedUpdate). r.content_changed) made)
            ∙ ap
                (λ (s : Text).
                  content_changes o request stored_page stored.value s owner.value status.value
                    updated today)
                same;
        page_ok =
            ap (λ (r : RenderedUpdate). ensure_rendered_page o r.page) (sym made)
            ∙ ensured.first_ok;
        page_is =
            ap
              (λ (s : Text).
                updated_page o request s owner.value status.value updated today
                  rendered.content_changed)
              (sym same)
            ∙ ap
                (λ (b : Bool).
                  updated_page o request slug.value owner.value status.value updated today b)
                (ap (λ (r : RenderedUpdate). r.content_changed) (sym made))
            ∙ ap (λ (r : RenderedUpdate). r.page) made;
      }
