-- ===== src/Wiki/Schema/Update/Changes.antt =====
-- When `render_update` of crates/yams-wiki/src/schema.rs finds that the content of a page has changed.
use yams.Prelude.{
  ℕ, ◌≡◌, refl, sym, ap, ◌∙◌, ◌↔◌, inl, inr, Bool, true, false, not, Option, none, some, List, [],
  ◌∷◌, All, Bool-cases, drop, ok,
}
use yams.Core.Text.{Text, characters}
use yams.Core.Text.Order.{text_eq, text_eq_iff}
use yams.Wiki.Schema.{
  Owner, Status, SchemaError, UpdateRequest, spelled, owners, statuses, type_text, owner_text,
  status_text, bad_owner, bad_status,
}
use yams.Wiki.Schema.Lines.{IsLine}
use yams.Wiki.Schema.Page.{Fields, field, strip_bom, or_refuse, parse_owner, parse_status}
use yams.Wiki.Schema.Render.{of_update, render_page, body_text, Outside}
use yams.Wiki.Schema.Trip.Block.{with_lines}
use yams.Wiki.Schema.Update.{body_loop, recanonicalize_frontmatter, without_dates, content_changes}
use yams.Wiki.Schema.Update.StoredLines.{field-IsLine}
use yams.Wiki.Schema.Update.Dates.{
  page_lines, page_lines-IsLine, dateless_lines, dateless_lines-IsLine, without_dates-page_lines,
  with_lines_unique,
}

-- The page has the content of the request.
abbrev pub SameContent : UpdateRequest → Fields → Text → Type 0
SameContent request stored body =
    (field (characters "title") stored ≡ request.title)
    × (field (characters "type") stored ≡ type_text request.page_type)
    × (field (characters "summary") stored ≡ request.summary)
    × (body ≡ body_text (of_update request))

-- A value that was parsed is the text of what it was parsed to.
spelled_text :
    {A : Type 0} (as_str : A → Text) (all : List A) (value : Text) (a : A)
    → spelled as_str all value ≡ some a
    → value ≡ as_str a
spelled_text as_str [] value a e = cc
spelled_text as_str (b ∷ all) value a e = elim (Bool-cases (text_eq value (as_str b))) [
  | inl at ↦
      let f = rw at at e in
      let same : b ≡ a = cc in (text_eq_iff value (as_str b)).0 at ∙ ap as_str same
  | inr off ↦ let f = rw off at e in spelled_text as_str all value a f
]

or_refuse-some :
    {A : Type 0} (error : SchemaError) (o : Option A) (a : A)
    → or_refuse error o ≡ ok a
    → o ≡ some a
or_refuse-some error none a e = cc
or_refuse-some error (some b) a e = cc

pub parse_owner_text : (value : Text) (w : Owner) → parse_owner value ≡ ok w → value ≡ owner_text w
parse_owner_text value w e =
    spelled_text owner_text owners value w
      (or_refuse-some (bad_owner value) (spelled owner_text owners value) w e)

pub parse_status_text :
    (value : Text) (s : Status) → parse_status value ≡ ok s → value ≡ status_text s
parse_status_text value s e =
    spelled_text status_text statuses value s
      (or_refuse-some (bad_status value) (spelled status_text statuses value) s e)

abbrev stored_lines : Fields → List Text
stored_lines stored =
    page_lines (field (characters "slug") stored) (field (characters "title") stored)
      (field (characters "type") stored) (field (characters "status") stored)
      (field (characters "owner") stored) (field (characters "updated") stored)
      (field (characters "verified") stored) (field (characters "summary") stored)

stored_lines-IsLine :
    (stored : Fields) → All (λ e. IsLine e.1) stored → All IsLine (stored_lines stored)
stored_lines-IsLine stored h =
    let at : (key : Text) → IsLine (field key stored) = λ key. field-IsLine key stored h in
    page_lines-IsLine (field (characters "slug") stored) (field (characters "title") stored)
      (field (characters "type") stored) (field (characters "status") stored)
      (field (characters "owner") stored) (field (characters "updated") stored)
      (field (characters "verified") stored) (field (characters "summary") stored)
      (at (characters "slug")) (at (characters "title")) (at (characters "type"))
      (at (characters "status")) (at (characters "owner")) (at (characters "updated"))
      (at (characters "verified")) (at (characters "summary"))

recanonicalize_frontmatter-lines :
    (source : Text) (stored : Fields) (body : Text)
    → body_loop true false [] (strip_bom source) ≡ some body
    → recanonicalize_frontmatter source stored ≡ with_lines (stored_lines stored) body
unfolding recanonicalize_frontmatter
recanonicalize_frontmatter-lines source stored body e = rw e refl

dateless_same :
    (slug title page_type status owner summary body : Text)
    (slug' title' page_type' status' owner' summary' body' : Text)
    → slug ≡ slug'
    → title ≡ title'
    → page_type ≡ page_type'
    → status ≡ status'
    → owner ≡ owner'
    → summary ≡ summary'
    → body ≡ body'
    → with_lines (dateless_lines slug title page_type status owner summary) body
      ≡ with_lines (dateless_lines slug' title' page_type' status' owner' summary') body'
dateless_same slug title page_type status owner summary body slug' title' page_type' status' owner'
      summary' body' a b c d e f g =
    rw (a, b, c, d, e, f, g) refl

not-false : (b : Bool) → not b ≡ false → b ≡ true
not-false true h = refl
not-false false h = cc

module _ (o : Outside) (request : UpdateRequest) (source : Text) (stored : Fields) (body : Text)
    (owner : Owner) (status : Status) (today : Text) where
  abbrev request_lines : List Text
  request_lines =
      page_lines request.target request.title (type_text request.page_type) (status_text status)
        (owner_text owner) (field (characters "updated") stored) today request.summary

  request_dateless : Text
  request_dateless =
      with_lines
        (dateless_lines request.target request.title (type_text request.page_type)
          (status_text status) (owner_text owner) request.summary)
        (body_text (of_update request))

  stored_dateless : Text
  stored_dateless =
      with_lines
        (dateless_lines (field (characters "slug") stored) (field (characters "title") stored)
          (field (characters "type") stored) (field (characters "status") stored)
          (field (characters "owner") stored) (field (characters "summary") stored))
        body

  request-without_dates :
      All IsLine request_lines
      → without_dates (
          render_page
            (of_update request)
            request.target
            owner
            status
            (field (characters "updated") stored)
            today)
        ≡ request_dateless
  unfolding render_page request_dateless
  request-without_dates h =
      without_dates-page_lines request.target request.title (type_text request.page_type)
        (status_text status) (owner_text owner) (field (characters "updated") stored) today
        request.summary (body_text (of_update request)) h

  stored-without_dates :
      All IsLine (stored_lines stored)
      → body_loop true false [] (strip_bom source) ≡ some body
      → without_dates (recanonicalize_frontmatter source stored) ≡ stored_dateless
  unfolding stored_dateless
  stored-without_dates h e =
      ap without_dates (recanonicalize_frontmatter-lines source stored body e)
      ∙ without_dates-page_lines (field (characters "slug") stored)
          (field (characters "title") stored) (field (characters "type") stored)
          (field (characters "status") stored) (field (characters "owner") stored)
          (field (characters "updated") stored) (field (characters "verified") stored)
          (field (characters "summary") stored) body h

  same-content :
      All IsLine request_lines
      → All IsLine (stored_lines stored)
      → request_dateless ≡ stored_dateless
      → SameContent request stored body
  unfolding request_dateless stored_dateless
  same-content p q e =
      let (lines, bodies) =
        with_lines_unique
          (dateless_lines request.target request.title (type_text request.page_type)
            (status_text status) (owner_text owner) request.summary)
          (dateless_lines (field (characters "slug") stored) (field (characters "title") stored)
            (field (characters "type") stored) (field (characters "status") stored)
            (field (characters "owner") stored) (field (characters "summary") stored))
          (body_text (of_update request)) body tt
          (dateless_lines-IsLine request.target request.title (type_text request.page_type)
            (status_text status) (owner_text owner) (field (characters "updated") stored) today
            request.summary p)
          (dateless_lines-IsLine (field (characters "slug") stored)
            (field (characters "title") stored) (field (characters "type") stored)
            (field (characters "status") stored) (field (characters "owner") stored)
            (field (characters "updated") stored) (field (characters "verified") stored)
            (field (characters "summary") stored) q)
          e in
      (
        sym (ap (drop {A = ℕ} 7) lines.1.1.0),
        sym (ap (drop {A = ℕ} 6) lines.1.1.1.0),
        sym (ap (drop {A = ℕ} 9) lines.1.1.1.1.1.1.0),
        sym bodies,
      )

  content-same :
      field (characters "slug") stored ≡ request.target
      → field (characters "owner") stored ≡ owner_text owner
      → field (characters "status") stored ≡ status_text status
      → SameContent request stored body
      → request_dateless ≡ stored_dateless
  unfolding request_dateless stored_dateless
  content-same slug_is owner_is status_is same =
      let (title_is, type_is, summary_is, body_is) = same in
      dateless_same request.target request.title (type_text request.page_type) (status_text status)
        (owner_text owner) request.summary (body_text (of_update request))
        (field (characters "slug") stored) (field (characters "title") stored)
        (field (characters "type") stored) (field (characters "status") stored)
        (field (characters "owner") stored) (field (characters "summary") stored) body (sym slug_is)
        (sym title_is) (sym type_is) (sym status_is) (sym owner_is) (sym summary_is) (sym body_is)

  -- The content is the same exactly if the title, the type, the summary and the body are.
  pub content_changes_iff :
      All IsLine request_lines
      → All (λ e. IsLine e.1) stored
      → body_loop true false [] (strip_bom source) ≡ some body
      → field (characters "slug") stored ≡ request.target
      → field (characters "owner") stored ≡ owner_text owner
      → field (characters "status") stored ≡ status_text status
      → (content_changes o request source stored request.target owner status
            (field (characters "updated") stored)
            today
          ≡ false)
        ↔ SameContent request stored body
  unfolding content_changes
  content_changes_iff p values e slug_is owner_is status_is =
      let q = stored_lines-IsLine stored values in
      let left = request-without_dates p in
      let right = stored-without_dates q e in
      let told = text_eq_iff request_dateless stored_dateless in
      rw (left, right)
        (
          (λ h. same-content p q (told.0 (not-false (text_eq request_dateless stored_dateless) h))),
          (λ same. ap not (told.1 (content-same slug_is owner_is status_is same))),
        )
