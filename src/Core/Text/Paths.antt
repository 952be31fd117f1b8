-- ===== src/Core/Text/Paths.antt =====
-- `Ord` of Rust's paths, on canonical ones: by the components, which `/` separates.
use yams.Prelude.{
  ◌≡◌, refl, sym, ap, ◌∙◌, ◌⊎◌, inl, inr, Bool, true, false, List, [], ◌∷◌, arith, if◌then◌else◌,
}
use yams.Core.Text.{Text, split, join, join-split}
use yams.Core.Text.Order.{
  text_eq, text_le, text_eq_iff, text_le_trans, text_le_total, text_le_antisymm, TextOrder,
}

unfoldable pub components_le : List Text → List Text → Bool
components_le [] us = true
components_le (t ∷ ts) [] = false
components_le (t ∷ ts) (u ∷ us) = if text_eq t u then components_le ts us else text_le t u

unfoldable pub path_le : Text → Text → Bool
unfolding components_le
path_le t u = components_le (split b'/' t) (split b'/' u)

components_le_refl : (ts : List Text) → components_le ts ts ≡ true
unfolding components_le
components_le_refl [] = refl
components_le_refl (t ∷ ts) = let e = (text_eq_iff t t).1 refl in rw e (components_le_refl ts)

components_le_trans :
    (ts us vs : List Text)
    → components_le ts us ≡ true
    → components_le us vs ≡ true
    → components_le ts vs ≡ true
unfolding components_le
components_le_trans [] us vs p q = refl
components_le_trans (t ∷ ts) [] vs p q = cc
components_le_trans (t ∷ ts) (u ∷ us) [] p q = cc
components_le_trans (t ∷ ts) (u ∷ us) (v ∷ vs) p q =
    let tu = text_eq_iff t u in
    let uv = text_eq_iff u v in
    let tv = text_eq_iff t v in
    let trans = text_le_trans t u v in
    let anti = text_le_antisymm t u in let ih = components_le_trans ts us vs in ground arith

components_le_total :
    (ts us : List Text) → (components_le ts us ≡ true) ⊎ (components_le us ts ≡ true)
unfolding components_le
components_le_total [] us = inl refl
components_le_total (t ∷ ts) [] = inr refl
components_le_total (t ∷ ts) (u ∷ us) =
    let tu = text_eq_iff t u in
    let ut = text_eq_iff u t in
    let total = text_le_total t u in let ih = components_le_total ts us in ground arith

components_le_antisymm :
    (ts us : List Text) → components_le ts us ≡ true → components_le us ts ≡ true → ts ≡ us
unfolding components_le
components_le_antisymm [] [] p q = refl
components_le_antisymm [] (u ∷ us) p q = cc
components_le_antisymm (t ∷ ts) [] p q = cc
components_le_antisymm (t ∷ ts) (u ∷ us) p q =
    let tu = text_eq_iff t u in
    let ut = text_eq_iff u t in
    let anti = text_le_antisymm t u in let ih = components_le_antisymm ts us in ground arith

path_le_antisymm : (t u : Text) → path_le t u ≡ true → path_le u t ≡ true → t ≡ u
unfolding path_le
path_le_antisymm t u p q =
    let same = components_le_antisymm (split b'/' t) (split b'/' u) p q in
    sym (join-split b'/' t) ∙ ap (join (b'/' ∷ [])) same ∙ join-split b'/' u

pub path_le-TextOrder : TextOrder path_le
unfolding path_le
path_le-TextOrder = record {
  le_refl = λ t. components_le_refl (split b'/' t);
  le_trans = λ t u v. components_le_trans (split b'/' t) (split b'/' u) (split b'/' v);
  le_total = λ t u. components_le_total (split b'/' t) (split b'/' u);
  le_antisymm = path_le_antisymm;
}
