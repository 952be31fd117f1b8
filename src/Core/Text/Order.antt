-- ===== src/Core/Text/Order.antt =====
-- `==`, `cmp` and `starts_with` of Rust's strings, on their bytes or characters in order.
use yams.Prelude.{
  ℕ, zero, suc, take, All-take, List, All, ◌≢◌, ◌≡◌, ◌↔◌, ◌⊎◌, inl, inr, refl, Bool, true, false,
  ◌&&◌, [], ◌∷◌, ◌++◌, arith, ltb, ◌==◌, if◌then◌else◌,
}
use yams.Core.Text.{Text}

unfoldable pub text_eq : Text → Text → Bool
text_eq [] [] = true
text_eq (c ∷ cs) (d ∷ ds) = c == d && text_eq cs ds
text_eq _ _ = false

-- `cmp` is not `Greater`.
unfoldable pub text_le : Text → Text → Bool
text_le [] ds = true
text_le (c ∷ cs) [] = false
text_le (c ∷ cs) (d ∷ ds) = if c == d then text_le cs ds else ltb c d

unfoldable pub starts_with : Text → Text → Bool
starts_with t [] = true
starts_with [] (d ∷ ds) = false
starts_with (c ∷ cs) (d ∷ ds) = c == d && starts_with cs ds

pub text_eq_iff : (t u : Text) → (text_eq t u ≡ true) ↔ (t ≡ u)
unfolding text_eq
text_eq_iff [] [] = ground arith
text_eq_iff [] (d ∷ ds) = ground arith
text_eq_iff (c ∷ cs) [] = ground arith
text_eq_iff (c ∷ cs) (d ∷ ds) = ground (arith, text_eq_iff cs ds)

pub text_le_refl : (t : Text) → text_le t t ≡ true
unfolding text_le
text_le_refl [] = refl
text_le_refl (c ∷ cs) = ground (arith, text_le_refl cs)

pub text_le_trans : (t u v : Text) → text_le t u ≡ true → text_le u v ≡ true → text_le t v ≡ true
unfolding text_le
text_le_trans [] u v p q = refl
text_le_trans (c ∷ cs) [] v p q = cc
text_le_trans (c ∷ cs) (d ∷ ds) [] p q = cc
text_le_trans (c ∷ cs) (d ∷ ds) (e ∷ es) p q = ground (arith, text_le_trans cs ds es)

pub text_le_total : (t u : Text) → (text_le t u ≡ true) ⊎ (text_le u t ≡ true)
unfolding text_le
text_le_total [] u = inl refl
text_le_total (c ∷ cs) [] = inr refl
text_le_total (c ∷ cs) (d ∷ ds) = ground (arith, text_le_total cs ds)

pub text_le_antisymm : (t u : Text) → text_le t u ≡ true → text_le u t ≡ true → t ≡ u
unfolding text_le
text_le_antisymm [] [] p q = refl
text_le_antisymm [] (d ∷ ds) p q = cc
text_le_antisymm (c ∷ cs) [] p q = cc
text_le_antisymm (c ∷ cs) (d ∷ ds) p q = ground (arith, text_le_antisymm cs ds)

pub starts_with-append : (t u : Text) → starts_with t u ≡ true → (v : Text) × (t ≡ u ++ v)
unfolding starts_with
starts_with-append t [] h = (t, refl)
starts_with-append [] (d ∷ ds) h = cc
starts_with-append (c ∷ cs) (d ∷ ds) h =
    let (v, e) = starts_with-append cs ds (ground arith) in (v, ground arith)

pub append-starts_with : (u v : Text) → starts_with (u ++ v) u ≡ true
unfolding starts_with
append-starts_with [] v = refl
append-starts_with (c ∷ cs) v = ground (arith, append-starts_with cs v)

-- No text of the list comes twice.
abbrev pub Distinct : List Text → Type 0
Distinct [] = Unit
Distinct (t ∷ ts) = All (λ u. t ≢ u) ts × Distinct ts

-- What a total order of texts gives.
pub record TextOrder (le : Text → Text → Bool) : Type 0 where
  pub le_refl : (t : Text) → le t t ≡ true
  pub le_trans : (t u v : Text) → le t u ≡ true → le u v ≡ true → le t v ≡ true
  pub le_total : (t u : Text) → (le t u ≡ true) ⊎ (le u t ≡ true)
  pub le_antisymm : (t u : Text) → le t u ≡ true → le u t ≡ true → t ≡ u

pub text_le-TextOrder : TextOrder text_le
text_le-TextOrder = record {
  le_refl = text_le_refl;
  le_trans = text_le_trans;
  le_total = text_le_total;
  le_antisymm = text_le_antisymm;
}

pub Distinct-take : (n : ℕ) (ts : List Text) → Distinct ts → Distinct (take n ts)
Distinct-take zero ts h = tt
Distinct-take (suc n) [] h = tt
Distinct-take (suc n) (t ∷ ts) h = (All-take (λ u. t ≢ u) n ts h.0, Distinct-take n ts h.1)
