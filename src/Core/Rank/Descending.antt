-- ===== src/Core/Rank/Descending.antt =====
-- `right.score.total_cmp(&left.score).then_with(...)` of crates/yams-core/src/rank.rs: by a score,
-- descending, and then by another order.
use yams.Prelude.{◌≡◌, refl, ◌⊎◌, Bool, true, false, arith, if◌then◌else◌}
use yams.Core.Floats.{Floats, TotalOrder}

module _ {F A : Type 0} (fl : Floats F) (score : A → F) (tie : A → A → Bool) where
  -- The comparator is not `Greater`.
  unfoldable pub descending_le : A → A → Bool
  descending_le left right =
      if fl.total_le (score right) (score left)
      then (if fl.total_le (score left) (score right) then tie left right else true)
      else false

  module _ (order : TotalOrder fl) where
    pub descending_le_refl : (a : A) → tie a a ≡ true → descending_le a a ≡ true
    unfolding descending_le
    descending_le_refl a h = rw (order.total_refl (score a), h) refl

    pub descending_le_trans :
        (a b c : A)
        → (tie a b ≡ true → tie b c ≡ true → tie a c ≡ true)
        → descending_le a b ≡ true
        → descending_le b c ≡ true
        → descending_le a c ≡ true
    unfolding descending_le
    descending_le_trans a b c h p q =
        let cba = order.total_trans (score c) (score b) (score a) in
        let abc = order.total_trans (score a) (score b) (score c) in
        let acb = order.total_trans (score a) (score c) (score b) in
        let bac = order.total_trans (score b) (score a) (score c) in ground arith

    pub descending_le_total :
        (a b : A)
        → (tie a b ≡ true) ⊎ (tie b a ≡ true)
        → (descending_le a b ≡ true) ⊎ (descending_le b a ≡ true)
    unfolding descending_le
    descending_le_total a b h = let total = order.total_total (score a) (score b) in ground arith
