-- ===== src/Core/Rank/Dense/Order.antt =====
-- The order of chunks by score in crates/yams-core/src/rank.rs.
use yams.Prelude.{◌≡◌, refl, ◌⊎◌, Bool, true, arith}
use yams.Core.Text.Order.{text_eq_iff}
use yams.Core.Text.Paths.{path_le-TextOrder}
use yams.Core.Floats.{TotalOrder}
use yams.Core.Rank.{Vectors, ChunkId, chunk_id_le}
use yams.Core.Rank.Descending.{descending_le_refl, descending_le_trans, descending_le_total}
use yams.Core.Rank.Dense.{ScoredChunk, scored_le}

chunk_id_le_refl : (a : ChunkId) → chunk_id_le a a ≡ true
unfolding chunk_id_le
chunk_id_le_refl a = let e = (text_eq_iff a.page a.page).1 refl in rw e (ground arith)

chunk_id_le_trans :
    (a b c : ChunkId) → chunk_id_le a b ≡ true → chunk_id_le b c ≡ true → chunk_id_le a c ≡ true
unfolding chunk_id_le
chunk_id_le_trans a b c p q =
    let ab = text_eq_iff a.page b.page in
    let bc = text_eq_iff b.page c.page in
    let ac = text_eq_iff a.page c.page in
    let t = path_le-TextOrder.le_trans a.page b.page c.page in
    let anti = path_le-TextOrder.le_antisymm a.page b.page in ground arith

chunk_id_le_total : (a b : ChunkId) → (chunk_id_le a b ≡ true) ⊎ (chunk_id_le b a ≡ true)
unfolding chunk_id_le
chunk_id_le_total a b =
    let ab = text_eq_iff a.page b.page in
    let ba = text_eq_iff b.page a.page in
    let total = path_le-TextOrder.le_total a.page b.page in ground arith

module _ {F G : Type 0} (v : Vectors F G) (order : TotalOrder v.floats) where
  abbrev score_of : ScoredChunk F → F
  score_of c = c.score

  abbrev tie : ScoredChunk F → ScoredChunk F → Bool
  tie l r = chunk_id_le l.id r.id

  pub scored_le_refl : (a : ScoredChunk F) → scored_le v a a ≡ true
  unfolding scored_le
  scored_le_refl a = descending_le_refl v.floats score_of tie order a (chunk_id_le_refl a.id)

  pub scored_le_trans :
      (a b c : ScoredChunk F)
      → scored_le v a b ≡ true
      → scored_le v b c ≡ true
      → scored_le v a c ≡ true
  unfolding scored_le
  scored_le_trans a b c p q =
      descending_le_trans v.floats score_of tie order a b c (chunk_id_le_trans a.id b.id c.id) p q

  pub scored_le_total : (a b : ScoredChunk F) → (scored_le v a b ≡ true) ⊎ (scored_le v b a ≡ true)
  unfolding scored_le
  scored_le_total a b =
      descending_le_total v.floats score_of tie order a b (chunk_id_le_total a.id b.id)
