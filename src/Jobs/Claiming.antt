-- ===== src/Jobs/Claiming.antt =====
-- What a claim hands out, and what it leaves alone.
pub mod Best
pub mod Leases
use shkandal.Sql.Order.{IsOrder}
use shkandal.Sql.Order.Laws.{
  asc-IsOrder, desc-IsOrder, nulls_first-IsOrder, nulls_last-IsOrder, by_key-IsOrder,
  then_by-IsOrder,
}
use shkandal.Jobs.Claim.{ArticleTable, claim_order, article_published_at, article_created_at}

-- The ORDER BY of a claim is an order of the rows.
pub claim_order-IsOrder : (articles : ArticleTable) → IsOrder (claim_order articles)
unfolding claim_order
claim_order-IsOrder articles = then_by-IsOrder (by_key-IsOrder desc-IsOrder (λ j. j.priority)) (
    then_by-IsOrder (by_key-IsOrder (nulls_first-IsOrder asc-IsOrder) (λ j. j.run_after)) (
      then_by-IsOrder
        (by_key-IsOrder (nulls_last-IsOrder asc-IsOrder) (article_published_at articles))
        (then_by-IsOrder
          (by_key-IsOrder (nulls_last-IsOrder asc-IsOrder) (article_created_at articles))
          (then_by-IsOrder (by_key-IsOrder asc-IsOrder (λ j. j.created_at))
            (by_key-IsOrder asc-IsOrder (λ j. j.id))))))
