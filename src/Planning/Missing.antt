-- ===== src/Planning/Missing.antt =====
-- What the planner's queries find, and the jobs that its passes leave behind.
use shkandal.Prelude.{
  ℕ, some, true, false, ◌≡◌, Bool, Option, List, In, length, ◌<◌, All, ◌==◌, keep_if, In-keep_if,
  keep_if-In, sym, subst, arith, none, ==_iff, ◌∙◌,
}
use shkandal.Planning.Queries.{
  articles_missing_card_query, missing_card, select_ids, oldest_article,
}
use shkandal.Planning.Tables.{Article, ArticleGateDecision, Tables, ArticleCard}
use shkandal.Sql.Join.{limit_rows, join, outer_join}
use shkandal.Sql.Join.Laws.{
  In-map, In-limit_rows, limit_rows-whole, length-map, map-In, join-In, In-outer_join, In-join,
  outer_join-In,
}
use shkandal.Sql.Order.{Comparison, order_by, by_key}
use shkandal.Sql.Order.Laws.{In-order_by, order_by-In}

module _ {ℓ} {Row : Type ℓ} (id : Row → ℕ) (condition : Row → Bool) (order : Comparison Row) where
  In-select_ids :
      {i : ℕ} (limit : Option ℕ) (rows : List Row)
      → In i (select_ids id condition order limit rows)
      → (r : Row) × In r rows × (condition r ≡ true) × (id r ≡ i)
  unfolding select_ids
  In-select_ids limit rows m =
      let (r, n, e) = In-map id (limit_rows limit (order_by order (keep_if condition rows))) m in
      let kept = In-limit_rows limit (order_by order (keep_if condition rows)) n in
      let (inside, fits) =
        In-keep_if condition rows (In-order_by order (keep_if condition rows) kept) in
      (r, inside, fits, e)

  select_ids-In :
      {r : Row} (n : ℕ) (rows : List Row)
      → In r rows
      → condition r ≡ true
      → length (select_ids id condition order (some n) rows) < n
      → In (id r) (select_ids id condition order (some n) rows)
  unfolding select_ids
  select_ids-In {r} n rows m fits short =
      let sorted = order_by order (keep_if condition rows) in
      let whole =
        limit_rows-whole n sorted (omega (arith, length-map id (limit_rows (some n) sorted))) in
      map-In id (limit_rows (some n) sorted)
        (rw whole (order_by-In order (keep_if condition rows) (keep_if-In condition rows m fits)))

-- The rows that the query of the card pass chooses from.
abbrev gated : Tables → List (Article × ArticleGateDecision)
gated t = join (λ a g. g.article_id == a.id) t.articles t.gate_decisions

abbrev card_rows : Tables → List ((Article × ArticleGateDecision) × Option ArticleCard)
card_rows t = outer_join (λ p c. c.article_id == p.0.id) (gated t) t.cards

-- The article with a gate decision for it and no card.
abbrev pub LacksCard : ℕ → Article → ArticleGateDecision → Tables → Type 0
LacksCard article_id a g t =
    In a t.articles
    × In g t.gate_decisions
    × (a.id ≡ article_id)
    × (g.article_id ≡ article_id)
    × (g.is_case_candidate ≡ true)
    × All (λ c. (c.article_id == article_id) ≡ false) t.cards

-- The card pass looks at articles only that the gate accepted as Case candidates and that have no
-- card.
pub articles_missing_card_query-LacksCard :
    (limit article_id : ℕ) (t : Tables)
    → In article_id (articles_missing_card_query limit t)
    → (a : Article) × (g : ArticleGateDecision) × LacksCard article_id a g t
unfolding articles_missing_card_query missing_card
articles_missing_card_query-LacksCard limit article_id t m =
    let (r, inside, fits, e) = In-select_ids _ missing_card _ (some limit) (card_rows t) m in
    lacking r inside fits e
  where
    lacking :
        (r : (Article × ArticleGateDecision) × Option ArticleCard)
        → In r (card_rows t)
        → missing_card r ≡ true
        → r.0.0.id ≡ article_id
        → (a : Article) × (g : ArticleGateDecision) × LacksCard article_id a g t
    lacking ((a, g), some c) inside fits e = absurd (ground arith)
    lacking ((a, g), none) inside fits e =
        let (joined, free) =
          In-outer_join (λ p c. c.article_id == p.0.id) (gated t) t.cards inside in
        let (m, n, own) =
          In-join (λ a g. g.article_id == a.id) t.articles t.gate_decisions joined in
        (
          a,
          g,
          (
            m,
            n,
            e,
            (==_iff g.article_id a.id).0 own ∙ e,
            ground arith,
            subst (λ i. All (λ c. (c.article_id == i) ≡ false) t.cards) e free,
          ),
        )

-- When the card pass finds fewer articles than its limit, it has found every article that the gate
-- accepted as a Case candidate and that has no card.
pub articles_missing_card_query_complete :
    (limit article_id : ℕ) (t : Tables) (a : Article) (g : ArticleGateDecision)
    → LacksCard article_id a g t
    → length (articles_missing_card_query limit t) < limit
    → In article_id (articles_missing_card_query limit t)
unfolding articles_missing_card_query missing_card
articles_missing_card_query_complete limit article_id t a g (m, n, e, f, candidate, free) short =
    let joined =
      join-In (λ a g. g.article_id == a.id) t.articles t.gate_decisions m n
        ((==_iff g.article_id a.id).1 (f ∙ sym e)) in
    let row =
      outer_join-In (λ p c. c.article_id == p.0.id) (gated t) t.cards joined
        (subst (λ i. All (λ c. (c.article_id == i) ≡ false) t.cards) (sym e) free) in
    subst (λ i. In i (articles_missing_card_query limit t)) e
      (select_ids-In (λ p. p.0.0.id) missing_card (by_key (λ p. p.0.0) oldest_article) limit
        (card_rows t) row (ground arith) short)
