-- ===== src/Cases/Resolution/Persisted.antt =====
-- The new Cases of a resolution, and a resolution as a whole, with the counts.
use shkandal.Prelude.{
  [], ◌∷◌, ◌++◌, true, ◌≡◌, refl, All, arith, ℕ, map, Bool, Option, any, List, ◌==◌, ◌+◌, ap, subst,
  false, inl, inr, ◌≢◌, ==_refl, Bool-cases, ◌∙◌, All-intro, ==_iff, All-In, Option-cases,
  any-append, All-not, sym,
}
use shkandal.Cases.{CaseTables, CaseArticle}
use shkandal.Cases.Resolution.{
  is_link, insert_link, persist_links, persist_link, add_case, new_case, article_link, add_cases,
  persist_resolution,
}
use shkandal.Cases.Resolution.Counts.{
  IsCounted, link_key, count_where-append, new_link-apart, counted, counted-any,
  persist_links-IsCounted,
}
use shkandal.Contracts.Resolution.{CaseLinkDecision, NewCaseDecision, CaseResolutionOutput}
use shkandal.Jobs.{Instant}
use shkandal.Planning.Tables.{Case, Article, ArticleCard}
use shkandal.Results.{ok, ok_eq, not_ok, >>=-ok}
use shkandal.Sql.Rows.{count_where, IsUnique-append_row, All-append}
use shkandal.Sql.Writes.{insert_or_ignore}
use shkandal.Text.{Text, text_eq}

-- The new ids are used once, and no Case has one of them.
abbrev pub AreNew : (ℕ → ℕ) → CaseTables → Type 0
AreNew new_id t =
    ((n : ℕ) → any (λ c. c.id == new_id n) t.cases ≡ false)
    × ((m n : ℕ) → new_id m ≡ new_id n → m ≡ n)

free_links :
    (k : ℕ) (cases : List Case) (links : List CaseArticle)
    → any (λ c. c.id == k) cases ≡ false
    → All (λ l. any (λ c. c.id == l.case_id) cases ≡ true) links
    → All (λ l. (l.case_id == k) ≡ false) links
free_links k cases links free known = All-intro _ links (λ l m. elim (Bool-cases (l.case_id == k)) [
  | inl own ↦ clash (
      subst (λ i. any (λ c. c.id == i) cases ≡ true) ((==_iff l.case_id k).0 own)
        (All-In (λ l. any (λ c. c.id == l.case_id) cases ≡ true) links known m))
  | inr other ↦ other
])
  where
    clash : {C : Type 0} → any (λ c. c.id == k) cases ≡ true → C
    clash h = cc

free_links-count :
    (k : ℕ) (links : List CaseArticle)
    → All (λ l. (l.case_id == k) ≡ false) links
    → count_where (λ l. l.case_id == k) links ≡ 0
unfolding count_where
free_links-count k [] h = refl
free_links-count k (l ∷ links) h = rw (h.0) (omega (arith, free_links-count k links h.1))

free_links-any :
    (k a : ℕ) (links : List CaseArticle)
    → All (λ l. (l.case_id == k) ≡ false) links
    → any (is_link k a) links ≡ false
free_links-any k a [] h = refl
free_links-any k a (l ∷ links) h = rw (h.0) (free_links-any k a links h.1)

module _ (article : Article) (card : ArticleCard) (run_id : Option ℕ) (now : Instant) where
  -- The counts of the Cases that were there.
  other_counts :
      (k : ℕ) (new : CaseArticle) (links : List CaseArticle) (cases : List Case)
      → new.case_id ≡ k
      → All (λ c. (c.id == k) ≡ false) cases
      → All (λ c. c.article_count ≡ count_where (λ l. l.case_id == c.id) links) cases
      → All (λ c. c.article_count ≡ count_where (λ l. l.case_id == c.id) (links ++ new ∷ [])) cases
  other_counts k new links [] own h counts = tt
  other_counts k new links (c ∷ cases) own h counts = (
    ground (arith, count_where-append (λ l. l.case_id == c.id) links new),
    other_counts k new links cases own h.1 counts.1,
  )

  add_case-IsCounted :
      (case_id : ℕ) (decision : NewCaseDecision) (t : CaseTables)
      → any (λ c. c.id == case_id) t.cases ≡ false
      → IsCounted t
      → IsCounted (add_case article card run_id now case_id decision t)
  unfolding add_case new_case
  add_case-IsCounted case_id decision t free (ids, keys, known, counts) = (
    IsUnique-append_row (λ c. c.id) t.cases new ids (apart t.cases free),
    IsUnique-append_row link_key t.case_articles link keys (
        new_link-apart link t.case_articles
          (free_links-any case_id article.id t.case_articles others)),
    All-append (λ l. any (λ c. c.id == l.case_id) (t.cases ++ new ∷ []) ≡ true) t.case_articles
        (link ∷ [])
        (All-intro _ t.case_articles (λ l m.
          rw
            (
              any-append (λ c. c.id == l.case_id) t.cases (new ∷ []),
              All-In (λ k. any (λ c. c.id == k.case_id) t.cases ≡ true) t.case_articles known m,
            )
            refl))
        (rw (any-append (λ c. c.id == case_id) t.cases (new ∷ []), free, ==_refl case_id) refl, tt),
    All-append
        (λ c. c.article_count ≡ count_where (λ l. l.case_id == c.id) (t.case_articles ++ link ∷ []))
        t.cases (new ∷ [])
        (other_counts case_id link t.case_articles t.cases refl
          (All-not (λ c. c.id == case_id) t.cases free) counts)
        (
          ground (
            arith,
            count_where-append (λ l. l.case_id == case_id) t.case_articles link,
            free_links-count case_id t.case_articles others,
            ==_refl case_id,
          ),
          tt,
        ),
  )
    where
      new : Case
      new = new_case card article.published_at case_id now

      link : CaseArticle
      link = article_link article run_id case_id decision.link_reason_uk decision.confidence

      others : All (λ l. (l.case_id == case_id) ≡ false) t.case_articles
      others = free_links case_id t.cases t.case_articles free known

      apart :
          (cases : List Case)
          → any (λ c. c.id == case_id) cases ≡ false
          → All (λ k. case_id ≢ k) (map (λ c. c.id) cases)
      apart [] h = tt
      apart (c ∷ cases) h = ((λ e. ground (arith, ==_iff c.id case_id)), apart cases (ground arith))

  add_cases-IsCounted :
      (new_id : ℕ → ℕ) (decisions : List NewCaseDecision) (t : CaseTables)
      → AreNew new_id t
      → IsCounted t
      → IsCounted (add_cases article card run_id now new_id decisions t).1
  unfolding add_cases add_case new_case
  add_cases-IsCounted new_id [] t fresh w = w
  add_cases-IsCounted new_id (decision ∷ decisions) t (unused, apart) w =
      add_cases-IsCounted (λ n. new_id (n + 1)) decisions _
        (still, λ m n e. omega (arith, apart (m + 1) (n + 1) e))
        (add_case-IsCounted (new_id 0) decision t (unused 0) w)
    where
      later : (n : ℕ) → (new_id 0 == new_id (n + 1)) ≡ false
      later n = ground (arith, apart 0 (n + 1), ==_iff (new_id 0) (new_id (n + 1)))

      still :
          (n : ℕ)
          → any
              (λ c. c.id == new_id (n + 1))
              (add_case article card run_id now (new_id 0) decision t).cases
            ≡ false
      still n =
          any-append (λ c. c.id == new_id (n + 1)) t.cases _ ∙ rw (unused (n + 1), later n) refl

-- The links leave the ids of the Cases alone.
module _ (uuid : Text → Option ℕ) (article : Article) (run_id : Option ℕ)
    (candidate_ids : List Text) (k : ℕ) where
  unfoldable pub has_k : CaseTables → Bool
  has_k t = any (λ c. c.id == k) t.cases

  insert_link-has :
      (case_id : ℕ) (link : CaseLinkDecision) (t : CaseTables) {t' : CaseTables}
      → insert_link uuid article run_id candidate_ids case_id link t ≡ ok t'
      → has_k t ≡ has_k t'
  unfolding insert_link insert_or_ignore counted has_k
  insert_link-has case_id link t {t'} e =
      elim (Bool-cases (any (is_link case_id article.id) t.case_articles)) [
        | inl old ↦ ap has_k (ok_eq (rw old at e))
        | inr new ↦ elim (Bool-cases (any (λ c. c.id == case_id) t.cases)) [
          | inl has ↦
              sym (counted-any case_id article.published_at k t.cases)
              ∙ ap has_k (ok_eq (rw (new, has) at e))
          | inr lacks ↦ not_ok (rw (new, lacks) at e)
        ]
      ]

  pub persist_link-has :
      (link : CaseLinkDecision) (t : CaseTables) {first : ℕ × CaseTables}
      → persist_link uuid article run_id candidate_ids link t ≡ ok first
      → has_k t ≡ has_k first.1
  unfolding persist_link
  persist_link-has link t {first} one =
      elim (Bool-cases (any (text_eq link.case_id) candidate_ids)) [
        | inl known ↦ elim (Option-cases (uuid link.case_id)) [
          | inl bad ↦ not_ok (rw (known, bad) at one)
          | inr (case_id, good) ↦
              let (t', made, end) =
                >>=-ok (insert_link uuid article run_id candidate_ids case_id link t) _
                  (rw (known, good) at one) in
              insert_link-has case_id link t made ∙ ap (λ s. has_k s.1) (ok_eq end)
        ]
        | inr unknown ↦ not_ok (rw unknown at one)
      ]

  persist_links-has :
      (links : List CaseLinkDecision) (t : CaseTables) {r : List ℕ × CaseTables}
      → persist_links uuid article run_id candidate_ids links t ≡ ok r
      → has_k t ≡ has_k r.1
  unfolding persist_links
  persist_links-has [] t {r} e = ap (λ s. has_k s.1) (ok_eq e)
  persist_links-has (link ∷ links) t {r} e =
      let (first, one, later) =
        >>=-ok (persist_link uuid article run_id candidate_ids link t) _ e in
      let (rest, more, end) =
        >>=-ok (persist_links uuid article run_id candidate_ids links first.1) _ later in
      persist_link-has link t one
      ∙ persist_links-has links first.1 more
      ∙ ap (λ s. has_k s.1) (ok_eq end)

-- Writing a resolution keeps the tables counted: ids and links stay unique, each link is to a Case of
-- the table, and the article count of each Case is the number of its links. The new ids must be
-- unused ones.
pub persist_resolution-IsCounted :
    (uuid : Text → Option ℕ) (new_id : ℕ → ℕ) (now : Instant) (article : Article)
    (card : ArticleCard) (output : CaseResolutionOutput) (run_id : Option ℕ)
    (candidate_ids : List Text) (t : CaseTables) (affected : List ℕ) (t' : CaseTables)
    → IsCounted t
    → AreNew new_id t
    → persist_resolution uuid new_id now article card output run_id candidate_ids t
      ≡ ok (affected, t')
    → IsCounted t'
unfolding persist_resolution has_k
persist_resolution-IsCounted uuid new_id now article card output run_id candidate_ids t affected t'
      w (unused, apart) e =
    let (linked, one, end) =
      >>=-ok (persist_links uuid article run_id candidate_ids output.existing_case_links t) _ e in
    let same = λ (n : ℕ).
      persist_links-has uuid article run_id candidate_ids (new_id n) output.existing_case_links t
        one in
    subst (λ s. IsCounted s.1) (ok_eq end)
      (add_cases-IsCounted article card run_id now new_id output.new_cases linked.1
        (λ n. sym (same n) ∙ unused n, apart)
        (persist_links-IsCounted uuid article run_id candidate_ids output.existing_case_links t w
          one))
