-- ===== src/Cases/Resolution/Counts.antt =====
-- The article counts of the Cases and their links, when a resolution is written.
use shkandal.Prelude.{
  [], ◌∷◌, ◌++◌, true, ◌≡◌, refl, All, arith, ℕ, map, Bool, Option, any, List, ◌==◌, ◌+◌,
  if◌then◌else◌, ap, subst, false, inl, inr, ◌≢◌, ==_refl, Bool-cases, ◌∙◌, All-intro, All-In,
  Option-cases,
}
use shkandal.Cases.{CaseTables, CaseArticle}
use shkandal.Cases.Resolution.{
  count_link, is_link, insert_link, persist_links, persist_link, article_link,
}
use shkandal.Contracts.Resolution.{CaseLinkDecision}
use shkandal.Jobs.{Instant}
use shkandal.Planning.Tables.{Case, Article}
use shkandal.Results.{ok, ok_eq, not_ok, >>=-ok}
use shkandal.Sql.Rows.{
  IsUnique, count_where, update_where, map-update_where, IsUnique-append_row, All-append,
}
use shkandal.Sql.Writes.{insert_or_ignore}
use shkandal.Text.{Text, text_eq}

abbrev pub link_key : CaseArticle → ℕ × ℕ
link_key l = (l.case_id, l.article_id)

-- Ids and links are unique, a link is to a Case of the table, and each Case counts its links.
abbrev pub IsCounted : CaseTables → Type 0
IsCounted t =
    IsUnique (map (λ c. c.id) t.cases)
    × IsUnique (map link_key t.case_articles)
    × All (λ l. any (λ c. c.id == l.case_id) t.cases ≡ true) t.case_articles
    × All (λ c. c.article_count ≡ count_where (λ l. l.case_id == c.id) t.case_articles) t.cases

pub count_where-append :
    {Row : Type 0} (p : Row → Bool) (rows : List Row) (new : Row)
    → count_where p (rows ++ new ∷ []) ≡ count_where p rows + (if p new then 1 else 0)
unfolding count_where
count_where-append p [] new = omega arith
count_where-append p (r ∷ rows) new = omega (arith, count_where-append p rows new)

module _ (case_id : ℕ) (published_at : Option Instant) where
  unfoldable pub counted : List Case → List Case
  unfolding update_where
  counted cases = update_where (λ c. c.id == case_id) (count_link published_at) cases

  counted-ids : (cases : List Case) → map (λ c. c.id) (counted cases) ≡ map (λ c. c.id) cases
  unfolding counted count_link
  counted-ids cases =
      map-update_where (λ c. c.id) (λ c. c.id == case_id) (count_link published_at) cases
        (λ c. refl)

  pub counted-any :
      (k : ℕ) (cases : List Case)
      → any (λ c. c.id == k) (counted cases) ≡ any (λ c. c.id == k) cases
  unfolding counted count_link update_where
  counted-any k [] = refl
  counted-any k (c ∷ cases) = ground (arith, counted-any k cases)

  -- One more link to the Case, one more counted.
  counted-counts :
      (links : List CaseArticle) (new : CaseArticle) (cases : List Case)
      → new.case_id ≡ case_id
      → All (λ c. c.article_count ≡ count_where (λ l. l.case_id == c.id) links) cases
      → All
          (λ c. c.article_count ≡ count_where (λ l. l.case_id == c.id) (links ++ new ∷ []))
          (counted cases)
  unfolding counted count_link update_where
  counted-counts links new [] own h = tt
  counted-counts links new (c ∷ cases) own h =
      let more = count_where-append (λ l. l.case_id == c.id) links new in
      (ground (arith, more), counted-counts links new cases own h.1)

pub new_link-apart :
    (new : CaseArticle) (links : List CaseArticle)
    → any (is_link new.case_id new.article_id) links ≡ false
    → All (λ k. link_key new ≢ k) (map link_key links)
new_link-apart new [] h = tt
new_link-apart new (l ∷ links) h = (
  (λ e. ground (arith, same e, ==_refl new.case_id, ==_refl new.article_id)),
  new_link-apart new links (ground arith),
)
  where
    same : link_key new ≡ link_key l → (new.case_id ≡ l.case_id) × (new.article_id ≡ l.article_id)
    same e = (ap (λ k. k.0) e, ap (λ k. k.1) e)

module _ (uuid : Text → Option ℕ) (article : Article) (run_id : Option ℕ)
    (candidate_ids : List Text) where
  insert_link-IsCounted :
      (case_id : ℕ) (link : CaseLinkDecision) (t : CaseTables) {t' : CaseTables}
      → IsCounted t
      → insert_link uuid article run_id candidate_ids case_id link t ≡ ok t'
      → IsCounted t'
  unfolding insert_link insert_or_ignore counted
  insert_link-IsCounted case_id link t {t'} (ids, keys, known, counts) e =
      elim (Bool-cases (any (is_link case_id article.id) t.case_articles)) [
        | inl old ↦ subst IsCounted (ok_eq (rw old at e)) (ids, keys, known, counts)
        | inr new ↦ elim (Bool-cases (any (λ c. c.id == case_id) t.cases)) [
          | inl has ↦ subst IsCounted (ok_eq (rw (new, has) at e)) (
            rw (counted-ids case_id article.published_at t.cases) ids,
            IsUnique-append_row link_key t.case_articles new_row keys
                (new_link-apart new_row t.case_articles new),
            All-append
                (λ l.
                  any (λ c. c.id == l.case_id) (counted case_id article.published_at t.cases)
                  ≡ true)
                t.case_articles (new_row ∷ [])
                (All-intro _ t.case_articles (λ l m.
                  still l.case_id
                  ∙ All-In (λ k. any (λ c. c.id == k.case_id) t.cases ≡ true) t.case_articles known
                      m))
                (still case_id ∙ has, tt),
            counted-counts case_id article.published_at t.case_articles new_row t.cases refl counts,
          )
          | inr lacks ↦ not_ok (rw (new, lacks) at e)
        ]
      ]
    where
      new_row : CaseArticle
      new_row = article_link article run_id case_id link.link_reason_uk link.confidence

      still :
          (k : ℕ)
          → any (λ c. c.id == k) (counted case_id article.published_at t.cases)
            ≡ any (λ c. c.id == k) t.cases
      still k = counted-any case_id article.published_at k t.cases

  pub persist_links-IsCounted :
      (links : List CaseLinkDecision) (t : CaseTables) {r : List ℕ × CaseTables}
      → IsCounted t
      → persist_links uuid article run_id candidate_ids links t ≡ ok r
      → IsCounted r.1
  unfolding persist_links persist_link
  persist_links-IsCounted [] t {r} w e = subst (λ s. IsCounted s.1) (ok_eq e) w
  persist_links-IsCounted (link ∷ links) t {r} w e =
      let (first, one, later) =
        >>=-ok (persist_link uuid article run_id candidate_ids link t) _ e in
      let (rest, more, end) =
        >>=-ok (persist_links uuid article run_id candidate_ids links first.1) _ later in
      subst (λ s. IsCounted s.1) (ok_eq end) (persist_links-IsCounted links first.1 (step one) more)
    where
      step :
          {first : ℕ × CaseTables}
          → persist_link uuid article run_id candidate_ids link t ≡ ok first
          → IsCounted first.1
      step {first} one = elim (Bool-cases (any (text_eq link.case_id) candidate_ids)) [
        | inl known ↦ elim (Option-cases (uuid link.case_id)) [
          | inl bad ↦ not_ok (rw (known, bad) at one)
          | inr (case_id, good) ↦
              let (t', made, end) =
                >>=-ok (insert_link uuid article run_id candidate_ids case_id link t) _
                  (rw (known, good) at one) in
              subst (λ s. IsCounted s.1) (ok_eq end) (insert_link-IsCounted case_id link t w made)
        ]
        | inr unknown ↦ not_ok (rw unknown at one)
      ]
