-- ===== src/Cases/Resolution/Writable.antt =====
-- What a recheck leaves can be written: persist_resolution raises none of its errors.
use text.Mathlib.Text.{◌==◌ as str_eq}
use shkandal.Prelude.{
  none, some, [], ◌∷◌, ◌++◌, inl, inr, true, false, ◌≡◌, refl, arith, sym, Option, List, ℕ, any,
  Bool, ◌==◌, Bool-cases, map, All, Option-cases, All-intro, All-In, ◌∙◌, subst, In, ==_iff,
}
use shkandal.Cases.{CaseTables}
use shkandal.Cases.Publication.Views.{find_row-missing}
use shkandal.Cases.Resolution.{
  persist_resolution, insert_link, persist_links, persist_link, is_link, article_link, count_link,
  add_cases,
}
use shkandal.Cases.Resolution.Fallback.{recheck_resolution}
use shkandal.Cases.Resolution.Persisted.{has_k, persist_link-has}
use shkandal.Cases.Resolution.Recheck.{candidate_of, get_active_case, Services, Candidate}
use shkandal.Cases.Resolution.Rechecked.{recheck_resolution-IsConfirmed}
use shkandal.Contracts.Resolution.{CaseLinkDecision, CaseResolutionOutput}
use shkandal.Jobs.{Instant}
use shkandal.Planning.Tables.{Article, Case, ArticleCard}
use shkandal.Results.{ok}
use shkandal.Sql.Rows.{find_row, update_where, find_row-In}
use shkandal.Sql.Writes.{insert_or_ignore}
use shkandal.Text.{Text, text_eq, text_eq_iff}

module _ (uuid : Text → Option ℕ) (article : Article) (run_id : Option ℕ)
    (candidate_ids : List Text) where
  -- The link is to a candidate whose id is that of a Case in the table.
  abbrev IsWritable : CaseTables → CaseLinkDecision → Type 0
  IsWritable t link =
      (case_id : ℕ) × (any (text_eq link.case_id) candidate_ids ≡ true)
      × (uuid link.case_id ≡ some case_id)
      × (any (λ c. c.id == case_id) t.cases ≡ true)

  insert_link-returns :
      (case_id : ℕ) (link : CaseLinkDecision) (t : CaseTables)
      → any (λ c. c.id == case_id) t.cases ≡ true
      → (t' : CaseTables) × (insert_link uuid article run_id candidate_ids case_id link t ≡ ok t')
  unfolding insert_link insert_or_ignore
  insert_link-returns case_id link t has =
      elim (Bool-cases (any (is_link case_id article.id) t.case_articles)) [
        | inl old ↦ (t, rw old refl)
        | inr new ↦ (
          record t {
            case_articles =
                t.case_articles
                ++ article_link article run_id case_id link.link_reason_uk link.confidence ∷ [];
            cases = update_where (λ c. c.id == case_id) (count_link article.published_at) t.cases;
          },
          rw (new, has) refl,
        )
      ]

  persist_links-returns :
      (links : List CaseLinkDecision) (t : CaseTables)
      → All (IsWritable t) links
      → (r : List ℕ × CaseTables) × (persist_links uuid article run_id candidate_ids links t ≡ ok r)
  unfolding persist_links persist_link has_k
  persist_links-returns [] t h = (([], t), refl)
  persist_links-returns (link ∷ links) t ((case_id, known, good, has), h) =
      let (t', made) = insert_link-returns case_id link t has in
      let first : persist_link uuid article run_id candidate_ids link t ≡ ok (case_id, t') =
        rw (known, good, made) refl in
      let (rest, more) = persist_links-returns links t' (
        All-intro _ links (λ l m.
          let (k, known', good', has') = All-In (IsWritable t) links h m in
          (
            k,
            known',
            good',
            sym (persist_link-has uuid article run_id candidate_ids k link t first) ∙ has',
          ))) in
      ((case_id ∷ rest.0, rest.1), rw (first, more) refl)

candidate_of-known :
    (candidates : List Candidate) (case_id : Text) {candidate : Candidate}
    → candidate_of candidates case_id ≡ some candidate
    → any (text_eq case_id) (map (λ c. c.case_id) candidates) ≡ true
unfolding candidate_of
candidate_of-known [] case_id e = cc
candidate_of-known (c ∷ candidates) case_id {candidate} e =
    elim (Option-cases (candidate_of candidates case_id)) [
      | inr (later, found) ↦ ground (arith, candidate_of-known candidates case_id found)
      | inl nothing ↦ elim (Bool-cases (text_eq c.case_id case_id)) [
        | inl same ↦
            rw ((text_eq_iff case_id c.case_id).1 (sym ((text_eq_iff c.case_id case_id).0 same)))
              refl
        | inr other ↦ nothing_eq (rw (candidate_of, nothing, other) at e)
      ]
    ]
  where
    nothing_eq : {C : Type 0} → Path (Option Candidate) none (some candidate) → C
    nothing_eq q = cc

get_active_case-has :
    (case_id : ℕ) (t : CaseTables) {case : Case}
    → get_active_case case_id t ≡ some case
    → any (λ c. c.id == case_id) t.cases ≡ true
unfolding get_active_case
get_active_case-has case_id t {case} e = elim (Bool-cases (any (λ c. c.id == case_id) t.cases)) [
  | inl has ↦ has
  | inr lacks ↦ nothing_eq (rw (get_active_case, missing t.cases lacks) at e)
]
  where
    nothing_eq : {C : Type 0} → Path (Option Case) none (some case) → C
    nothing_eq q = cc

    missing :
        (cases : List Case)
        → any (λ c. c.id == case_id) cases ≡ false
        → find_row (λ c. c.id == case_id) cases ≡ none
    missing cases h = find_row-missing (λ c. c.id == case_id) cases h

pub get_active_case-In :
    (case_id : ℕ) (t : CaseTables) {case : Case}
    → get_active_case case_id t ≡ some case
    → In case t.cases × (case.id ≡ case_id)
unfolding get_active_case
get_active_case-In case_id t {case} e =
    elim (Option-cases (find_row (λ c. c.id == case_id) t.cases)) [
      | inl gone ↦ nothing_eq (rw (get_active_case, gone) at e)
      | inr (c, found) ↦ elim (Bool-cases (str_eq c.status "active")) [
        | inl active ↦
            let (m, own) = find_row-In (λ c. c.id == case_id) t.cases found in
            let same = some_eq (rw (get_active_case, found, active) at e) in
            (
              subst (λ x. In x t.cases) same m,
              subst (λ x. x.id ≡ case_id) same ((==_iff c.id case_id).0 own),
            )
        | inr other ↦ nothing_eq (rw (get_active_case, found, other) at e)
      ]
    ]
  where
    nothing_eq : {C : Type 0} → Path (Option Case) none (some case) → C
    nothing_eq q = cc

    some_eq : {a b : Case} → some a ≡ some b → a ≡ b
    some_eq q = cc

-- A resolution that has passed its recheck is written without an error: none of its links is to a
-- Case that is not a candidate, to an id that is no UUID or to a Case that is not in the table.
pub recheck_resolution-persists :
    (services : Services) (article : Article) (card : ArticleCard) (candidates : List Candidate)
    (t : CaseTables) (has_source : Bool) (output : CaseResolutionOutput) (run_id : Option ℕ)
    (r : CaseResolutionOutput × Option ℕ) (new_id : ℕ → ℕ) (now : Instant)
    → recheck_resolution services article card candidates t has_source output run_id ≡ ok r
    → (written : List ℕ × CaseTables) × (persist_resolution services.uuid new_id now article card
          r.0 r.1
          (map (λ c. c.case_id) candidates)
          t
        ≡ ok written)
unfolding persist_resolution
recheck_resolution-persists services article card candidates t has_source output run_id r new_id now
      e =
    let found =
      recheck_resolution-IsConfirmed services article card candidates t has_source output run_id r
        e in
    let ids = map (λ c. c.case_id) candidates in
    let (linked, one) =
      persist_links-returns services.uuid article r.1 ids r.0.existing_case_links t (
        All-intro _ r.0.existing_case_links (λ link m.
          let (case_id, case, candidate, decision, good, active, known, ran, says) =
            ((found link).0 m).1 in
          (
            case_id,
            candidate_of-known candidates link.case_id known,
            good,
            get_active_case-has case_id t active,
          ))) in
    let created = add_cases article card r.1 now new_id r.0.new_cases linked.1 in
    ((linked.0 ++ created.0, created.1), rw one refl)
