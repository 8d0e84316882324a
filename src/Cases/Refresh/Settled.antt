-- ===== src/Cases/Refresh/Settled.antt =====
-- What the planner sees of a Case after its refresh.
use shkandal.Prelude.{
  none, some, inl, inr, false, ◌≡◌, arith, ap, subst, ℕ, All, ◌==◌, ◌⊎◌, Option-cases, Option,
  Bool-cases, ◌&&◌, all, ==_iff,
}
use shkandal.Cases.{CaseTables}
use shkandal.Results.{ok, ok_eq, not_ok, >>=-ok}
use shkandal.Cases.Refresh.{handle_refresh, RefreshServices, refresh_case, refreshed, title_of}
use shkandal.Planning.Queries.{
  due_for_refresh, missing_public_summary, due_square_threshold, is_active,
}
use shkandal.Contracts.Copy.{RefreshCaseOutput}
use shkandal.Planning.Tables.{Case}
use shkandal.Jobs.{ClaimedJob}
use shkandal.Text.{Text}
use shkandal.Budgeting.{lifecycle_sample}
use shkandal.Cases.Evidence.{load_case_article_cards}
use shkandal.Sql.Rows.{find_row, find_row-In, update_where-All}

-- The Case is another one, or due again exactly when it is active and its summary is of spaces.
abbrev pub IsRefreshed : ℕ → RefreshCaseOutput → Case → Type 0
IsRefreshed case_id output c =
    ((c.id == case_id) ≡ false)
    ⊎ (due_for_refresh c ≡ (is_active c && all (λ u. u == 32) output.summary_uk))

refreshed-due :
    (output : RefreshCaseOutput) (title : Text) (c : Case)
    → due_for_refresh (refreshed output title c)
      ≡ (is_active c && all (λ u. u == 32) output.summary_uk)
unfolding due_for_refresh missing_public_summary due_square_threshold
refreshed-due output title c = ground arith

module _ (s : RefreshServices) (case : Case) (t : CaseTables) where
  refresh_case-IsRefreshed :
      (output : RefreshCaseOutput) (t' : CaseTables)
      → refresh_case s case t ≡ ok (some output, t')
      → All (IsRefreshed case.id output) t'.cases
  unfolding refresh_case
  refresh_case-IsRefreshed output t' e =
      elim (Option-cases (lifecycle_sample (load_case_article_cards case.id t) s.card_limit)) [
        | inl bad ↦ not_ok (rw (refresh_case, bad) at e)
        | inr (cards, good) ↦
            let (out, ran, rest) = >>=-ok (s.refresh case cards) _ (rw (refresh_case, good) at e) in
            let (title, named, last) = >>=-ok (title_of out out.title_action case) _ rest in
            elim (Option-cases (s.upsert_case (refreshed out title case))) [
              | inr (why, failed) ↦ not_ok (rw failed at last)
              | inl fine ↦
                  let same = ok_eq (rw fine at last) in
                  subst (λ o. All (IsRefreshed case.id o) t'.cases) (some_eq (ap (λ r. r.0) same))
                    (subst (λ x. All (IsRefreshed case.id out) x.cases) (ap (λ r. r.1) same)
                      (update_where-All (IsRefreshed case.id out) (λ c. c.id == case.id)
                        (refreshed out title) t.cases (λ c m own. inr (refreshed-due out title c))
                        (λ c other. inl other)))
            ]
      ]
    where
      some_eq : {a b : RefreshCaseOutput} → some a ≡ some b → a ≡ b
      some_eq q = cc

-- After a refresh that ends well the planner's query finds the Case due again only when it is active
-- and the new summary has nothing but spaces: without further articles a proper summary settles it.
pub handle_refresh-IsRefreshed :
    (s : RefreshServices) (job : ClaimedJob) (case_id : ℕ) (t : CaseTables)
    (output : RefreshCaseOutput) (t' : CaseTables)
    → job.case_id ≡ some case_id
    → handle_refresh s job t ≡ ok (some output, t')
    → All (IsRefreshed case_id output) t'.cases
unfolding handle_refresh
handle_refresh-IsRefreshed s job case_id t output t' given e = elim (Bool-cases s.got_lock) [
  | inr busy ↦ not_ok (rw (handle_refresh, given, busy) at e)
  | inl locked ↦ elim (Option-cases (find_row (λ c. c.id == case_id) t.cases)) [
    | inl gone ↦ nothing (ap (λ r. r.0) (ok_eq (rw (handle_refresh, given, locked, gone) at e)))
    | inr (case, found) ↦
        subst (λ i. All (IsRefreshed i output) t'.cases)
          ((==_iff case.id case_id).0 (find_row-In (λ c. c.id == case_id) t.cases found).1)
          (refresh_case-IsRefreshed s case t output t'
            (rw (handle_refresh, given, locked, found) at e))
  ]
]
  where
    nothing : {C : Type 0} → Path (Option RefreshCaseOutput) none (some output) → C
    nothing q = cc
