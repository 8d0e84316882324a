-- ===== src/Cases/Refresh.antt =====
-- RefreshCaseJobHandler of apps/worker-ml/src/worker_ml/cases/refresh.py: the title and the summary of
-- a Case are written anew. The model's run, the lock and the vector index are arguments.
pub mod Settled
use shkandal.Prelude.{
  none, some, [], ◌∷◌, true, false, String, Bool, ℕ, Option, List, ◌==◌, if◌then◌else◌, not,
}
use shkandal.Cases.{CaseTables}
use shkandal.Contracts.Copy.{keep, replace, RefreshCaseOutput, TitleAction}
use shkandal.Results.{Result, ok, err, ◌>>=◌}
use shkandal.Sql.Rows.{find_row, update_where}
use shkandal.Budgeting.{lifecycle_sample}
use shkandal.Text.{Text}
use shkandal.Cases.Evidence.{load_case_article_cards, EvidenceCard}
use shkandal.Jobs.{ClaimedJob}
use shkandal.Planning.Tables.{Case}

pub data RefreshError : Type 0 where
  no_case : RefreshError
  lock_is_busy : RefreshError
  bad_card_limit : RefreshError
  run_error : String → RefreshError
  null_title : RefreshError
  vector_error : String → RefreshError

pub record RefreshServices : Type 0 where
  pub got_lock : Bool
  pub card_limit : ℕ
  pub refresh : Case → List EvidenceCard → Result RefreshError RefreshCaseOutput
  pub upsert_case : Case → Option String

-- The title that the output calls for; the column takes no NULL.
unfoldable pub title_of : RefreshCaseOutput → TitleAction → Case → Result RefreshError Text
title_of output keep c = ok c.title_uk
title_of output replace c = elim output.replacement_title_uk [
  | none ↦ err null_title
  | some title ↦ ok title
]

abbrev pub refreshed : RefreshCaseOutput → Text → Case → Case
refreshed output title c = record c {
  title_uk = title;
  summary_uk = some output.summary_uk;
  last_refreshed_article_count = c.article_count;
}

module _ (s : RefreshServices) where
  -- The Case with its new text, after the vector index has taken it.
  unfoldable pub refresh_case :
      Case → CaseTables → Result RefreshError (Option RefreshCaseOutput × CaseTables)
  unfolding lifecycle_sample load_case_article_cards title_of update_where
  refresh_case case t = elim (lifecycle_sample (load_case_article_cards case.id t) s.card_limit) [
    | none ↦ err bad_card_limit
    | some cards ↦ do
      output ← s.refresh case cards
      title ← title_of output output.title_action case
      elim (s.upsert_case (refreshed output title case)) [
        | some message ↦ err (vector_error message)
        | none ↦ ok (
          some output,
          record t { cases = update_where (λ c. c.id == case.id) (refreshed output title) t.cases },
        )
      ]
  ]

  unfoldable pub handle_refresh :
      ClaimedJob → CaseTables → Result RefreshError (Option RefreshCaseOutput × CaseTables)
  unfolding find_row refresh_case
  handle_refresh job t = elim job.case_id [
    | none ↦ err no_case
    | some case_id ↦
        if not s.got_lock
        then err lock_is_busy
        else elim (find_row (λ c. c.id == case_id) t.cases) [
          | none ↦ ok (none, t)
          | some case ↦ refresh_case case t
        ]
  ]
