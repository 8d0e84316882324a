-- ===== src/Cases/Resolution/Handle.antt =====
-- ArticleCaseResolutionJobHandler.handle: one article, from the lock to the follow-up jobs. An error
-- leaves the world as it was: the session is rolled back before any job is enqueued.
use shkandal.Prelude.{
  none, some, [], ◌∷◌, true, Bool, List, ℕ, String, Option, ◌==◌, if◌then◌else◌, map, not, any,
}
use shkandal.Cases.{CaseTables}
use shkandal.Cases.Evidence.{get_case_candidate_card}
use shkandal.Cases.Resolution.{
  persist_resolution, ResolutionError, enqueue_failed, no_article_id, index_failed,
  case_mutation_busy, no_article,
}
use shkandal.Cases.Resolution.Fallback.{recheck_resolution}
use shkandal.Cases.Resolution.Recheck.{load_candidates, Candidate, Services}
use shkandal.Contracts.Resolution.{resolved, rejected, CaseResolutionOutput}
use shkandal.Jobs.{Job, ClaimedJob, Instant}
use shkandal.Jobs.Enqueue.{enqueue_article_job}
use shkandal.Planning.{resolve_article_entities_job, resolve_article_events_job}
use shkandal.Planning.Tables.{Article, ArticleCard, Case}
use shkandal.Results.{Result, ok, err, ◌>>=◌}
use shkandal.Sql.Rows.{find_row}
use shkandal.Text.{Text}

-- The rows of the Cases and the job table.
pub record World : Type 0 where
  pub tables : CaseTables
  pub jobs : List Job

-- What the handler takes from outside: the advisory lock, the vector index, the model, new ids.
pub record HandlerServices : Type 0 where
  pub got_lock : Bool
  pub str : ℕ → Text
  pub search_cases : ArticleCard → List (ℕ × ℕ)
  pub representative_title_limit : ℕ
  pub resolve :
      Article
      → ArticleCard
      → List Candidate
      → Result ResolutionError (CaseResolutionOutput × Option ℕ)
  pub services : Services
  pub new_id : ℕ → ℕ
  pub new_job_id : String → ℕ
  pub now : Instant
  pub upsert_case : Case → Option String

abbrev pub followup_types : List String
followup_types = resolve_article_entities_job ∷ resolve_article_events_job ∷ []

module _ (h : HandlerServices) where
  unfoldable pub enqueue_each : ℕ → ℕ → List String → List Job → Result ResolutionError (List Job)
  unfolding enqueue_article_job
  enqueue_each article_id max_attempts [] jobs = ok jobs
  enqueue_each article_id max_attempts (job_type ∷ job_types) jobs =
      elim (enqueue_article_job job_type article_id (some (("article_id", article_id) ∷ [])) 0 none
        max_attempts true (h.new_job_id job_type) h.now jobs) [
          | none ↦ err enqueue_failed
          | some (result, jobs') ↦ enqueue_each article_id max_attempts job_types jobs'
        ]

  -- The vector index takes each Case that the resolution touched.
  unfoldable pub upsert_cases : List ℕ → CaseTables → Option ResolutionError
  unfolding find_row
  upsert_cases [] t = none
  upsert_cases (case_id ∷ case_ids) t =
      let rest = upsert_cases case_ids t in
      elim (find_row (λ c. c.id == case_id) t.cases) [
        | none ↦ rest
        | some case ↦ elim (h.upsert_case case) [
          | some message ↦ some (index_failed message)
          | none ↦ rest
        ]
      ]

  -- The output with the world that it leaves; no output for an article that is not resolved now.
  abbrev pub Handled : Type 0
  Handled = Result ResolutionError (Option CaseResolutionOutput × World)

  unfoldable pub with_followups : ℕ → ClaimedJob → Option CaseResolutionOutput → World → Handled
  unfolding enqueue_each
  with_followups article_id job output w = do
    jobs ← enqueue_each article_id job.max_attempts followup_types w.jobs
    ok (output, record w { jobs = jobs })

  -- The writes of a rechecked output, the commit and the follow-ups.
  unfoldable pub publish :
      Article
      → ArticleCard
      → List Candidate
      → ClaimedJob
      → CaseResolutionOutput × Option ℕ
      → World
      → Handled
  unfolding persist_resolution upsert_cases with_followups
  publish article card candidates job (output, run_id) w = elim output.outcome [
    | rejected ↦ ok (some output, w)
    | resolved ↦ do
      (affected, t) ←
          persist_resolution h.services.uuid h.new_id h.now article card output run_id
            (map (λ c. c.case_id) candidates) w.tables
      elim (upsert_cases affected t) [
        | some e ↦ err e
        | none ↦ with_followups article.id job (some output) (record w { tables = t })
      ]
  ]

  -- The run of the model and the recheck of its answer.
  unfoldable pub resolve_article : Article → ArticleCard → ClaimedJob → World → Handled
  unfolding load_candidates recheck_resolution publish
  resolve_article article card job w =
      let candidates =
        load_candidates h.str h.representative_title_limit (h.search_cases card) w.tables in
      do
        result ← h.resolve article card candidates
        elim result.0.outcome [
          | rejected ↦ ok (some result.0, w)
          | resolved ↦ do
            rechecked ←
                recheck_resolution h.services article card candidates w.tables true result.0
                  result.1
            publish article card candidates job rechecked w
        ]

  unfoldable pub handle : ClaimedJob → World → Handled
  unfolding get_case_candidate_card with_followups resolve_article find_row
  handle job w = elim job.article_id [
    | none ↦ err no_article_id
    | some article_id ↦
        if not h.got_lock
        then err case_mutation_busy
        else elim (get_case_candidate_card article_id w.tables) [
          | none ↦ ok (none, w)
          | some card ↦
              if any (λ l. l.article_id == article_id) w.tables.case_articles
              then with_followups article_id job none w
              else elim (find_row (λ a. a.id == article_id) w.tables.articles) [
                | none ↦ err no_article
                | some article ↦ resolve_article article card job w
              ]
        ]
  ]
