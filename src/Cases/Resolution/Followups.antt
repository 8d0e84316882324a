-- ===== src/Cases/Resolution/Followups.antt =====
-- What the handler of a resolution leaves behind: the counts of the Cases and the follow-up jobs.
use shkandal.Prelude.{
  ◌⊎◌, none, some, [], ◌∷◌, true, false, ◌≡◌, refl, sym, ap, subst, ℕ, List, String, All, Option,
  any, inl, inr, map, Option-cases, Bool-cases, not, ◌==◌, ==_iff, Bool, ◌∙◌,
}
use shkandal.Cases.{CaseTables}
use shkandal.Cases.Evidence.{get_case_candidate_card}
use shkandal.Cases.Resolution.{persist_resolution}
use shkandal.Cases.Resolution.Counts.{IsCounted}
use shkandal.Cases.Resolution.Fallback.{recheck_resolution}
use shkandal.Cases.Resolution.Handle.{
  HandlerServices, enqueue_each, with_followups, World, followup_types, publish, upsert_cases,
  resolve_article, handle,
}
use shkandal.Cases.Resolution.Persisted.{AreNew, persist_resolution-IsCounted}
use shkandal.Cases.Resolution.Recheck.{Candidate, load_candidates}
use shkandal.Contracts.Resolution.{CaseResolutionOutput, ResolutionOutcome, rejected, resolved}
use shkandal.Jobs.{ClaimedJob, Job}
use shkandal.Jobs.Enqueue.{enqueue_article_job, Subject, is_for, of_article, EnqueueRequest}
use shkandal.Planning.Ensured.{enqueue_job-CallDone}
use shkandal.Planning.Tables.{Article, ArticleCard}
use shkandal.Results.{◌>>=◌, ok, ok_eq, >>=-ok, not_ok}
use shkandal.Sql.Rows.{find_row, find_row-In}
use shkandal.Text.{Text}

module _ (h : HandlerServices) (article_id max_attempts : ℕ) where
  enqueue_each-done :
      (job_types : List String) (jobs : List Job)
      → (jobs' : List Job) × (enqueue_each h article_id max_attempts job_types jobs ≡ ok jobs')
        × ((job_type : String) (s : Subject)
            → any (is_for job_type s) jobs ≡ true
            → any (is_for job_type s) jobs' ≡ true)
        × All (λ job_type. any (is_for job_type (of_article article_id)) jobs' ≡ true) job_types
  unfolding enqueue_each enqueue_article_job
  enqueue_each-done [] jobs = (jobs, refl, (λ job_type s k. k), tt)
  enqueue_each-done (job_type ∷ job_types) jobs =
      let request : EnqueueRequest = record {
        job_type = job_type;
        subject = of_article article_id;
        payload = some (("article_id", article_id) ∷ []);
        priority = 0;
        run_after = none;
        max_attempts = max_attempts;
        increment_revision = false;
        requeue_failed = true;
        requeue_succeeded = false;
      } in
      let (res, jobs', e, (kept, own, size)) =
        enqueue_job-CallDone request (h.new_job_id job_type) h.now jobs in
      let (jobs'', f, kept', owns) = enqueue_each-done job_types jobs' in
      (
        jobs'',
        rw (enqueue_each, e, f) refl,
        (λ t s k. kept' t s (kept t s k)),
        (kept' job_type (of_article article_id) own, owns),
      )

-- Both follow-up jobs of the article.
abbrev pub HasFollowups : ℕ → List Job → Type 0
HasFollowups article_id jobs =
    All (λ job_type. any (is_for job_type (of_article article_id)) jobs ≡ true) followup_types

-- The article is in some Case.
abbrev pub is_linked : ℕ → World → Bool
is_linked article_id w = any (λ l. l.article_id == article_id) w.tables.case_articles

module _ (h : HandlerServices) where
  with_followups-HasFollowups :
      (article_id : ℕ) (job : ClaimedJob) (output : Option CaseResolutionOutput) (w : World)
      {r : Option CaseResolutionOutput × World}
      → with_followups h article_id job output w ≡ ok r
      → HasFollowups article_id r.1.jobs × (r.1.tables ≡ w.tables)
  unfolding with_followups
  with_followups-HasFollowups article_id job output w {r} e =
      let (jobs, made, kept, owns) =
        enqueue_each-done h article_id job.max_attempts followup_types w.jobs in
      let same = ok_eq (rw made at e) in
      (subst (λ s. HasFollowups article_id s.1.jobs) same owns, ap (λ s. s.1.tables) (sym same))

  -- The tables are those after the writes of some resolution of the article.
  abbrev IsWritten : World → CaseTables → Type 0
  IsWritten w t =
      (article : Article) × (card : ArticleCard) × (out : CaseResolutionOutput × Option ℕ)
      × (ids : List Text) × (affected : List ℕ) × (persist_resolution h.services.uuid h.new_id h.now
            article card out.0 out.1 ids w.tables
          ≡ ok (affected, t))

  -- Nothing happened, or the follow-ups are enqueued and the tables are as they were or written.
  abbrev HasEnded : ℕ → World → World → Type 0
  HasEnded article_id w w' =
      (w' ≡ w)
      ⊎ (HasFollowups article_id w'.jobs × ((w'.tables ≡ w.tables) ⊎ IsWritten w w'.tables))

  publish-HasEnded :
      (article : Article) (card : ArticleCard) (candidates : List Candidate) (job : ClaimedJob)
      (out : CaseResolutionOutput × Option ℕ) (w : World) (outcome : ResolutionOutcome)
      {r : Option CaseResolutionOutput × World}
      → out.0.outcome ≡ outcome
      → publish h article card candidates job out w ≡ ok r
      → HasEnded article.id w r.1
  unfolding publish
  publish-HasEnded article card candidates job out w rejected {r} q e =
      inl (ap (λ s. s.1) (sym (ok_eq (rw (publish, q) at e))))
  publish-HasEnded article card candidates job (output, run_id) w resolved {r} q e =
      let ids = map (λ c. c.case_id) candidates in
      let ((affected, t), written, rest) =
        >>=-ok
          (persist_resolution h.services.uuid h.new_id h.now article card output run_id ids
            w.tables)
          _ (rw (publish, q) at e) in
      elim (Option-cases (upsert_cases h affected t)) [
        | inl fine ↦
            let (followed, same) =
              with_followups-HasFollowups article.id job (some output) (record w { tables = t })
                (rw fine at rest) in
            inr (
              followed,
              inr (
                article,
                card,
                (output, run_id),
                ids,
                affected,
                written ∙ ap (λ x. ok (affected, x)) (sym same),
              ),
            )
        | inr (why, failed) ↦ not_ok (rw failed at rest)
      ]

  resolve_article-HasEnded :
      (article : Article) (card : ArticleCard) (job : ClaimedJob) (w : World)
      {r : Option CaseResolutionOutput × World}
      → resolve_article h article card job w ≡ ok r
      → HasEnded article.id w r.1
  unfolding resolve_article
  resolve_article-HasEnded article card job w {r} e =
      let candidates =
        load_candidates h.str h.representative_title_limit (h.search_cases card) w.tables in
      let (result, ran, rest) = >>=-ok (h.resolve article card candidates) _ e in
      by_outcome candidates result result.0.outcome rest
    where
      by_outcome :
          (candidates : List Candidate) (result : CaseResolutionOutput × Option ℕ)
          (outcome : ResolutionOutcome)
          → (elim outcome [
            | rejected ↦ ok (some result.0, w)
            | resolved ↦
                recheck_resolution h.services article card candidates w.tables true result.0
                  result.1
                >>= λ rechecked. publish h article card candidates job rechecked w
          ])
            ≡ ok r
          → HasEnded article.id w r.1
      by_outcome candidates result rejected rest = inl (ap (λ s. s.1) (sym (ok_eq rest)))
      by_outcome candidates result resolved rest =
          let (rechecked, checked, last) =
            >>=-ok
              (recheck_resolution h.services article card candidates w.tables true result.0
                result.1)
              _ rest in
          publish-HasEnded article card candidates job rechecked w rechecked.0.outcome refl last

  handle-HasEnded :
      (job : ClaimedJob) (w : World) (article_id : ℕ) {r : Option CaseResolutionOutput × World}
      → job.article_id ≡ some article_id
      → handle h job w ≡ ok r
      → ((get_case_candidate_card article_id w.tables ≡ none) × (r.1 ≡ w))
        ⊎ (((is_linked article_id w ≡ false) ⊎ HasFollowups article_id r.1.jobs)
            × HasEnded article_id w r.1)
  unfolding handle
  handle-HasEnded job w article_id {r} given e = elim (Bool-cases (not h.got_lock)) [
    | inl busy ↦ not_ok (rw (handle, given, busy) at e)
    | inr free ↦ elim (Option-cases (get_case_candidate_card article_id w.tables)) [
      | inl gone ↦ inl (gone, ap (λ s. s.1) (sym (ok_eq (rw (handle, given, free, gone) at e))))
      | inr (card, has) ↦
          elim (Bool-cases (any (λ l. l.article_id == article_id) w.tables.case_articles)) [
            | inl linked ↦
                let (followed, same) =
                  with_followups-HasFollowups article_id job none w
                    (rw (handle, given, free, has, linked) at e) in
                inr (inr followed, inr (followed, inl same))
            | inr new ↦ elim (Option-cases (find_row (λ a. a.id == article_id) w.tables.articles)) [
              | inl missing ↦ not_ok (rw (handle, given, free, has, new, missing) at e)
              | inr (article, found) ↦ inr (
                inl new,
                subst (λ a. HasEnded a w r.1)
                    ((==_iff article.id article_id).0
                      (find_row-In (λ a. a.id == article_id) w.tables.articles found).1)
                    (resolve_article-HasEnded article card job w
                      (rw (handle, given, free, has, new, found) at e)),
              )
            ]
          ]
    ]
  ]

  -- When the handler of a resolution ends without an error and the article has a card that the gate
  -- let in and is in some Case afterwards, both of its follow-up jobs, for its entities and for its
  -- events, are in the job table: also when an earlier run linked the article and did not get there.
  pub handle-HasFollowups :
      (job : ClaimedJob) (w : World) (article_id : ℕ) (card : ArticleCard)
      (output : Option CaseResolutionOutput) (w' : World)
      → job.article_id ≡ some article_id
      → get_case_candidate_card article_id w.tables ≡ some card
      → handle h job w ≡ ok (output, w')
      → is_linked article_id w' ≡ true
      → HasFollowups article_id w'.jobs
  handle-HasFollowups job w article_id card output w' given has e linked =
      elim (handle-HasEnded job w article_id given e) [
        | inl (gone, same) ↦ clash (sym has ∙ gone)
        | inr (inr followed, ended) ↦ followed
        | inr (inl new, inr (followed, rest)) ↦ followed
        | inr (inl new, inl same) ↦ clash_bool (sym linked ∙ ap (is_linked article_id) same ∙ new)
      ]
    where
      clash : {C : Type 0} → Path (Option ArticleCard) (some card) none → C
      clash q = cc

      clash_bool : {C : Type 0} → true ≡ false → C
      clash_bool q = cc

  -- The handler of a resolution keeps the tables counted, with unused new ids: after it each Case
  -- still counts exactly its links, and no article is linked to a Case twice.
  pub handle-IsCounted :
      (job : ClaimedJob) (w : World) (article_id : ℕ) (output : Option CaseResolutionOutput)
      (w' : World)
      → job.article_id ≡ some article_id
      → IsCounted w.tables
      → AreNew h.new_id w.tables
      → handle h job w ≡ ok (output, w')
      → IsCounted w'.tables
  handle-IsCounted job w article_id output w' given counted fresh e =
      elim (handle-HasEnded job w article_id given e) [
        | inl (gone, same) ↦ unchanged (ap (λ v. v.tables) same)
        | inr (why, inl same) ↦ unchanged (ap (λ v. v.tables) same)
        | inr (why, inr (followed, inl same)) ↦ unchanged same
        | inr (why, inr (followed, inr (article, card, out, ids, affected, written))) ↦
            persist_resolution-IsCounted h.services.uuid h.new_id h.now article card out.0 out.1 ids
              w.tables affected w'.tables counted fresh written
      ]
    where
      unchanged : w'.tables ≡ w.tables → IsCounted w'.tables
      unchanged same = subst IsCounted (sym same) counted
