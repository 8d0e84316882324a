-- ===== src/Planning/Ensuring/Passes.antt =====
-- What a pass that ensures a job for each Case of a query does to the job table.
use shkandal.Prelude.{
  ℕ, refl, arith, [], true, false, ◌∷◌, ◌≡◌, ◌≢◌, ◌∙◌, ◌+◌, sym, ap, none, some, String, Bool, List,
  All, not, Option, map, ◌&&◌, length,
}
use shkandal.Planning.Ensuring.Calls.{ensure_case_job-Ensured, Ensured}
use shkandal.Planning.Ensuring.Rows.{has_row, has_finished, any_and_false, is_finished}
use shkandal.Sql.Rows.{count_where, IsUnique}
use shkandal.Jobs.{Instant, Job, EnqueueJobResult}
use shkandal.Planning.Passes.{
  ensure_cases, for_each_case, enqueue_cases, case_payload, of_states, is_inserted, EnqueueStats,
  is_requeued,
}
use shkandal.Jobs.Enqueue.{ensure_case_job, is_for, of_case}
use shkandal.Jobs.Invariant.{IsWellFormed}
use shkandal.Jobs.Lifecycle.{IsFresh}

count_where-cong :
    (p q : ℕ → Bool) (xs : List ℕ) → All (λ x. p x ≡ q x) xs → count_where p xs ≡ count_where q xs
unfolding count_where
count_where-cong p q [] h = refl
count_where-cong p q (x ∷ xs) h = rw (h.0, count_where-cong p q xs h.1) refl

-- Cases with no row, with a finished one, and with one that is not finished.
count_kinds :
    (job_type : String) (rows : List Job) (case_ids : List ℕ)
    → count_where (λ c. not (has_row job_type rows c)) case_ids
        + count_where (has_finished job_type rows) case_ids
        + count_where (λ c. has_row job_type rows c && not (has_finished job_type rows c)) case_ids
      ≡ length case_ids
unfolding count_where
count_kinds job_type rows [] = omega arith
count_kinds job_type rows (c ∷ case_ids) = ground (
  arith,
  count_kinds job_type rows case_ids,
  any_and_false (is_for job_type (of_case c)) (λ j. is_finished j.status) rows,
)

module _ (job_type : String) (max_attempts : ℕ) (new_id : ℕ → ℕ) (now : Instant) where
  call : ℕ → List Job → Option (EnqueueJobResult × List Job)
  call c = ensure_case_job job_type c (case_payload c) 0 none max_attempts true (new_id c) now

  -- Cases whose new ids differ from that of `c` are other Cases.
  apart_ids :
      (c : ℕ) (case_ids : List ℕ)
      → All (λ i. i ≢ new_id c) (map new_id case_ids)
      → All (λ d. c ≢ d) case_ids
  apart_ids c [] h = tt
  apart_ids c (d ∷ case_ids) h = ((λ e. h.0 (ap new_id (sym e))), apart_ids c case_ids h.1)

  still-IsFresh :
      {c : ℕ} {rows rows' : List Job} {res : EnqueueJobResult} (case_ids : List ℕ)
      → Ensured job_type c (new_id c) rows res rows'
      → All (λ i. i ≢ new_id c) (map new_id case_ids)
      → All (λ d. IsFresh (new_id d) rows) case_ids
      → All (λ d. IsFresh (new_id d) rows') case_ids
  still-IsFresh [] done apart h = tt
  still-IsFresh (d ∷ case_ids) done apart h =
      (done.fresh (new_id d) apart.0 h.0, still-IsFresh case_ids done apart.1 h.1)

  same_kinds :
      {c : ℕ} {rows rows' : List Job} {res : EnqueueJobResult} (case_ids : List ℕ)
      → Ensured job_type c (new_id c) rows res rows'
      → All (λ d. c ≢ d) case_ids
      → All (λ d. not (has_row job_type rows' d) ≡ not (has_row job_type rows d)) case_ids
        × All (λ d. has_finished job_type rows' d ≡ has_finished job_type rows d) case_ids
  same_kinds [] done apart = (tt, tt)
  same_kinds (d ∷ case_ids) done apart =
      let (row, finished) = done.others d apart.0 in
      let (rest, rest') = same_kinds case_ids done apart.1 in
      ((ap not row, rest), (finished, rest'))

  flip_apart : (c : ℕ) (case_ids : List ℕ) → All (λ d. c ≢ d) case_ids → All (λ d. d ≢ c) case_ids
  flip_apart c [] h = tt
  flip_apart c (d ∷ case_ids) h = ((λ e. h.0 (sym e)), flip_apart c case_ids h.1)

  -- The calls for a list of Cases.
  for_each_case-done :
      (case_ids : List ℕ) (rows : List Job)
      → IsWellFormed rows
      → IsUnique (map new_id case_ids)
      → All (λ c. IsFresh (new_id c) rows) case_ids
      → (states : List EnqueueJobResult) × (rows' : List Job) × (for_each_case call case_ids rows
          ≡ some (states, rows'))
        × All
            (λ c. (has_row job_type rows' c ≡ true) × (has_finished job_type rows' c ≡ false))
            case_ids
        × ((d : ℕ)
            → All (λ c. c ≢ d) case_ids
            → (has_row job_type rows' d ≡ has_row job_type rows d)
              × (has_finished job_type rows' d ≡ has_finished job_type rows d))
        × (count_where (λ r. is_inserted r.state) states
            ≡ count_where (λ c. not (has_row job_type rows c)) case_ids)
        × (count_where (λ r. is_requeued r.state) states
            ≡ count_where (has_finished job_type rows) case_ids)
        × (length states ≡ length case_ids)
        × (length rows' ≡ length rows + count_where (λ r. is_inserted r.state) states)
  unfolding for_each_case call ensure_case_job count_where
  for_each_case-done [] rows w unique fresh =
      ([], rows, refl, tt, (λ d h. (refl, refl)), refl, refl, refl, omega arith)
  for_each_case-done (c ∷ case_ids) rows w unique fresh =
      let (res, rows1, e, done) =
        ensure_case_job-Ensured job_type max_attempts c (new_id c) now rows w fresh.0 in
      let (states, rows', f, owns, others, news, agains, count, size) =
        for_each_case-done case_ids rows1 done.well_formed unique.1
          (still-IsFresh case_ids done unique.0 fresh.1) in
      let apart = apart_ids c case_ids unique.0 in
      let (lack, ended) = same_kinds case_ids done apart in
      let (row, finished) = others c (flip_apart c case_ids apart) in
      (
        res ∷ states,
        rows',
        rw (e, f) refl,
        ((row ∙ done.own.0, finished ∙ done.own.1), owns),
        (λ d h.
            let (one, one') = done.others d h.0 in
            let (two, two') = others d h.1 in (two ∙ one, two' ∙ one')),
        rw (done.was_inserted, news, count_where-cong _ _ case_ids lack) refl,
        rw (done.was_requeued, agains, count_where-cong _ _ case_ids ended) refl,
        omega (arith, count),
        ground (arith, size, done.grown),
      )

  -- In a well-formed table, with a new id for each Case that no row and no other Case has, ensuring a
  -- job for each of the Cases that a query found never fails. Afterwards each of them has a row of the
  -- type and none that is succeeded or failed. The inserted jobs are counted by the Cases that had no
  -- row, the requeued by those whose row was finished, the existing by the others; the ensured jobs
  -- are the inserted and the requeued, and the table has grown by the inserted ones.
  pub ensure_cases-covers :
      (case_ids : List ℕ) (rows : List Job)
      → IsWellFormed rows
      → IsUnique (map new_id case_ids)
      → All (λ c. IsFresh (new_id c) rows) case_ids
      → (stats : EnqueueStats) × (rows' : List Job) × (ensure_cases job_type case_ids max_attempts
            new_id now rows
          ≡ some (stats, rows'))
        × All
            (λ c. (has_row job_type rows' c ≡ true) × (has_finished job_type rows' c ≡ false))
            case_ids
        × (stats.scanned_articles ≡ length case_ids)
        × (stats.inserted_jobs ≡ count_where (λ c. not (has_row job_type rows c)) case_ids)
        × (stats.requeued_jobs ≡ count_where (has_finished job_type rows) case_ids)
        × (stats.existing_jobs
            ≡ count_where
                (λ c. has_row job_type rows c && not (has_finished job_type rows c))
                case_ids)
        × (stats.ensured_jobs ≡ stats.inserted_jobs + stats.requeued_jobs)
        × (length rows' ≡ length rows + stats.inserted_jobs)
  unfolding ensure_cases enqueue_cases of_states call
  ensure_cases-covers case_ids rows w unique fresh =
      let (states, rows', e, owns, others, news, agains, count, size) =
        for_each_case-done case_ids rows w unique fresh in
      (
        of_states case_ids states,
        rows',
        rw e refl,
        owns,
        refl,
        news,
        agains,
        omega (arith, news, agains, count, count_kinds job_type rows case_ids),
        refl,
        size,
      )
