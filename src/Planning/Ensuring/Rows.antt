-- ===== src/Planning/Ensuring/Rows.antt =====
-- The rows of a Case in the job table, and updates of some of them.
use shkandal.Prelude.{
  ℕ, refl, sym, ap, arith, none, some, [], true, false, inl, inr, ◌∷◌, ◌++◌, ◌≡◌, ◌≢◌, ◌∙◌, here,
  there, String, Bool, List, any, In, ◌||◌, ◌&&◌, Bool-cases, All, All-intro,
}
use shkandal.Jobs.{Status, Job, Instant, is_succeeded, is_failed}
use shkandal.Jobs.Enqueue.{is_for, of_case, requeue}
use shkandal.Jobs.Enqueueing.{any_of_In, find_row-row_of}
use shkandal.Jobs.Invariant.{IsWellFormed, ids}
use shkandal.Jobs.Lifecycle.{IsFresh}
use shkandal.Sql.Rows.{update_where, map-update_where}

-- A job that has ended.
abbrev pub is_finished : Status → Bool
is_finished status = is_succeeded status || is_failed status

abbrev pub has_row : String → List Job → ℕ → Bool
has_row job_type rows c = any (is_for job_type (of_case c)) rows

abbrev pub has_finished : String → List Job → ℕ → Bool
has_finished job_type rows c = any (λ j. is_for job_type (of_case c) j && is_finished j.status) rows

pub any-update_where :
    (q p : Job → Bool) (f : Job → Job) (rows : List Job)
    → ((j : Job) → In j rows → p j ≡ true → q (f j) ≡ q j)
    → any q (update_where p f rows) ≡ any q rows
unfolding update_where
any-update_where q p f [] h = refl
any-update_where q p f (r ∷ rows) h =
    let rest = any-update_where q p f rows (λ j m. h j (there m)) in
    elim (Bool-cases (p r)) [
      | inl written ↦ rw (written, h r (here refl) written, rest) refl
      | inr other ↦ rw (other, rest) refl
    ]

pub any_none :
    (q p : Job → Bool) (f : Job → Job) (rows : List Job)
    → ((j : Job) → In j rows → p j ≡ true → q (f j) ≡ false)
    → ((j : Job) → In j rows → p j ≡ false → q j ≡ false)
    → any q (update_where p f rows) ≡ false
unfolding update_where
any_none q p f [] h k = refl
any_none q p f (r ∷ rows) h k =
    let rest = any_none q p f rows (λ j m. h j (there m)) (λ j m. k j (there m)) in
    elim (Bool-cases (p r)) [
      | inl written ↦ rw (written, h r (here refl) written, rest) refl
      | inr other ↦ rw (other, k r (here refl) other, rest) refl
    ]

pub any-false :
    (q : Job → Bool) (rows : List Job) {j : Job} → any q rows ≡ false → In j rows → q j ≡ false
any-false q [] h m = elim m [ ]
any-false q (x ∷ rows) h (here e) = let own : q x ≡ false = ground arith in ap q (sym e) ∙ own
any-false q (x ∷ rows) h (there m) = any-false q rows (ground arith) m

pub update_where-cong :
    (p q : Job → Bool) (f : Job → Job) (rows : List Job)
    → ((j : Job) → p j ≡ q j)
    → update_where p f rows ≡ update_where q f rows
unfolding update_where
update_where-cong p q f [] h = refl
update_where-cong p q f (r ∷ rows) h = rw (h r, update_where-cong p q f rows h) refl

pub update_none : (f : Job → Job) (rows : List Job) → update_where (λ j. false) f rows ≡ rows
unfolding update_where
update_none f [] = refl
update_none f (r ∷ rows) = ap (λ x. r ∷ x) (update_none f rows)

-- A row is for one Case at most.
pub one_case :
    (job_type : String) (c d : ℕ) (j : Job)
    → c ≢ d
    → is_for job_type (of_case c) j ≡ true
    → is_for job_type (of_case d) j ≡ false
unfolding is_for
one_case job_type c d j apart h = ground arith

-- The row of a Case is unique.
pub only_row :
    (job_type : String) (c : ℕ) (rows : List Job) {j k : Job}
    → IsWellFormed rows
    → In j rows
    → is_for job_type (of_case c) j ≡ true
    → In k rows
    → is_for job_type (of_case c) k ≡ true
    → j ≡ k
only_row job_type c rows {j} {k} w m fits n own =
    let at = find_row-row_of job_type (of_case c) rows w m fits in
    let at' = find_row-row_of job_type (of_case c) rows w n own in
    let same : some j ≡ some k = sym at ∙ at' in cc

pub any_and_false :
    (p q : Job → Bool) (rows : List Job) → any p rows ≡ false → any (λ j. p j && q j) rows ≡ false
any_and_false p q [] h = refl
any_and_false p q (j ∷ rows) h = ground (arith, any_and_false p q rows)

pub any_none_of :
    (p : Job → Bool) (rows : List Job) → All (λ j. p j ≡ false) rows → any p rows ≡ false
any_none_of p [] h = refl
any_none_of p (j ∷ rows) h = rw (h.0, any_none_of p rows h.1) refl

pub requeue-ids :
    (p : Job → Bool) (max_attempts : ℕ) (now : Instant) (rows : List Job)
    → ids (update_where p (requeue none max_attempts now) rows) ≡ ids rows
unfolding requeue
requeue-ids p max_attempts now rows =
    map-update_where (λ k. k.id) p (requeue none max_attempts now) rows (λ k. refl)

pub finished-is :
    (job_type : String) (c : ℕ) (rows : List Job) {j : Job}
    → IsWellFormed rows
    → In j rows
    → is_for job_type (of_case c) j ≡ true
    → has_finished job_type rows c ≡ is_finished j.status
finished-is job_type c rows {j} w m fits =
    let q : Job → Bool = λ k. is_for job_type (of_case c) k && is_finished k.status in
    elim (Bool-cases (is_finished j.status)) [
      | inl ended ↦ let at = any_of_In q rows m (ground arith) in at ∙ sym ended
      | inr alive ↦
          any_none_of q rows (
            All-intro (λ k. q k ≡ false) rows
              (λ k n. elim (Bool-cases (is_for job_type (of_case c) k)) [
                | inr other ↦ rw other refl
                | inl own ↦
                    let same = only_row job_type c rows w m fits n own in
                    rw own (ap (λ i. is_finished i.status) (sym same) ∙ alive)
              ]))
          ∙ sym alive
    ]

pub IsFresh-append :
    (k : ℕ) (rows : List Job) (j : Job) → k ≢ j.id → IsFresh k rows → IsFresh k (rows ++ j ∷ [])
IsFresh-append k [] j apart h = (apart, tt)
IsFresh-append k (r ∷ rows) j apart h = (h.0, IsFresh-append k rows j apart h.1)
