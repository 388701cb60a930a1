-- ===== src/Research/Calls/Retries.antt =====
-- The retries of a research task that backend/research/task.py published, and the count in its row.
use the_dashboard.Common.{
  ℕ, suc, Bool, true, false, ◌||◌, ◌&&◌, Option, none, some, List, [], ◌∷◌, ◌++◌, ◌+◌, ◌≡◌, ◌≢◌,
  refl, sym, subst, ap, ◌∙◌, arith, ◌==◌, any_of, put_row, get_row-put_row_cases,
  get_row-put_row-none, get_row-snoc_cases, get_row-snoc-none, inl, inr, if◌then◌else◌,
}
use the_dashboard.Research.Tables.{ResearchTask, ResearchEventBody, task_retried, ResearchEvent}
use the_dashboard.Research.Calls.Balance.{task_row}

abbrev pub is_retry_body : ResearchEventBody → Bool
is_retry_body (task_retried retry_count max_retries) = true
is_retry_body _ = false

abbrev names_task : ℕ → Option ℕ → Bool
names_task k (some id) = id == k
names_task k none = false

abbrev is_retry : ℕ → ResearchEvent → Bool
is_retry k e = names_task k e.task_id && is_retry_body e.body

-- The retries of a task that were published.
abbrev pub retries : ℕ → List ResearchEvent → ℕ
retries k [] = 0
retries k (e ∷ es) = if is_retry k e then suc (retries k es) else retries k es

retries-snoc :
    (k : ℕ) (es : List ResearchEvent) (e : ResearchEvent)
    → retries k (es ++ e ∷ []) ≡ retries k es + (if is_retry k e then 1 else 0)
retries-snoc k [] e = ground arith
retries-snoc k (x ∷ es) e = ground (arith, retries-snoc k es e)

retries-quiet :
    (k : ℕ) (es : List ResearchEvent) (e : ResearchEvent)
    → is_retry_body e.body ≡ false
    → retries k (es ++ e ∷ []) ≡ retries k es
retries-quiet k es e q = ground (arith, retries-snoc k es e)

retries-other :
    (k id : ℕ) (es : List ResearchEvent) (e : ResearchEvent)
    → e.task_id ≡ some id
    → id ≢ k
    → retries k (es ++ e ∷ []) ≡ retries k es
retries-other k id es e t n = ground (arith, retries-snoc k es e)

retries-own :
    (k : ℕ) (es : List ResearchEvent) (e : ResearchEvent)
    → e.task_id ≡ some k
    → is_retry_body e.body ≡ true
    → retries k (es ++ e ∷ []) ≡ suc (retries k es)
retries-own k es e t q = ground (arith, retries-snoc k es e)

-- Every row counts its retries, and only a task that is there has any.
pub record AreRetried (tasks : List ResearchTask) (events : List ResearchEvent) : Type 0 where
  pub present :
      (k : ℕ) (t : ResearchTask) → task_row k tasks ≡ some t → retries k events ≡ t.retry_count
  pub absent : (k : ℕ) → task_row k tasks ≡ none → retries k events ≡ 0

pub task_row-fresh :
    (id : ℕ) (test : ResearchTask → Bool) (tasks : List ResearchTask)
    → any_of (λ t. t.id == id || test t) tasks ≡ false
    → task_row id tasks ≡ none
task_row-fresh id test [] h = refl
task_row-fresh id test (t ∷ tasks) h = ground (arith, task_row-fresh id test tasks)

module _ (tasks : List ResearchTask) (events : List ResearchEvent)
    (inv : AreRetried tasks events) where
  pub quiet-AreRetried :
      (e : ResearchEvent) → is_retry_body e.body ≡ false → AreRetried tasks (events ++ e ∷ [])
  quiet-AreRetried e q = record {
    present = λ k t f. retries-quiet k events e q ∙ inv.present k t f;
    absent = λ k f. retries-quiet k events e q ∙ inv.absent k f;
  }

  -- A changed row that keeps its count, and an event that is no retry.
  pub kept-AreRetried :
      (row row' : ResearchTask) (e : ResearchEvent)
      → task_row row'.id tasks ≡ some row
      → row'.retry_count ≡ row.retry_count
      → is_retry_body e.body ≡ false
      → AreRetried (put_row (λ t. t.id) row' tasks) (events ++ e ∷ [])
  kept-AreRetried row row' e old same q = record {
    present = λ k t f. elim (get_row-put_row_cases (λ t. t.id) k row' tasks row t old f) [
      | inl (p, own) ↦
          retries-quiet k events e q
          ∙ inv.present k row (subst (λ i. task_row i tasks ≡ some row) own old)
          ∙ sym same
          ∙ sym (ap (λ x. x.retry_count) p)
      | inr (f', n) ↦ retries-quiet k events e q ∙ inv.present k t f'
    ];
    absent = λ k f.
        retries-quiet k events e q ∙ inv.absent k (get_row-put_row-none (λ t. t.id) k row' tasks f);
  }

  -- A retry, which its row counts.
  pub counted-AreRetried :
      (row row' : ResearchTask) (e : ResearchEvent)
      → task_row row'.id tasks ≡ some row
      → row'.retry_count ≡ suc row.retry_count
      → e.task_id ≡ some row'.id
      → is_retry_body e.body ≡ true
      → AreRetried (put_row (λ t. t.id) row' tasks) (events ++ e ∷ [])
  counted-AreRetried row row' e old next of q = record {
    present = λ k t f. elim (get_row-put_row_cases (λ t. t.id) k row' tasks row t old f) [
      | inl (p, own) ↦
          retries-own k events e (of ∙ ap some own) q
          ∙ ap suc (inv.present k row (subst (λ i. task_row i tasks ≡ some row) own old))
          ∙ sym next
          ∙ sym (ap (λ x. x.retry_count) p)
      | inr (f', n) ↦ retries-other k row'.id events e of n ∙ inv.present k t f'
    ];
    absent = λ k f.
        let gone = get_row-put_row-none (λ t. t.id) k row' tasks f in
        let n : row'.id ≢ k =
          λ own. (let o = subst (λ i. task_row i tasks ≡ some row) own old in cc) in
        retries-other k row'.id events e of n ∙ inv.absent k gone;
  }

  -- A new row.
  pub new-AreRetried :
      (row : ResearchTask) (e : ResearchEvent)
      → task_row row.id tasks ≡ none
      → row.retry_count ≡ 0
      → is_retry_body e.body ≡ false
      → AreRetried (tasks ++ row ∷ []) (events ++ e ∷ [])
  new-AreRetried row e free zero_count q = record {
    present = λ k t f. elim (get_row-snoc_cases (λ t. t.id) k row tasks t f) [
      | inl old ↦ retries-quiet k events e q ∙ inv.present k t old
      | inr (gone, own, p) ↦
          retries-quiet k events e q
          ∙ inv.absent k gone
          ∙ sym zero_count
          ∙ sym (ap (λ x. x.retry_count) p)
    ];
    absent = λ k f.
        retries-quiet k events e q ∙ inv.absent k (get_row-snoc-none (λ t. t.id) k row tasks f).0;
  }
