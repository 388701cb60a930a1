-- ===== src/Ai/Calls/Counted.antt =====
-- The attempts of an execution (backend/ai/lifecycle.py), its limit and the starts that were
-- published.
use the_dashboard.Common.{
  ℕ, zero, suc, Bool, true, false, ◌||◌, ◌&&◌, Option, none, some, List, [], ◌∷◌, ◌++◌, ◌+◌, ◌≤◌,
  ◌<◌, ◌≡◌, ◌≢◌, refl, ◌∙◌, arith, ◌==◌, inl, inr, any_of, get_row, get_row-snoc_cases,
  get_row-snoc-none, if◌then◌else◌,
}
use the_dashboard.Ai.Execution.{
  pending, failed, same_status, AiExecutionContext, AiExecution, Notice, started, AiEvent,
  new_execution, limit,
}

abbrev pub is_start_body : Notice → Bool
is_start_body (started attempt model_name) = true
is_start_body _ = false

abbrev is_start : ℕ → AiEvent → Bool
is_start k e = e.execution_id == k && is_start_body e.body

-- The starts of an execution that were published.
abbrev pub starts : ℕ → List AiEvent → ℕ
starts k [] = 0
starts k (e ∷ es) = if is_start k e then suc (starts k es) else starts k es

starts-snoc :
    (k : ℕ) (es : List AiEvent) (e : AiEvent)
    → starts k (es ++ e ∷ []) ≡ starts k es + (if is_start k e then 1 else 0)
starts-snoc k [] e = ground arith
starts-snoc k (x ∷ es) e = ground (arith, starts-snoc k es e)

abbrev pub stored : ℕ → List AiExecution → Option AiExecution
stored = get_row (λ e. e.id)

-- The row counts its starts, which stay within the limit; a row that waits for a start has one
-- left, and a failed one has none.
pub record IsCounted (row : AiExecution) (events : List AiEvent) : Type 0 where
  pub counted : starts row.id events ≡ row.attempt
  pub bounded : row.attempt ≤ limit row.max_attempts
  pub left : same_status row.status pending ≡ true → row.attempt < limit row.max_attempts
  pub spent : same_status row.status failed ≡ true → row.attempt ≡ limit row.max_attempts

pub record AreCounted (rows : List AiExecution) (events : List AiEvent) : Type 0 where
  pub present : (k : ℕ) (row : AiExecution) → stored k rows ≡ some row → IsCounted row events
  pub absent : (k : ℕ) → stored k rows ≡ none → starts k events ≡ 0

pub starts-other :
    (k : ℕ) (es : List AiEvent) (e : AiEvent)
    → e.execution_id ≢ k
    → starts k (es ++ e ∷ []) ≡ starts k es
starts-other k es e n = ground (arith, starts-snoc k es e)

pub starts-quiet :
    (k : ℕ) (es : List AiEvent) (e : AiEvent)
    → is_start_body e.body ≡ false
    → starts k (es ++ e ∷ []) ≡ starts k es
starts-quiet k es e q = ground (arith, starts-snoc k es e)

pub starts-own :
    (k : ℕ) (es : List AiEvent) (e : AiEvent)
    → e.execution_id ≡ k
    → is_start_body e.body ≡ true
    → starts k (es ++ e ∷ []) ≡ suc (starts k es)
starts-own k es e p q = ground (arith, starts-snoc k es e)

pub IsCounted-other :
    (row : AiExecution) (es : List AiEvent) (e : AiEvent)
    → e.execution_id ≢ row.id
    → IsCounted row es
    → IsCounted row (es ++ e ∷ [])
IsCounted-other row es e n c = record {
  counted = starts-other row.id es e n ∙ c.counted;
  bounded = c.bounded;
  left = c.left;
  spent = c.spent;
}

pub stored-fresh :
    (id : ℕ) (test : AiExecution → Bool) (rows : List AiExecution)
    → any_of (λ e. e.id == id || test e) rows ≡ false
    → stored id rows ≡ none
stored-fresh id test [] h = refl
stored-fresh id test (r ∷ rows) h = ground (arith, stored-fresh id test rows)

limit_pos : (n : ℕ) → 0 < limit n
limit_pos zero = omega arith
limit_pos (suc n) = omega arith

-- A new execution has made no attempt.
pub insert-AreCounted :
    (rows : List AiExecution) (events : List AiEvent) (id : ℕ) (context : AiExecutionContext)
    (asks : Bool) (e : AiEvent)
    → AreCounted rows events
    → stored id rows ≡ none
    → is_start_body e.body ≡ false
    → AreCounted (rows ++ new_execution id context asks ∷ []) (events ++ e ∷ [])
insert-AreCounted rows events id context asks e inv free quiet = record {
  present = λ k v f. elim (get_row-snoc_cases (λ x. x.id) k _ rows v f) [
    | inl old ↦
        let c = inv.present k v old in
        record {
          counted = starts-quiet v.id events e quiet ∙ c.counted;
          bounded = c.bounded;
          left = c.left;
          spent = c.spent;
        }
    | inr (gone, p, q) ↦ rw q (record {
      counted = starts-quiet id events e quiet ∙ inv.absent id free;
      bounded = omega arith;
      left = λ h. limit_pos context.bounds.max_attempts;
      spent = λ h. cc;
    })
  ];
  absent = λ k f.
      let (gone, n) = get_row-snoc-none (λ x. x.id) k _ rows f in
      starts-quiet k events e quiet ∙ inv.absent k gone;
}
