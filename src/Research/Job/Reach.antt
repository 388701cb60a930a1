-- ===== src/Research/Job/Reach.antt =====
-- The statuses that a job goes through and the transition table of backend/research/job.py.
use the_dashboard.Common.{
  ℕ, String, true, false, Option, none, some, List, [], ◌∷◌, ◌≡◌, ◌≢◌, refl, sym, ap, subst, ◌∙◌,
  arith, ◌==◌, Bool-cases, Option-cases, inl, inr, find_by, str_eq, get_row, put_row, get_row-key,
  get_row-put_row_self, get_row-put_row_ne, get_row-snoc_old, ◌>>=◌, if◌then◌else◌,
}
use native.Mathlib.Decide.{ℕ_discrete}
use the_dashboard.Workflow.Database.{Dict}
use the_dashboard.Research.Job
use the_dashboard.Research.Tables.{
  JobStatus, running, paused, completed, failed, cancelled, ResearchJob, ResearchEventBody, Store,
}
use the_dashboard.Research.Job.{
  is_allowed, ResearchJobSpec, clashes, new_job, get_for_update_or_raise, write, require,
}
use the_dashboard.Research.Job.Life.{
  running_after, left_running, cancelled_after, tried, tried-running, tried-paused, tried-completed,
  tried-failed, tried-cancelled, moved, kept,
}

pub data JobCall : Type 0 where
  create : (job_id now : ℕ) → ResearchJobSpec → JobCall
  start complete : (job_id : ℕ) (actor_id : Option ℕ) (now : ℕ) → JobCall
  pause : (job_id : ℕ) (checkpoint_state : Option Dict) (actor_id : Option ℕ) (now : ℕ) → JobCall
  resume : (job_id : ℕ) (actor_id : Option ℕ) → JobCall
  fail : (job_id : ℕ) (error : String) (actor_id : Option ℕ) → JobCall
  cancel : (job_id : ℕ) (reason : String) (actor_id : Option ℕ) (now : ℕ) → JobCall
  checkpoint : (job_id : ℕ) (state_blob : Dict) (actor_id : Option ℕ) → JobCall

unfoldable pub perform : JobCall → Store → Store
perform (JobCall.create id now spec) s = (Job.create id now spec s).1
perform (JobCall.start id actor now) s = (Job.start id actor now s).1
perform (JobCall.complete id actor now) s = (Job.complete id actor now s).1
perform (JobCall.pause id state actor now) s = (Job.pause id state actor now s).1
perform (JobCall.resume id actor) s = (Job.resume id actor s).1
perform (JobCall.fail id error actor) s = (Job.fail id error actor s).1
perform (JobCall.cancel id reason actor now) s = (Job.cancel id reason actor now s).1
perform (JobCall.checkpoint id state actor) s = (Job.checkpoint id state actor s).1

unfoldable pub serve : List JobCall → Store → Store
serve [] s = s
serve (c ∷ cs) s = serve cs (perform c s)

-- The status of a job after a call.
abbrev pub step : ℕ → JobCall → JobStatus → JobStatus
step k (JobCall.start id actor now) s = if id == k then running_after s else s
step k (JobCall.resume id actor) s = if id == k then running_after s else s
step k (JobCall.pause id state actor now) s = if id == k then left_running paused s else s
step k (JobCall.complete id actor now) s = if id == k then left_running completed s else s
step k (JobCall.fail id error actor) s = if id == k then left_running failed s else s
step k (JobCall.cancel id reason actor now) s = if id == k then cancelled_after s else s
step k (JobCall.create id now spec) s = s
step k (JobCall.checkpoint id state actor) s = s

-- The status of a job after the calls.
abbrev pub follow : ℕ → List JobCall → JobStatus → JobStatus
follow k [] s = s
follow k (c ∷ cs) s = follow k cs (step k c s)

abbrev pub stored : ℕ → Store → Option ResearchJob
stored k s = get_row (λ j. j.id) k s.jobs

-- The job is there still, under its key, with the status given.
pub record Goes (k : ℕ) (v : ResearchJob) (status : JobStatus) (s' : Store) : Type 0 where
  pub job : ResearchJob
  pub found : stored k s' ≡ some job
  pub same_key : job.job_key ≡ v.job_key
  pub reached : job.status ≡ status

module _ (k : ℕ) (v : ResearchJob) (s : Store) (at : stored k s ≡ some v) where
  stays : Goes k v v.status s
  stays = record { job = v; found = at; same_key = refl; reached = refl }

  stays_as : {status : JobStatus} → v.status ≡ status → Goes k v status s
  stays_as e = record { job = v; found = at; same_key = refl; reached = e }

  -- The job that is asked for is this one.
  same_row : (id : ℕ) (row : ResearchJob) → stored id s ≡ some row → id ≡ k → row ≡ v
  same_row id row found e =
      let f : stored k s ≡ some row = subst (λ i. stored i s ≡ some row) e found in
      let g : some row ≡ some v = sym f ∙ at in cc

  write-Goes :
      (id : ℕ) (row row' : ResearchJob) (body : ResearchEventBody) (actor : Option ℕ)
      (status : JobStatus)
      → stored id s ≡ some row
      → row'.id ≡ row.id
      → row'.job_key ≡ row.job_key
      → (id ≡ k → row ≡ v → row'.status ≡ status)
      → (id ≢ k → v.status ≡ status)
      → Goes k v status (write row' body actor s).1
  unfolding write
  write-Goes id row row' body actor status found same key mine other =
      let own : row.id ≡ id = get_row-key (λ j. j.id) id s.jobs row found in
      elim (ℕ_discrete row'.id k) [
        | no n ↦ record {
          job = v;
          found = get_row-put_row_ne (λ j. j.id) k row' s.jobs n ∙ at;
          same_key = refl;
          reached = other (λ e. n (same ∙ own ∙ e));
        }
        | yes p ↦
            let e : id ≡ k = sym own ∙ sym same ∙ p in
            let r = same_row id row found e in
            let f : stored row'.id s ≡ some row =
              subst (λ i. stored i s ≡ some row) (e ∙ sym p) found in
            let w = get_row-put_row_self (λ j. j.id) row' s.jobs row f in
            record {
              job = row';
              found =
                  subst (λ i. get_row (λ j. j.id) i (put_row (λ j. j.id) row' s.jobs) ≡ some row') p
                    w;
              same_key = key ∙ ap (λ x. x.job_key) r;
              reached = mine e r;
            }
      ]

  -- A call that the table refuses.
  unmoved :
      (id : ℕ) (target wanted : JobStatus) (row : ResearchJob)
      → tried target v.status ≡ wanted
      → stored id s ≡ some row
      → is_allowed row.status target ≡ false
      → v.status ≡ (if id == k then wanted else v.status)
  unmoved id target wanted row agree found off = elim (Bool-cases (id == k)) [
    | inr n ↦ rw n refl
    | inl p ↦
        let e : id ≡ k = ground arith in
        let f = subst (λ x. is_allowed x.status target ≡ false) (same_row id row found e) off in
        rw p (kept target v.status f ∙ agree)
  ]

  -- What a method does with the row that it asked for: `wanted` is what the table makes of its status.
  require-Goes :
      (id : ℕ) (target wanted : JobStatus) (change : ResearchJob → ResearchJob)
      (body : ResearchJob → ResearchEventBody) (actor : Option ℕ)
      → tried target v.status ≡ wanted
      → ((row : ResearchJob) → (change row).id ≡ row.id)
      → ((row : ResearchJob) → (change row).job_key ≡ row.job_key)
      → ((row : ResearchJob) → (change row).status ≡ target)
      → Goes k v
          (if id == k then wanted else v.status)
          ((require id target >>= λ row. write (change row) (body row) actor) s).1
  unfolding require get_for_update_or_raise
  require-Goes id target wanted change body actor agree same key to =
      elim (Option-cases (stored id s)) [
        | inl missing ↦
            let n : id ≢ k = λ e. (let m = subst (λ i. stored i s ≡ none) e missing in cc) in
            let d : (id == k) ≡ false = ground arith in rw missing (rw d stays)
        | inr (row, found) ↦ rw found (elim (Bool-cases (is_allowed row.status target)) [
          | inl fits ↦ rw fits (
              write-Goes id row (change row) (body row) actor _ found (same row) (key row)
                (λ e r.
                  let d : (id == k) ≡ true = ground arith in
                  let f = subst (λ x. is_allowed x.status target ≡ true) r fits in
                  rw d (to row ∙ moved target v.status f ∙ agree))
                (λ n. ground arith))
          | inr off ↦ rw off (stays_as (unmoved id target wanted row agree found off))
        ])
      ]

  create-Goes :
      (id now : ℕ) (spec : ResearchJobSpec) → Goes k v v.status (Job.create id now spec s).1
  unfolding Job.create
  create-Goes id now spec =
      elim (Option-cases (find_by (λ j. str_eq j.job_key spec.job_key) s.jobs)) [
        | inr (row, found) ↦ rw found stays
        | inl free ↦ rw free (elim (Bool-cases (clashes (new_job id now spec) s)) [
          | inl clash ↦ rw clash stays
          | inr fine ↦ rw fine (record {
            job = v;
            found = get_row-snoc_old (λ j. j.id) k s.jobs (new_job id now spec) v at;
            same_key = refl;
            reached = refl;
          })
        ])
      ]

  checkpoint-Goes :
      (id : ℕ) (state : Dict) (actor : Option ℕ)
      → Goes k v v.status (Job.checkpoint id state actor s).1
  unfolding Job.checkpoint get_for_update_or_raise
  checkpoint-Goes id state actor = elim (Option-cases (stored id s)) [
    | inl missing ↦ rw missing stays
    | inr (row, found) ↦ rw found (
        write-Goes id row _ _ actor v.status found refl refl (λ e r. ap (λ x. x.status) r)
          (λ n. refl))
  ]

  perform-Goes : (c : JobCall) → Goes k v (step k c v.status) (perform c s)
  unfolding perform Job.start Job.pause Job.resume Job.complete Job.fail Job.cancel
  perform-Goes (JobCall.create id now spec) = create-Goes id now spec
  perform-Goes (JobCall.checkpoint id state actor) = checkpoint-Goes id state actor
  perform-Goes (JobCall.start id actor now) =
      require-Goes id running _ (λ row. record row { status = running; started_at = some now }) _
        actor (tried-running v.status) (λ row. refl) (λ row. refl) (λ row. refl)
  perform-Goes (JobCall.resume id actor) =
      require-Goes id running _ (λ row. record row { status = running; paused_at = none }) _ actor
        (tried-running v.status) (λ row. refl) (λ row. refl) (λ row. refl)
  perform-Goes (JobCall.pause id state actor now) =
      require-Goes id paused _
        (λ row. record row {
          status = paused;
          paused_at = some now;
          checkpoint_state = Job.state_or state row.checkpoint_state;
        })
        _ actor (tried-paused v.status) (λ row. refl) (λ row. refl) (λ row. refl)
  perform-Goes (JobCall.complete id actor now) =
      require-Goes id completed _
        (λ row. record row { status = completed; completed_at = some now }) _ actor
        (tried-completed v.status) (λ row. refl) (λ row. refl) (λ row. refl)
  perform-Goes (JobCall.fail id error actor) =
      require-Goes id failed _ (λ row. record row { status = failed; error = some error }) _ actor
        (tried-failed v.status) (λ row. refl) (λ row. refl) (λ row. refl)
  perform-Goes (JobCall.cancel id reason actor now) =
      require-Goes id cancelled _
        (λ row. record row {
          status = cancelled;
          cancel_reason = some reason;
          cancelled_at = some now;
        })
        _ actor (tried-cancelled v.status) (λ row. refl) (λ row. refl) (λ row. refl)

-- Through every sequence of calls a job stays in the table under its key, and its status is exactly
-- the one that the calls on it prescribe, one after the other: `start` and `resume` make a queued or
-- paused job running, `pause`, `complete` and `fail` make a running one paused, completed or failed,
-- `cancel` makes a queued, running or paused one cancelled, and every other call leaves the status.
pub serve-Goes :
    (cs : List JobCall) (k : ℕ) (v : ResearchJob) (s : Store)
    → stored k s ≡ some v
    → Goes k v (follow k cs v.status) (serve cs s)
unfolding serve
serve-Goes [] k v s at = stays k v s at
serve-Goes (c ∷ cs) k v s at =
    let g = perform-Goes k v s at c in
    let h = serve-Goes cs k g.job (perform c s) g.found in
    record {
      job = h.job;
      found = h.found;
      same_key = h.same_key ∙ g.same_key;
      reached = h.reached ∙ ap (follow k cs) g.reached;
    }
