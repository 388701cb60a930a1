-- ===== src/Research/Job/Alike.antt =====
-- Which jobs `start` and `resume` of backend/research/job.py accept.
use the_dashboard.Common.{ℕ, true, Option, none, some, ◌≡◌, ◌⊎◌, inl, inr, refl, returned}
use the_dashboard.Research.Job
use the_dashboard.Research.Tables.{JobStatus, queued, running, paused, ResearchJob, Store}
use the_dashboard.Research.Job.{is_allowed, get_for_update_or_raise, require, write}
use the_dashboard.Research.Job.Reach.{stored}

running_from : (s : JobStatus) → (s ≡ queued) ⊎ (s ≡ paused) → is_allowed s running ≡ true
unfolding is_allowed
running_from s (inl p) = rw p refl
running_from s (inr p) = rw p refl

-- `start` and `resume` accept a queued job and a paused one alike: a job that is resumed while it is
-- queued runs without the time of a start, and one that is started while it is paused runs with a
-- new one and keeps the time of its pause.
pub start-resume :
    (id : ℕ) (v : ResearchJob) (actor : Option ℕ) (now : ℕ) (s : Store)
    → stored id s ≡ some v
    → (v.status ≡ queued) ⊎ (v.status ≡ paused)
    → ((Job.resume id actor s).0 ≡ returned (record v { status = running; paused_at = none }))
      × ((Job.start id actor now s).0
          ≡ returned (record v { status = running; started_at = some now }))
unfolding Job.resume Job.start require get_for_update_or_raise write
start-resume id v actor now s found from =
    let fits = running_from v.status from in (rw found (rw fits refl), rw found (rw fits refl))
