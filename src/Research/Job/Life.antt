-- ===== src/Research/Job/Life.antt =====
-- The life of a job, status by status, and the transition table of backend/research/job.py.
use the_dashboard.Common.{true, false, ◌≡◌, refl, arith, if◌then◌else◌}
use the_dashboard.Research.Tables.{JobStatus, queued, running, paused, completed, failed, cancelled}
use the_dashboard.Research.Job.{is_allowed}

-- What each method makes of a status, written down from the life of a job.
abbrev pub running_after : JobStatus → JobStatus
running_after queued = running
running_after paused = running
running_after s = s

abbrev pub left_running : (target : JobStatus) → JobStatus → JobStatus
left_running target running = target
left_running target s = s

abbrev pub cancelled_after : JobStatus → JobStatus
cancelled_after queued = cancelled
cancelled_after running = cancelled
cancelled_after paused = cancelled
cancelled_after s = s

-- The table of the code allows the same.
abbrev pub tried : (target current : JobStatus) → JobStatus
tried target current = if is_allowed current target then target else current

pub tried-running : (s : JobStatus) → tried running s ≡ running_after s
unfolding is_allowed
tried-running s = ground arith

pub tried-paused : (s : JobStatus) → tried paused s ≡ left_running paused s
unfolding is_allowed
tried-paused s = ground arith

pub tried-completed : (s : JobStatus) → tried completed s ≡ left_running completed s
unfolding is_allowed
tried-completed s = ground arith

pub tried-failed : (s : JobStatus) → tried failed s ≡ left_running failed s
unfolding is_allowed
tried-failed s = ground arith

pub tried-cancelled : (s : JobStatus) → tried cancelled s ≡ cancelled_after s
unfolding is_allowed
tried-cancelled s = ground arith

pub moved : (target s : JobStatus) → is_allowed s target ≡ true → target ≡ tried target s
moved target s h = rw h refl

pub kept : (target s : JobStatus) → is_allowed s target ≡ false → s ≡ tried target s
kept target s h = rw h refl
