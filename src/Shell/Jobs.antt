-- ===== src/Shell/Jobs.antt =====
-- shell/src/jobs.c and shell/include/jobs.h: the table of jobs.
-- A pointer to a job is its slot's index. What `waitpid` reports is a list of events.
pub mod Table
pub mod Operations
pub mod Queries
pub mod Listing
pub mod Lifecycle
use operating_systems_and_ne.Prelude.{
  ℕ, zero, suc, ◌+◌, Bool, true, false, not, ◌&&◌, Option, none, some, List, [], ◌∷◌, ◌++◌, ◌==◌,
  ltb, if◌then◌else◌, Text, get_or, set, take, replicate, ℤ, pos, negsuc, minus_one,
}

abbrev pub max_jobs : ℕ
max_jobs = 100

abbrev pub max_cmd_len : ℕ
max_cmd_len = 1024

-- `JobStatus`
pub data JobStatus : Type 0 where
  running stopped finished : JobStatus

-- `Job`
pub record Job : Type 0 where
  pub job_id : ℕ
  pub pid : ℕ
  pub command : Text
  pub status : JobStatus
  pub in_use : Bool

-- The static variables. Job numbers stay below the range of `int`.
pub record Jobs : Type 0 where
  pub table : List Job
  pub next_job_id : ℕ
  pub foreground_pid : ℤ

-- A zeroed slot.
abbrev pub blank : Job
blank = record { job_id = 0; pid = 0; command = []; status = running; in_use = false }

-- The static variables as the program finds them.
abbrev pub zeroed : Jobs
zeroed = record { table = replicate max_jobs blank; next_job_id = 1; foreground_pid = minus_one }

-- The loop of `init_jobs`.
unfoldable pub clear : List Job → List Job
clear [] = []
clear (j ∷ js) = record j { in_use = false } ∷ clear js

-- `init_jobs`
unfoldable pub init_jobs : Jobs → Jobs
unfolding clear
init_jobs s = record s { table = clear s.table }

unfoldable pub next_slot : Option ℕ → Option ℕ
next_slot none = none
next_slot (some i) = some (suc i)

-- The first slot that passes a test.
unfoldable pub find_slot : (Job → Bool) → List Job → Option ℕ
unfolding next_slot
find_slot test [] = none
find_slot test (j ∷ js) = if test j then some 0 else next_slot (find_slot test js)

-- The slot at a pointer.
abbrev pub job_at : Jobs → ℕ → Job
job_at s i = get_or s.table i blank

abbrev pub put_job : Jobs → ℕ → Job → Jobs
put_job s i j = record s { table = set s.table i j }

-- What `add_job` writes.
abbrev pub new_job : Jobs → ℕ → Text → JobStatus → Job
new_job s pid command status = record {
  job_id = s.next_job_id;
  pid = pid;
  command = take 1023 command;
  status = status;
  in_use = true;
}

unfoldable pub add_at : Jobs → Job → Option ℕ → Jobs × ℤ
add_at s j none = (s, minus_one)
add_at s j (some i) = (record (put_job s i j) { next_job_id = s.next_job_id + 1 }, pos j.job_id)

-- `add_job`
unfoldable pub add_job : Jobs → ℕ → Text → JobStatus → Jobs × ℤ
unfolding add_at find_slot
add_job s pid command status =
    add_at s (new_job s pid command status) (find_slot (λ j. not j.in_use) s.table)

-- `get_job`
unfoldable pub get_job : Jobs → ℕ → Option ℕ
unfolding find_slot
get_job s job_id = find_slot (λ j. j.in_use && j.job_id == job_id) s.table

-- `get_job_by_pid`
unfoldable pub get_job_by_pid : Jobs → ℕ → Option ℕ
unfolding find_slot
get_job_by_pid s pid = find_slot (λ j. j.in_use && j.pid == pid) s.table

unfoldable pub release : Jobs → Option ℕ → Jobs
release s none = s
release s (some i) = put_job s i (record (job_at s i) { in_use = false })

-- `remove_job`
unfoldable pub remove_job : Jobs → ℕ → Jobs
unfolding release get_job
remove_job s job_id = release s (get_job s job_id)

-- What `waitpid` reports of a child.
pub data WaitStatus : Type 0 where
  exited : ℕ → WaitStatus
  signaled wait_stopped continued : WaitStatus

-- What `check_background_jobs` prints: the command and its pid.
pub data Report : Type 0 where
  exited_normally exited_abnormally : Text → ℕ → Report

-- One round of the loop in `check_background_jobs`, with what `get_job_by_pid` found.
unfoldable pub settle : Jobs → ℕ → WaitStatus → Option ℕ → Jobs × List Report
unfolding remove_job
settle s pid st none = (s, [])
settle s pid (exited zero) (some i) =
    let j = job_at s i in (remove_job s j.job_id, exited_normally j.command pid ∷ [])
settle s pid (exited (suc c)) (some i) =
    let j = job_at s i in (remove_job s j.job_id, exited_abnormally j.command pid ∷ [])
settle s pid signaled (some i) =
    let j = job_at s i in (remove_job s j.job_id, exited_abnormally j.command pid ∷ [])
settle s pid wait_stopped (some i) = (put_job s i (record (job_at s i) { status = stopped }), [])
settle s pid continued (some i) = (put_job s i (record (job_at s i) { status = running }), [])

unfoldable pub wait_event : Jobs → ℕ × WaitStatus → Jobs × List Report
unfolding settle get_job_by_pid
wait_event s (pid, st) = settle s pid st (get_job_by_pid s pid)

-- `check_background_jobs`, over the children that `waitpid` reports before it returns 0.
unfoldable pub check_background_jobs : Jobs → List (ℕ × WaitStatus) → Jobs × List Report
unfolding wait_event
check_background_jobs s [] = (s, [])
check_background_jobs s (e ∷ es) =
    let (s', out) = wait_event s e in
    let (s'', more) = check_background_jobs s' es in (s'', out ++ more)

-- `job_id > max_id`
unfoldable pub above : ℕ → ℤ → Bool
above n (pos m) = ltb m n
above n (negsuc m) = true

-- The loop of `get_most_recent_job_id`, with the greatest number so far.
unfoldable pub greatest_id : List Job → ℤ → ℤ
unfolding above
greatest_id [] best = best
greatest_id (j ∷ js) best =
    greatest_id js (if j.in_use && above j.job_id best then pos j.job_id else best)

-- `get_most_recent_job_id`
unfoldable pub get_most_recent_job_id : Jobs → ℤ
unfolding greatest_id
get_most_recent_job_id s = greatest_id s.table minus_one

-- `set_foreground_pid`, `get_foreground_pid`
abbrev pub set_foreground_pid : Jobs → ℤ → Jobs
set_foreground_pid s pid = record s { foreground_pid = pid }

abbrev pub get_foreground_pid : Jobs → ℤ
get_foreground_pid s = s.foreground_pid
