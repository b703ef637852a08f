-- ===== src/Shell/Tests/Tables.antt =====
-- Concrete job tables, for shell/src/jobs.c and shell/src/job_control.c.
use mathlib.Core.List.{Perm}
use operating_systems_and_ne.Prelude.{
  ◌≡◌, ◌⊎◌, ◌≢◌, refl, false, true, none, some, List, [], ◌∷◌, codes, arith, minus_one, set,
  if◌then◌else◌, ◌==◌, map, ◌++◌, All,
}
use operating_systems_and_ne.Shell.Jobs.{
  Job, Jobs, zeroed, running, signaled, wait_stopped, new_job, add_job, job_at, get_job_by_pid,
  remove_job, wait_event, find_slot, init_jobs, clear, continued,
}
use operating_systems_and_ne.Shell.Jobs.Table.{lookup, IsValid, put_new-IsValid}
use operating_systems_and_ne.Shell.Jobs.Operations.{
  init_jobs-IsValid, IsFull, Added, add_job_cases, lookup-remove_job,
}
use operating_systems_and_ne.Shell.Jobs.Queries.{after_wait, lookup-wait_event}
use operating_systems_and_ne.Shell.Jobs.Listing.{line_of, list_jobs, IsSorted, list_jobs_lem}
use operating_systems_and_ne.Shell.JobControl.{foreground}
use operating_systems_and_ne.Shell.JobControl.Laws.{lookup-foreground}
use operating_systems_and_ne.Shell.Executor.{ParsedCommand}
use operating_systems_and_ne.Shell.Run.{Files}

abbrev sleeper : Job
sleeper = record {
  job_id = 1;
  pid = 40;
  command = codes "sleep 9";
  status = running;
  in_use = true;
}

signaled≢continued : signaled ≢ continued
signaled≢continued e = cc

-- One job, in the first slot.
abbrev pub one_job : Jobs
one_job = record { table = set zeroed.table 0 sleeper; next_job_id = 2; foreground_pid = minus_one }

zeroed-IsValid : IsValid zeroed
unfolding init_jobs clear
zeroed-IsValid = init_jobs-IsValid zeroed (omega arith) (omega arith)

pub one_job-IsValid : IsValid one_job
one_job-IsValid = put_new-IsValid zeroed 0 sleeper zeroed-IsValid refl

found_by_pid : get_job_by_pid one_job 40 ≡ some 0
unfolding get_job_by_pid find_slot
found_by_pid = refl

add_job_cases_example :
    (IsFull one_job.table × (add_job one_job 41 (codes "ls") running ≡ (one_job, minus_one)))
    ⊎ Added one_job
        (new_job one_job 41 (codes "ls") running)
        (add_job one_job 41 (codes "ls") running)
add_job_cases_example = add_job_cases one_job 41 (codes "ls") running one_job-IsValid

lookup-remove_job_example :
    lookup (remove_job one_job 1).table 1 ≡ (if 1 == 1 then none else lookup one_job.table 1)
lookup-remove_job_example = lookup-remove_job one_job 1 1 one_job-IsValid

lookup-wait_event_example :
    lookup (wait_event one_job (40, wait_stopped)).0.table 1
    ≡ (if 1 == 1 then after_wait (job_at one_job 0) wait_stopped else lookup one_job.table 1)
lookup-wait_event_example =
    lookup-wait_event one_job 40 0 1 wait_stopped one_job-IsValid found_by_pid

-- Two jobs behind a slot that is free again.
abbrev two_jobs : List Job
two_jobs =
    record sleeper { in_use = false }
    ∷ sleeper
    ∷ record sleeper { job_id = 2; pid = 41; command = codes "cat" }
    ∷ []

abbrev listed : Jobs
listed = record { table = two_jobs; next_job_id = 3; foreground_pid = minus_one }

list_jobs_lem_example :
    (js : List Job) × (rest : List Job) × (list_jobs listed ≡ map line_of js)
    × IsSorted js
    × All (λ j. j.in_use ≡ true) js
    × All (λ j. j.in_use ≡ false) rest
    × Perm (js ++ rest) two_jobs
list_jobs_lem_example = list_jobs_lem listed

lookup-foreground_example : lookup (foreground one_job 0 [] signaled).0.table 1 ≡ (
    if 1 == 1
    then after_wait (record sleeper { status = running }) signaled
    else lookup one_job.table 1)
lookup-foreground_example =
    lookup-foreground one_job 0 1 signaled one_job-IsValid (omega arith) refl signaled≢continued

abbrev pub all_open : Files
all_open = record { readable = λ name. true; writable = λ name. true; null_opens = true }

abbrev pub cat_command : ParsedCommand
cat_command = record {
  args = codes "cat" ∷ [];
  input_file = some (codes "in");
  output_file = none;
  append_output = false;
}
