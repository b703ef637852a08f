-- ===== src/Shell/Jobs/Lifecycle.antt =====
-- A job of shell/src/jobs.c from `add_job` to the report of its end.
use operating_systems_and_ne.Prelude.{
  ℕ, zero, suc, ◌<◌, ◌≡◌, refl, ap, ◌∙◌, arith, Bool, true, false, not, ◌&&◌, none, some, List, [],
  ◌∷◌, ◌==◌, if◌then◌else◌, Text, take, set, get_or-set_self, length, pos,
}
use operating_systems_and_ne.Shell.Jobs.{
  Job, Jobs, JobStatus, running, blank, find_slot, next_slot, job_at, new_job, add_at, add_job,
  get_job_by_pid, settle, wait_event, WaitStatus, exited, signaled, wait_stopped, continued, Report,
  exited_normally, exited_abnormally,
}
use operating_systems_and_ne.Shell.Jobs.Table.{
  lookup, IsValid, find_slot-some, lookup-set_new, Fresh-of_Below, lookup-Fresh,
}
use operating_systems_and_ne.Shell.Jobs.Queries.{after_wait, lookup-wait_event}

find_none-cons :
    (test : Job → Bool) (x : Job) (js : List Job)
    → find_slot test (x ∷ js) ≡ none
    → (test x ≡ false) × (find_slot test js ≡ none)
unfolding find_slot next_slot
find_none-cons test x js n = (ground arith, ground arith)

-- A search that found nothing finds what is put into the table.
find_slot-set :
    (test : Job → Bool) (js : List Job) (k : ℕ) (j : Job)
    → find_slot test js ≡ none
    → test j ≡ true
    → k < length js
    → find_slot test (set js k j) ≡ some k
unfolding find_slot next_slot
find_slot-set test [] k j n t l = absurd (omega arith)
find_slot-set test (x ∷ js) zero j n t l = rw t refl
find_slot-set test (x ∷ js) (suc k) j n t l =
    let rest = find_none-cons test x js n in
    rw (rest.0, find_slot-set test js k j rest.1 t (omega arith)) refl

-- The child ended.
abbrev pub IsEnd : WaitStatus → Type 0
IsEnd (exited c) = Unit
IsEnd signaled = Unit
IsEnd wait_stopped = ⊥
IsEnd continued = ⊥

-- How the end of a child is reported.
abbrev pub report_of : WaitStatus → Text → ℕ → Report
report_of (exited zero) command pid = exited_normally command pid
report_of _ command pid = exited_abnormally command pid

-- The slot is free, and no job in use has the pid.
pub record IsRoom (s : Jobs) (pid k : ℕ) : Type 0 where
  pub free : find_slot (λ j. not j.in_use) s.table ≡ some k
  pub unused : get_job_by_pid s pid ≡ none

add_job-slot :
    (s : Jobs) (pid k : ℕ) (name : Text) (st : JobStatus)
    → IsRoom s pid k
    → add_job s pid name st ≡ add_at s (new_job s pid name st) (some k)
unfolding add_job
add_job-slot s pid k name st r = rw r.free refl

job_at-add_job :
    (s : Jobs) (pid k : ℕ) (name : Text) (st : JobStatus)
    → IsRoom s pid k
    → job_at (add_job s pid name st).0 k ≡ new_job s pid name st
job_at-add_job s pid k name st r = rw (add_job-slot s pid k name st r) (
    unfold add_at in
    (get_or-set_self s.table k (new_job s pid name st) blank
      (find_slot-some (λ j. not j.in_use) s.table k r.free).0))

get_job_by_pid-add_job :
    (s : Jobs) (pid k : ℕ) (name : Text) (st : JobStatus)
    → IsRoom s pid k
    → get_job_by_pid (add_job s pid name st).0 pid ≡ some k
get_job_by_pid-add_job s pid k name st r = rw (add_job-slot s pid k name st r) (
    unfold add_at get_job_by_pid in
    (find_slot-set (λ j. j.in_use && j.pid == pid) s.table k (new_job s pid name st)
      (unfold get_job_by_pid in r.unused) (ground arith)
      (find_slot-some (λ j. not j.in_use) s.table k r.free).0))

-- Under its number the new job is found, and under every other number what was found before.
lookup-add_job :
    (s : Jobs) (pid k id : ℕ) (name : Text) (st : JobStatus)
    → IsValid s
    → IsRoom s pid k
    → lookup (add_job s pid name st).0.table id
      ≡ (if s.next_job_id == id then some (new_job s pid name st) else lookup s.table id)
lookup-add_job s pid k id name st v r =
    let found = find_slot-some (λ j. not j.in_use) s.table k r.free in
    rw (add_job-slot s pid k name st r) (
      unfold add_at in
      (lookup-set_new s.table k (new_job s pid name st) id found.0 (ground (arith, found.1)) refl
        (Fresh-of_Below s.next_job_id s.table v.below)))

settle_report :
    (s : Jobs) (pid k : ℕ) (st : WaitStatus)
    → IsEnd st
    → (settle s pid st (some k)).1 ≡ report_of st (job_at s k).command pid ∷ []
unfolding settle
settle_report s pid k (exited zero) e = refl
settle_report s pid k (exited (suc c)) e = refl
settle_report s pid k signaled e = refl
settle_report s pid k wait_stopped e = absurd e
settle_report s pid k continued e = absurd e

after_wait_end : (j : Job) (st : WaitStatus) → IsEnd st → after_wait j st ≡ none
unfolding after_wait
after_wait_end j (exited c) e = refl
after_wait_end j signaled e = refl
after_wait_end j wait_stopped e = absurd e
after_wait_end j continued e = absurd e

-- What becomes of a command in the background.
pub record Lived (s : Jobs) (pid : ℕ) (name : Text) (st : WaitStatus) (s' : Jobs) : Type 0 where
  pub listed : lookup s'.table s.next_job_id ≡ some (new_job s pid name running)
  pub report : (wait_event s' (pid, st)).1 ≡ report_of st (take 1023 name) pid ∷ []
  pub gone : (id : ℕ) → lookup (wait_event s' (pid, st)).0.table id ≡ lookup s.table id

-- A child that is added as a job is found under the new number, its end is reported once, by its command and
-- its pid, and then every number finds what it found before.
pub add_job-Lived :
    (s : Jobs) (pid k : ℕ) (name : Text) (st : WaitStatus)
    → IsValid s
    → IsValid (add_job s pid name running).0
    → IsRoom s pid k
    → IsEnd st
    → Lived s pid name st (add_job s pid name running).0
add_job-Lived s pid k name st v v' r e =
    let s' = (add_job s pid name running).0 in
    let found = get_job_by_pid-add_job s pid k name running r in
    let at = job_at-add_job s pid k name running r in
    let fresh : lookup s.table s.next_job_id ≡ none =
      lookup-Fresh s.table s.next_job_id (Fresh-of_Below s.next_job_id s.table v.below) in
    record {
      listed = ground (arith, lookup-add_job s pid k s.next_job_id name running v r);
      report =
          unfold wait_event in
          (rw (found)
            (settle_report s' pid k st e ∙ ap (λ (j : Job). report_of st j.command pid ∷ []) at));
      gone = λ id.
          lookup-wait_event s' pid k id st v' found
          ∙ ap (λ j. if j.job_id == id then after_wait j st else lookup s'.table id) at
          ∙ ground (
            arith,
            lookup-add_job s pid k id name running v r,
            after_wait_end (new_job s pid name running) st e,
            fresh,
          );
    }

pub add_job-number :
    (s : Jobs) (pid k : ℕ) (name : Text) (st : JobStatus)
    → IsRoom s pid k
    → (add_job s pid name st).1 ≡ pos s.next_job_id
add_job-number s pid k name st r = rw (add_job-slot s pid k name st r) (unfold add_at in refl)
