-- ===== src/Shell/JobControl/Laws.antt =====
-- What `fg` and `bg` of shell/src/job_control.c and the signal handlers do to the table of jobs.
use operating_systems_and_ne.Prelude.{
  ℕ, zero, suc, ◌<◌, ◌≡◌, ◌≢◌, refl, ap, ◌∙◌, true, Option, none, some, List, [], ◌∷◌, ◌==◌,
  if◌then◌else◌, Text, ℤ, pos, negsuc, minus_one, length, length-set, get_or-set_self, arith,
}
use operating_systems_and_ne.Shell.Jobs.{
  Job, Jobs, running, stopped, finished, JobStatus, job_at, put_job, get_job, get_job_by_pid,
  remove_job, release, blank, WaitStatus, exited, signaled, wait_stopped, continued,
  set_foreground_pid,
}
use operating_systems_and_ne.Shell.Jobs.Table.{lookup, IsValid, lookup-set_same}
use operating_systems_and_ne.Shell.Jobs.Operations.{
  remove_job-IsValid, restatus-IsValid, lookup-remove_job,
}
use operating_systems_and_ne.Shell.Jobs.Queries.{after_wait}
use operating_systems_and_ne.Shell.JobControl.{
  cmd_fg, cmd_bg, foreground, background, resume, after_fg, press, Key, ctrl_c, ctrl_z,
  sigtstp_handler, stop_foreground, mark_stopped, start_foreground, signed, Choice, chosen, refused,
  choose, fg_choice, bg_choice,
}

pub focus-IsValid : (s : Jobs) (pid : ℤ) → IsValid s → IsValid (set_foreground_pid s pid)
focus-IsValid s pid v = record {
  size = v.size;
  distinct = v.distinct;
  below = v.below;
  next_pos = v.next_pos;
}

mark_stopped-IsValid :
    (s : Jobs) (pid : ℕ) (o : Option ℕ) → IsValid s → IsValid (mark_stopped s pid o).0
unfolding mark_stopped
mark_stopped-IsValid s pid none v = focus-IsValid s minus_one v
mark_stopped-IsValid s pid (some k) v = focus-IsValid _ minus_one (restatus-IsValid s k stopped v)

stop_foreground-IsValid : (s : Jobs) (fg : ℤ) → IsValid s → IsValid (stop_foreground s fg).0
unfolding stop_foreground
stop_foreground-IsValid s (pos (suc n)) v =
    mark_stopped-IsValid s (suc n) (get_job_by_pid s (suc n)) v
stop_foreground-IsValid s (pos zero) v = v
stop_foreground-IsValid s (negsuc n) v = v

pub press-IsValid : (s : Jobs) (keys : List Key) → IsValid s → IsValid (press s keys).0
unfolding press
press-IsValid s [] v = v
press-IsValid s (ctrl_c ∷ ks) v = press-IsValid s ks v
press-IsValid s (ctrl_z ∷ ks) v =
    press-IsValid (sigtstp_handler s).0 ks (stop_foreground-IsValid s s.foreground_pid v)

after_fg-IsValid : (s : Jobs) (k : ℕ) (st : WaitStatus) → IsValid s → IsValid (after_fg s k st)
unfolding after_fg
after_fg-IsValid s k (exited c) v = remove_job-IsValid s _ v
after_fg-IsValid s k signaled v = remove_job-IsValid s _ v
after_fg-IsValid s k wait_stopped v = restatus-IsValid s k stopped v
after_fg-IsValid s k continued v = v

foreground-IsValid :
    (s : Jobs) (k : ℕ) (keys : List Key) (st : WaitStatus)
    → IsValid s
    → IsValid (foreground s k keys st).0
unfolding foreground
foreground-IsValid s k keys st v =
    let started =
      focus-IsValid (put_job s k (record (job_at s k) { status = running }))
        (signed (job_at s k).pid) (restatus-IsValid s k running v) in
    after_fg-IsValid _ k st
      (focus-IsValid _ minus_one (press-IsValid (start_foreground s k).0 keys started))

release_focus : (s : Jobs) (o : Option ℕ) → (release s o).foreground_pid ≡ s.foreground_pid
unfolding release
release_focus s none = refl
release_focus s (some k) = refl

after_fg_focus :
    (s : Jobs) (k : ℕ) (st : WaitStatus) → (after_fg s k st).foreground_pid ≡ s.foreground_pid
unfolding after_fg remove_job
after_fg_focus s k (exited c) = release_focus s (get_job s (job_at s k).job_id)
after_fg_focus s k signaled = release_focus s (get_job s (job_at s k).job_id)
after_fg_focus s k wait_stopped = refl
after_fg_focus s k continued = refl

module _ (strtol : Text → ℤ × Text) where
  fg_choice-IsValid :
      (s : Jobs) (keys : List Key) (st : WaitStatus) (c : Choice)
      → IsValid s
      → s.foreground_pid ≡ minus_one
      → IsValid (fg_choice strtol s keys st c).0
        × ((fg_choice strtol s keys st c).0.foreground_pid ≡ minus_one)
  unfolding fg_choice foreground
  fg_choice-IsValid s keys st (refused e) v f = (v, f)
  fg_choice-IsValid s keys st (chosen k) v f =
      (foreground-IsValid s k keys st v, after_fg_focus _ k st)

  -- Whatever the arguments of `fg`, the keys pressed while it waits and the way the wait ends, the
  -- table stays well formed, and no process is left in the foreground.
  pub cmd_fg-IsValid :
      (s : Jobs) (args : List Text) (keys : List Key) (st : WaitStatus)
      → IsValid s
      → s.foreground_pid ≡ minus_one
      → IsValid (cmd_fg strtol s args keys st).0
        × ((cmd_fg strtol s args keys st).0.foreground_pid ≡ minus_one)
  unfolding cmd_fg
  cmd_fg-IsValid s args keys st v f = fg_choice-IsValid s keys st (choose strtol s args) v f

resume-IsValid : (s : Jobs) (k : ℕ) (st : JobStatus) → IsValid s → IsValid (resume s k st).0
unfolding resume
resume-IsValid s k running v = v
resume-IsValid s k stopped v = restatus-IsValid s k running v
resume-IsValid s k finished v = restatus-IsValid s k running v

module _ (strtol : Text → ℤ × Text) where
  bg_choice-IsValid : (s : Jobs) (c : Choice) → IsValid s → IsValid (bg_choice strtol s c).0
  unfolding bg_choice background
  bg_choice-IsValid s (refused e) v = v
  bg_choice-IsValid s (chosen k) v = resume-IsValid s k (job_at s k).status v

  -- `bg` keeps the table well formed, whatever its arguments.
  pub cmd_bg-IsValid : (s : Jobs) (args : List Text) → IsValid s → IsValid (cmd_bg strtol s args).0
  unfolding cmd_bg
  cmd_bg-IsValid s args v = bg_choice-IsValid s (choose strtol s args) v

after_fg_lem :
    (s : Jobs) (k id : ℕ) (st : WaitStatus)
    → IsValid s
    → k < length s.table
    → (job_at s k).in_use ≡ true
    → st ≢ continued
    → lookup (after_fg s k st).table id
      ≡ (if (job_at s k).job_id == id then after_wait (job_at s k) st else lookup s.table id)
unfolding after_fg after_wait
after_fg_lem s k id (exited c) v l u r = lookup-remove_job s (job_at s k).job_id id v
after_fg_lem s k id signaled v l u r = lookup-remove_job s (job_at s k).job_id id v
after_fg_lem s k id wait_stopped v l u r = lookup-set_same s.table k _ id v.distinct l u u refl
after_fg_lem s k id continued v l u r = absurd (r refl)

-- `fg` on a job, with no key pressed while it waits for the job to end or stop: the job is gone if
-- it ended, and stopped if it stopped; every other number finds what it found before.
pub lookup-foreground :
    (s : Jobs) (k id : ℕ) (st : WaitStatus)
    → IsValid s
    → k < length s.table
    → (job_at s k).in_use ≡ true
    → st ≢ continued
    → lookup (foreground s k [] st).0.table id ≡ (
        if (job_at s k).job_id == id
        then after_wait (record (job_at s k) { status = running }) st
        else lookup s.table id)
unfolding foreground
lookup-foreground s k id st v l u r =
    let j' = record (job_at s k) { status = running } in
    let s' = set_foreground_pid (put_job s k j') minus_one in
    let here : job_at s' k ≡ j' = get_or-set_self s.table k j' blank l in
    let l' : k < length s'.table = omega (arith, length-set s.table k j') in
    let v' = focus-IsValid _ minus_one (restatus-IsValid s k running v) in
    let u' : (job_at s' k).in_use ≡ true = ap (λ (j : Job). j.in_use) here ∙ u in
    let law = after_fg_lem s' k id st v' l' u' r in
    ground (arith, law, here, lookup-set_same s.table k j' id v.distinct l u u refl)
