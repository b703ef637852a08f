-- ===== src/Shell/JobControl.antt =====
-- shell/src/job_control.c and shell/src/signals.c: the commands `fg`, `bg`, `ping` and `activities`,
-- and the handlers of Ctrl-C and Ctrl-Z.
-- `strtol` is a parameter: the number, and the text behind it. `kill` is recorded as a signal sent,
-- and what `waitpid` and `kill` return is an argument.
pub mod Laws
use operating_systems_and_ne.Prelude.{
  ℕ, zero, suc, ◌+◌, ◌-◌, ◌%◌, ◌^◌, Bool, true, false, not, ◌&&◌, ◌||◌, Option, none, some, List,
  [], ◌∷◌, ◌++◌, ◌==◌, ltb, if◌then◌else◌, Text, peek, ℤ, pos, negsuc, minus_one, is_pos, pos_part,
  Status, success, failure,
}
use operating_systems_and_ne.Shell.Jobs.{
  Job, Jobs, running, stopped, finished, JobStatus, job_at, put_job, get_job, get_job_by_pid,
  remove_job, WaitStatus, exited, signaled, wait_stopped, continued, get_most_recent_job_id,
  set_foreground_pid,
}
use operating_systems_and_ne.Shell.Jobs.Listing.{list_jobs}

pub data Signal : Type 0 where
  sigint sigtstp sigcont : Signal

-- What the commands print and send.
pub data Effect : Type 0 where
  sends : ℕ → Signal → Effect
  -- `kill(pid, signal)` of `ping`
  pings : ℕ → ℤ → Effect
  no_such_job invalid_syntax already_running no_such_process newline : Effect
  shows : Text → Effect
  -- `[job_id] command &`
  resumed : ℕ → Text → Effect
  -- `Sent signal …`
  sent : ℤ → ℕ → Effect
  -- `[job_id] Stopped command`
  reports_stopped : ℕ → Text → Effect
  lists : List (ℕ × Text × Text) → Effect

abbrev pub Outcome : Type 0
Outcome = Jobs × List Effect × Status

-- `(int)` of a positive `long`, as the bit pattern: the numbers of jobs lie below 2^31.
unfoldable pub to_int : ℕ → ℕ
to_int n = n % 2 ^ 32

-- `signal_long % 32` with C's sign.
unfoldable pub signal_number : ℤ → ℤ
signal_number (pos n) = pos (n % 32)
signal_number (negsuc n) = if (n + 1) % 32 == 0 then pos 0 else negsuc ((n + 1) % 32 - 1)

-- `cmd_activities`
unfoldable pub cmd_activities : Jobs → Outcome
cmd_activities s = (s, lists (list_jobs s) ∷ [], success)

-- The job that `fg` and `bg` act on, or what they print instead.
pub data Choice : Type 0 where
  chosen : ℕ → Choice
  refused : Effect → Choice

module _ (strtol : Text → ℤ × Text) where
  -- A job number among the arguments: a positive number with nothing behind it.
  unfoldable pub job_argument : Text → Option ℕ
  unfolding to_int
  job_argument arg =
      let (n, end) = strtol arg in
      if not (peek end == 0) || not (is_pos n) then none else some (to_int (pos_part n))

  unfoldable pub recent : ℤ → Option ℕ
  recent (pos n) = some n
  recent (negsuc n) = none

  unfoldable pub choose_slot : Option ℕ → Choice
  choose_slot none = refused no_such_job
  choose_slot (some k) = chosen k

  unfoldable pub choose_id : Jobs → Option ℕ → Choice
  unfolding choose_slot
  choose_id s none = refused no_such_job
  choose_id s (some id) = choose_slot (get_job s id)

  -- The head of `cmd_fg` and `cmd_bg`; the list is `argv[1]`, ….
  unfoldable pub choose : Jobs → List Text → Choice
  unfolding choose_id recent job_argument
  choose s [] = choose_id s (recent (get_most_recent_job_id s))
  choose s (arg ∷ []) = choose_id s (job_argument arg)
  choose s (a ∷ b ∷ args) = refused invalid_syntax

-- `sigint_handler`
unfoldable pub interrupt : Jobs → ℤ → List Effect
interrupt s (pos (suc n)) = sends (suc n) sigint ∷ newline ∷ []
interrupt s _ = newline ∷ []

unfoldable pub sigint_handler : Jobs → Jobs × List Effect
unfolding interrupt
sigint_handler s = (s, interrupt s s.foreground_pid)

-- `sigtstp_handler`, at the foreground process and the slot of its job.
unfoldable pub mark_stopped : Jobs → ℕ → Option ℕ → Jobs × List Effect
mark_stopped s pid none = (set_foreground_pid s minus_one, sends pid sigtstp ∷ [])
mark_stopped s pid (some k) =
    let j = job_at s k in
    (
      set_foreground_pid (put_job s k (record j { status = stopped })) minus_one,
      sends pid sigtstp ∷ reports_stopped j.job_id j.command ∷ [],
    )

unfoldable pub stop_foreground : Jobs → ℤ → Jobs × List Effect
unfolding mark_stopped get_job_by_pid
stop_foreground s (pos (suc n)) = mark_stopped s (suc n) (get_job_by_pid s (suc n))
stop_foreground s _ = (s, [])

unfoldable pub sigtstp_handler : Jobs → Jobs × List Effect
unfolding stop_foreground
sigtstp_handler s = stop_foreground s s.foreground_pid

-- The keys pressed while the shell waits for a foreground job.
pub data Key : Type 0 where
  ctrl_c ctrl_z : Key

unfoldable pub press : Jobs → List Key → Jobs × List Effect
unfolding sigint_handler sigtstp_handler
press s [] = (s, [])
press s (ctrl_c ∷ ks) =
    let (s', out) = sigint_handler s in let (s'', more) = press s' ks in (s'', out ++ more)
press s (ctrl_z ∷ ks) =
    let (s', out) = sigtstp_handler s in let (s'', more) = press s' ks in (s'', out ++ more)

-- The job behind the wait of `fg`.
unfoldable pub after_fg : Jobs → ℕ → WaitStatus → Jobs
after_fg s k (exited c) = remove_job s (job_at s k).job_id
after_fg s k signaled = remove_job s (job_at s k).job_id
after_fg s k wait_stopped = put_job s k (record (job_at s k) { status = stopped })
after_fg s k continued = s

unfoldable pub is_stopped : JobStatus → Bool
is_stopped stopped = true
is_stopped _ = false

-- A pid by its bit pattern; -1 is 2^32 - 1.
unfoldable pub signed : ℕ → ℤ
signed pid = if ltb pid (2 ^ 31) then pos pid else negsuc (2 ^ 32 - 1 - pid)

-- `cmd_fg` on the job in slot `k`, up to its wait.
unfoldable pub start_foreground : Jobs → ℕ → Jobs × List Effect
unfolding is_stopped signed
start_foreground s k =
    let j = job_at s k in
    (
      set_foreground_pid (put_job s k (record j { status = running })) (signed j.pid),
      shows j.command ∷ (if is_stopped j.status then sends j.pid sigcont ∷ [] else []),
    )

-- `cmd_fg` on the job in slot `k`: the keys are those pressed during its wait, the status what
-- `waitpid` reports.
unfoldable pub foreground : Jobs → ℕ → List Key → WaitStatus → Outcome
unfolding after_fg start_foreground press
foreground s k keys st =
    let (s', out) = start_foreground s k in
    let (s'', more) = press s' keys in
    (after_fg (set_foreground_pid s'' minus_one) k st, out ++ more, success)

-- `cmd_bg` on the job in slot `k`, by its status.
unfoldable pub resume : Jobs → ℕ → JobStatus → Outcome
resume s k running = (s, already_running ∷ [], failure)
resume s k st =
    let j = job_at s k in
    (
      put_job s k (record j { status = running }),
      sends j.pid sigcont ∷ resumed j.job_id j.command ∷ [],
      success,
    )

unfoldable pub background : Jobs → ℕ → Outcome
unfolding resume
background s k = resume s k (job_at s k).status

module _ (strtol : Text → ℤ × Text) where
  unfoldable pub fg_choice : Jobs → List Key → WaitStatus → Choice → Outcome
  unfolding foreground
  fg_choice s keys st (refused e) = (s, e ∷ [], failure)
  fg_choice s keys st (chosen k) = foreground s k keys st

  -- `cmd_fg`
  unfoldable pub cmd_fg : Jobs → List Text → List Key → WaitStatus → Outcome
  unfolding fg_choice choose
  cmd_fg s args keys st = fg_choice s keys st (choose strtol s args)

  unfoldable pub bg_choice : Jobs → Choice → Outcome
  unfolding background
  bg_choice s (refused e) = (s, e ∷ [], failure)
  bg_choice s (chosen k) = background s k

  -- `cmd_bg`
  unfoldable pub cmd_bg : Jobs → List Text → Outcome
  unfolding bg_choice choose
  cmd_bg s args = bg_choice s (choose strtol s args)

  -- `cmd_ping` behind the test of its argument count; `delivered` is whether `kill` succeeds.
  unfoldable pub ping : Jobs → ℤ × Text → ℤ × Text → Bool → Outcome
  unfolding signal_number
  ping s (pid, end) (number, end') delivered =
      if not (peek end == 0) || not (is_pos pid)
      then (s, invalid_syntax ∷ [], failure)
      else if not (peek end' == 0)
      then (s, invalid_syntax ∷ [], failure)
      else let target = to_int (pos_part pid) in
        if delivered
        then (s, pings target (signal_number number) ∷ sent number target ∷ [], success)
        else (s, pings target (signal_number number) ∷ no_such_process ∷ [], failure)

  unfoldable pub cmd_ping : Jobs → List Text → Bool → Outcome
  unfolding ping
  cmd_ping s (a ∷ b ∷ []) delivered = ping s (strtol a) (strtol b) delivered
  cmd_ping s args delivered = (s, invalid_syntax ∷ [], failure)
