-- ===== src/Xv6/Steps.antt =====
-- A round of each scheduler of xv6/kernel/proc.c and xv6/kernel/mlfq_scheduler.c, as a whole. `swtch` is a
-- parameter: it runs the process at an index of the table until that gives the processor back.
pub mod Fair
use operating_systems_and_ne.Prelude.{
  ℕ, zero, suc, ◌+◌, ◌-◌, ◌%◌, ◌^◌, Bool, true, false, Option, none, some, List, [], ◌∷◌, leb,
  if◌then◌else◌, get_or, set, pos, ◌++◌, pos, ◌++◌,
}
use operating_systems_and_ne.Xv6.Schedulers.{
  ProcState, unused, running, Proc, is_ready, fcfs_choice, charge, boost_interval, boost,
  mlfq_choice, demote,
}

-- An entry that is not used.
abbrev pub no_proc : Proc
no_proc = record {
  state = unused;
  pid = 0;
  ctime = 0;
  nice = pos 0;
  vruntime = 0;
  weight = 1024;
  runtime = 0;
  queue = 0;
  time_slice = 1;
  queue_enter_time = 0;
}

-- `p->state = RUNNING`
unfoldable pub set_running : List Proc → ℕ → List Proc
set_running table i = set table i (record (get_or table i no_proc) { state = running })

module _ (swtch : List Proc → ℕ → List Proc) where
  -- One process of the round-robin loop: the table, with its index if it ran.
  unfoldable pub visit_proc : List Proc → ℕ → List Proc × List ℕ
  unfolding set_running
  visit_proc table i =
      if is_ready (get_or table i no_proc)
      then (swtch (set_running table i) i, i ∷ [])
      else (table, [])

  -- The loop of the round-robin scheduler, with `n` processes left from `i` on: the table behind it, and
  -- the processes that ran.
  unfoldable pub round_robin : ℕ → List Proc → ℕ → List Proc × List ℕ
  unfolding visit_proc
  round_robin zero table i = (table, [])
  round_robin (suc n) table i =
      let (table', ran) = visit_proc table i in
      let (table'', more) = round_robin n table' (suc i) in (table'', ran ++ more)

  -- Behind the choice of the FCFS scheduler.
  unfoldable pub run_chosen : List Proc → Option (ℕ × Proc) → List Proc
  unfolding set_running
  run_chosen table none = table
  run_chosen table (some (i, p)) = swtch (set_running table i) i

  -- A round of the FCFS scheduler.
  unfoldable pub fcfs_round : List Proc → List Proc
  unfolding run_chosen fcfs_choice
  fcfs_round table = run_chosen table (fcfs_choice table)

  -- The charge for the ticks that the process ran, a difference of type `uint64`.
  unfoldable pub charge_at : List Proc → ℕ → (start : ℕ) → List Proc
  unfolding charge
  charge_at table i start =
      let p = get_or table i no_proc in
      set table i (charge p ((p.runtime + 2 ^ 64 - start) % 2 ^ 64))

  unfoldable pub run_and_charge : List Proc → Option (ℕ × Proc) → List Proc
  unfolding set_running charge_at
  run_and_charge table none = table
  run_and_charge table (some (i, p)) = charge_at (swtch (set_running table i) i) i p.runtime

-- The table, the 32 bits of `ticks`, and the static `last_boost` of the MLFQ scheduler, a `uint64` as the differences
-- of ticks are.
pub record Mlfq : Type 0 where
  pub table : List Proc
  pub ticks : ℕ
  pub last_boost : ℕ

-- The boost, where it is due.
unfoldable pub boost_due : Mlfq → Mlfq
unfolding boost
boost_due m =
    if leb boost_interval ((m.ticks + 2 ^ 64 - m.last_boost) % 2 ^ 64)
    then record m { table = boost m.table; last_boost = m.ticks }
    else m

module _ (swtch : List Proc → ℕ → List Proc × ℕ) where
  -- Behind the search; `swtch` returns the ticks gone by, too.
  unfoldable pub run_and_demote : Mlfq → Option (ℕ × Proc) → Mlfq
  unfolding set_running demote
  run_and_demote m none = m
  run_and_demote m (some (i, p)) =
      let (table, elapsed) = swtch (set_running m.table i) i in
      let ticks = (m.ticks + elapsed) % 2 ^ 32 in
      record m {
        table = set table i (demote (get_or table i no_proc) ((ticks + 2 ^ 64 - m.ticks) % 2 ^ 64));
        ticks = ticks;
      }

  -- A round of the MLFQ scheduler.
  unfoldable pub mlfq_round : Mlfq → Mlfq
  unfolding boost_due run_and_demote mlfq_choice
  mlfq_round m = let m' = boost_due m in run_and_demote m' (mlfq_choice m'.table)
