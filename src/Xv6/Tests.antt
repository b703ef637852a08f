-- ===== src/Xv6/Tests.antt =====
-- Concrete tables of processes, for xv6/kernel/proc.c and xv6/kernel/mlfq_scheduler.c.
use operating_systems_and_ne.Prelude.{
  ℕ, ◌≡◌, ◌≢◌, ◌≤◌, refl, sym, subst, true, All, set, get_or, get_or-set_ne, List, [], ◌∷◌, arith,
  pos, ◌+◌, ◌-◌, ◌%◌, ◌^◌, ℤ, minus_one, min, ◌==◌, if◌then◌else◌,
}
use operating_systems_and_ne.Xv6.Files.{
  Kernel, Read, file_at, sys_getreadcount, total, total_of, filereads, filereads-count,
}
use operating_systems_and_ne.Xv6.Schedulers.{
  Proc, is_ready, runnable, sleeping, mlfq_choice, calculate_weight,
}
use operating_systems_and_ne.Xv6.Schedulers.Choice.{IsChoice, calculate_weight_bounds}
use operating_systems_and_ne.Xv6.Schedulers.Queues.{IsQueued, mlfq_choice-IsChoice}
use operating_systems_and_ne.Xv6.Schedulers.{cfs_slice, count_ready}
use operating_systems_and_ne.Xv6.Trap.{usertrap, interrupted, usertrap-yields}
use operating_systems_and_ne.Prelude.{◌<◌}
use operating_systems_and_ne.Xv6.Steps.{no_proc, round_robin, Mlfq, mlfq_round}
use operating_systems_and_ne.Xv6.Steps.Fair.{IsReady, round_robin-fair, mlfq_round-AllQueued}
use operating_systems_and_ne.Xv6.Cfs.Panics.{Rounds, cfs_round_cases}
use mathlib.Core.List.{Mem}

abbrev shell_proc : Proc
shell_proc = record {
  state = runnable;
  pid = 2;
  ctime = 10;
  nice = pos 0;
  vruntime = 7;
  weight = 1024;
  runtime = 7;
  queue = 1;
  time_slice = 4;
  queue_enter_time = 10;
}

abbrev some_table : List Proc
some_table =
    record shell_proc { state = sleeping; pid = 1; ctime = 1 }
    ∷ shell_proc
    ∷ record shell_proc { pid = 3; ctime = 12; vruntime = 2; queue = 0; time_slice = 1 }
    ∷ []

mlfq_choice-IsChoice_example : IsChoice (λ p. p.queue) some_table (mlfq_choice some_table)
mlfq_choice-IsChoice_example =
    mlfq_choice-IsChoice some_table (omega arith, (omega arith, (omega arith, tt)))

shell_proc-IsQueued : IsQueued shell_proc
shell_proc-IsQueued = record {
  queue_lt = omega arith;
  slice_pos = omega arith;
  slice_le = omega arith;
}

-- Each process gives the processor back at once.
abbrev yields : List Proc → ℕ → List Proc
yields table i = set table i (record (get_or table i no_proc) { state = runnable })

cfs_round_cases_example : Rounds yields some_table
cfs_round_cases_example = cfs_round_cases yields some_table

yields-IsReady :
    (table : List Proc) (i j : ℕ) → j ≢ i → IsReady table j → IsReady (yields table i) j
yields-IsReady table i j ne h =
    subst (λ p. is_ready p ≡ true)
      (sym (
        get_or-set_ne table (record (get_or table i no_proc) { state = runnable }) no_proc
          (λ e. ne (sym e))))
      h

round_robin-fair_example : Mem 2 (round_robin yields 3 some_table 0).1
round_robin-fair_example = round_robin-fair yields yields-IsReady 3 some_table 2 (omega arith) refl

-- Each process runs for five ticks.
abbrev runs_five : List Proc → ℕ → List Proc × ℕ
runs_five table i = (table, 5)

abbrev at_boost : Mlfq
at_boost = record { table = some_table; ticks = 100; last_boost = 50 }

at_boost-AllQueued : All IsQueued at_boost.table
at_boost-AllQueued = (
  record { queue_lt = omega arith; slice_pos = omega arith; slice_le = omega arith },
  (
    shell_proc-IsQueued,
    (record { queue_lt = omega arith; slice_pos = omega arith; slice_le = omega arith }, tt),
  ),
)

mlfq_round-AllQueued_example : All IsQueued (mlfq_round runs_five at_boost).table
mlfq_round-AllQueued_example =
    mlfq_round-AllQueued runs_five (λ table i h. h) at_boost at_boost-AllQueued

calculate_weight_bounds_example :
    (15 ≤ calculate_weight (pos 19))
    × (calculate_weight (pos 19) ≤ 1024)
    × (calculate_weight (pos 20) ≤ calculate_weight (pos 19))
calculate_weight_bounds_example = calculate_weight_bounds 19

usertrap-yields_example :
    (n : ℕ) × (n < cfs_slice (count_ready some_table))
    × ((usertrap true true some_table (interrupted some_table n shell_proc)).1 ≡ true)
unfolding cfs_slice count_ready
usertrap-yields_example = usertrap-yields some_table shell_proc (omega arith)

-- Files of ten bytes, one of which cannot be read.
abbrev ten_bytes : ℕ → ℕ → ℕ → ℕ → ℤ
ten_bytes ip addr off n = if ip == 0 then minus_one else pos (min n (10 - off))

abbrev two_files : Kernel
two_files = record {
  files = record { ip = 1; off = 4 } ∷ record { ip = 0; off = 0 } ∷ [];
  total_bytes_read = 7;
}

abbrev reads : List Read
reads =
    record { file = 0; addr = 64; n = 4 }
    ∷ record { file = 1; addr = 64; n = 4 }
    ∷ record { file = 0; addr = 68; n = 4 }
    ∷ []

filereads-count_example :
    (sys_getreadcount (filereads ten_bytes two_files reads).0
      ≡ (sys_getreadcount two_files + total (filereads ten_bytes two_files reads).1) % 2 ^ 64)
    × ((file_at (filereads ten_bytes two_files reads).0 0).off
        ≡ (4 + total_of 0 (filereads ten_bytes two_files reads).1) % 2 ^ 32)
filereads-count_example =
    filereads-count ten_bytes two_files reads 0 (omega arith) (omega arith) (omega arith)
