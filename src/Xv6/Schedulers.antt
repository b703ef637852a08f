-- ===== src/Xv6/Schedulers.antt =====
-- The schedulers of xv6/kernel/proc.c and xv6/kernel/mlfq_scheduler.c, on the table of processes.
-- The locks are left out here, as one processor goes through the table; Cfs has those of the CFS scheduler, where
-- they matter. `swtch` runs the chosen process; what it returns with (the table, and the ticks gone by) is an
-- argument. `ticks` is a `uint`, below 2^32, and the runtime of a process a `uint64`; a time slice is an `int`
-- that is positive outside `swtch`, below 2^31 as the ticks of a run are.
pub mod Choice
pub mod Queues
use operating_systems_and_ne.Prelude.{
  ℕ, zero, suc, ◌+◌, ◌-◌, ◌*◌, ◌/◌, ◌%◌, ◌^◌, Bool, true, false, ◌&&◌, ◌||◌, Option, none, some,
  List, [], ◌∷◌, ◌==◌, ltb, leb, if◌then◌else◌, get_or, set, ℤ, pos, negsuc,
}

pub data ProcState : Type 0 where
  unused used sleeping runnable running zombie : ProcState

-- The fields of `struct proc` that the schedulers work on.
pub record Proc : Type 0 where
  pub state : ProcState
  pub pid : ℕ
  pub ctime : ℕ
  pub nice : ℤ
  pub vruntime : ℕ
  pub weight : ℕ
  pub runtime : ℕ
  pub queue : ℕ
  pub time_slice : ℕ
  pub queue_enter_time : ℕ

abbrev pub is_runnable_state : ProcState → Bool
is_runnable_state s = elim s [ runnable ↦ true | _ ↦ false ]

-- `p->state == RUNNABLE`
abbrev pub is_ready : Proc → Bool
is_ready p = is_runnable_state p.state

-- `earliest == 0 || p->ctime < earliest->ctime`, and the same of `vruntime`.
abbrev pub improves : (Proc → ℕ) → Proc → Option (ℕ × Proc) → Bool
improves key p none = true
improves key p (some (i, best)) = ltb (key p) (key best)

-- The loop over the table from index `i` on: the best process so far, with its index.
unfoldable pub scan : (Proc → ℕ) → List Proc → ℕ → Option (ℕ × Proc) → Option (ℕ × Proc)
scan key [] i best = best
scan key (p ∷ ps) i best =
    scan key ps (i + 1) (if is_ready p && improves key p best then some (i, p) else best)

-- The choice of the FCFS scheduler: the process created first.
unfoldable pub fcfs_choice : List Proc → Option (ℕ × Proc)
unfolding scan
fcfs_choice table = scan (λ (p : Proc). p.ctime) table 0 none

-- `weight = (weight * 5) / 4`, `n` times
unfoldable pub raise_weight : ℕ → ℕ → ℕ
raise_weight zero weight = weight
raise_weight (suc n) weight = raise_weight n (weight * 5 % 2 ^ 64 / 4)

-- `weight = (weight * 4) / 5`, `n` times
unfoldable pub lower_weight : ℕ → ℕ → ℕ
lower_weight zero weight = weight
lower_weight (suc n) weight = lower_weight n (weight * 4 % 2 ^ 64 / 5)

-- `calculate_weight`
unfoldable pub calculate_weight : ℤ → ℕ
unfolding raise_weight lower_weight
calculate_weight (pos zero) = 1024
calculate_weight (pos (suc n)) =
    let weight = lower_weight (suc n) 1024 in if ltb weight 15 then 15 else weight
calculate_weight (negsuc n) = raise_weight (suc n) 1024

-- `runnable_count`
unfoldable pub count_ready : List Proc → ℕ
count_ready [] = 0
count_ready (p ∷ ps) = let rest = count_ready ps in if is_ready p then suc rest else rest

-- `time_slice` of the CFS scheduler, from the count.
unfoldable pub cfs_slice : ℕ → ℕ
cfs_slice count =
    let slice = 48 / (if ltb 0 count then count else 1) in if ltb slice 3 then 3 else slice

-- `vruntime` behind a run of `elapsed` ticks.
unfoldable pub charge : Proc → ℕ → Proc
charge p elapsed = record p {
  vruntime = (p.vruntime + elapsed * 1024 % 2 ^ 64 / p.weight) % 2 ^ 64;
}

abbrev pub queue_count : ℕ
queue_count = 4

abbrev pub boost_interval : ℕ
boost_interval = 48

-- `queue_time_slices[q]`
abbrev pub queue_time_slice : ℕ → ℕ
queue_time_slice q = get_or (1 ∷ 4 ∷ 8 ∷ 16 ∷ []) q 0

-- The boost of the MLFQ scheduler: every runnable or running process goes to the first queue.
abbrev pub boosted : Proc → Proc
boosted p =
    let first = record p { queue = 0; time_slice = queue_time_slice 0 } in
    elim p.state [ runnable ↦ first | running ↦ first | _ ↦ p ]

unfoldable pub boost : List Proc → List Proc
boost [] = []
boost (p ∷ ps) = boosted p ∷ boost ps

-- The inner loop of the search: the first runnable process of queue `q`, from index `i` on.
unfoldable pub first_in_queue : ℕ → List Proc → ℕ → Option (ℕ × Proc)
first_in_queue q [] i = none
first_in_queue q (p ∷ ps) i =
    let rest = first_in_queue q ps (i + 1) in
    if is_ready p && p.queue == q then some (i, p) else rest

abbrev pub or_else : Option (ℕ × Proc) → Option (ℕ × Proc) → Option (ℕ × Proc)
or_else none other = other
or_else (some found) other = some found

-- The outer loop, with `n` queues left from `q` on.
unfoldable pub search_queues : List Proc → ℕ → ℕ → Option (ℕ × Proc)
unfolding first_in_queue
search_queues table zero q = none
search_queues table (suc n) q = or_else (first_in_queue q table 0) (search_queues table n (q + 1))

-- The choice of the MLFQ scheduler.
unfoldable pub mlfq_choice : List Proc → Option (ℕ × Proc)
unfolding search_queues
mlfq_choice table = search_queues table queue_count 0

-- What the MLFQ scheduler does to the process behind a run of `elapsed` ticks.
unfoldable pub demote : Proc → ℕ → Proc
demote p elapsed =
    if leb p.time_slice elapsed
    then (let q = if ltb p.queue (queue_count - 1) then p.queue + 1 else p.queue in
        record p { queue = q; time_slice = queue_time_slice q })
    else record p { time_slice = p.time_slice - elapsed }

-- `allocproc` on the scheduler's fields of the process that it found: its pid is new.
unfoldable pub init_proc : Proc → ℕ → ℕ → Proc
unfolding calculate_weight
init_proc p pid ticks = record p {
  state = used;
  pid = pid;
  ctime = ticks;
  nice = pos 0;
  vruntime = 0;
  weight = calculate_weight (pos 0);
  runtime = 0;
  queue = 0;
  time_slice = 1;
  queue_enter_time = ticks;
}

-- The loop of `allocproc`, from index `i` on: the table, and the slot returned, or 0. `pid` is what
-- `allocpid` returns, `pages` says whether both allocations succeed, and `freeproc` is a parameter.
unfoldable pub allocproc : (Proc → Proc) → Bool → ℕ → ℕ → List Proc → ℕ → List Proc × Option ℕ
unfolding init_proc
allocproc freeproc pages pid ticks [] i = ([], none)
allocproc freeproc pages pid ticks (p ∷ ps) i =
    let (rest, slot) = allocproc freeproc pages pid ticks ps (i + 1) in
    elim p.state [
      | unused ↦
          (if pages
            then (init_proc p pid ticks ∷ ps, some i)
            else (freeproc (record p { state = used; pid = pid }) ∷ ps, none))
      | _ ↦ (p ∷ rest, slot)
    ]
