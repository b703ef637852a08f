-- ===== src/Xv6/Steps/Fair.antt =====
-- What a round of the schedulers keeps, and that it starves no process.
use mathlib.Core.List.{Mem, mem-cons_self, mem-append_right}
use operating_systems_and_ne.Prelude.{
  ℕ, zero, suc, ◌+◌, ◌≤◌, ◌<◌, ◌≡◌, ◌≢◌, refl, sym, subst, true, Option, none, some, List, [], ◌∷◌,
  if_ind, get_or, get_or-set_ne, All, All-set, All-get_or, arith, leb, ◌-◌, ◌%◌, ◌^◌, ◌==◌,
  Bool-cases, inl, inr,
}
use operating_systems_and_ne.Xv6.Schedulers.{
  unused, used, sleeping, runnable, running, zombie, Proc, is_ready, boost, boosted, boost_interval,
  mlfq_choice, queue_time_slice,
}
use operating_systems_and_ne.Xv6.Schedulers.Queues.{IsQueued, demote-IsQueued}
use operating_systems_and_ne.Xv6.Steps.{
  no_proc, set_running, visit_proc, round_robin, Mlfq, boost_due, run_and_demote, mlfq_round,
}

-- The process at an index is ready.
abbrev pub IsReady : List Proc → ℕ → Type 0
IsReady table j = is_ready (get_or table j no_proc) ≡ true

set_running-IsReady :
    (table : List Proc) (i j : ℕ) → j ≢ i → IsReady table j → IsReady (set_running table i) j
unfolding set_running
set_running-IsReady table i j ne h =
    subst (λ p. is_ready p ≡ true)
      (sym (
        get_or-set_ne table (record (get_or table i no_proc) { state = running }) no_proc
          (λ e. ne (sym e))))
      h

module _ (swtch : List Proc → ℕ → List Proc)
    (leaves : (table : List Proc) (i j : ℕ)
      → j ≢ i
      → IsReady table j
      → IsReady (swtch table i) j) where
  visit_proc-IsReady :
      (table : List Proc) (i j : ℕ)
      → j ≢ i
      → IsReady table j
      → IsReady (visit_proc swtch table i).0 j
  unfolding visit_proc
  visit_proc-IsReady table i j ne h =
      if_ind (λ (out : List Proc × List ℕ). IsReady out.0 j) (is_ready (get_or table i no_proc))
        (λ e. leaves (set_running table i) i j ne (set_running-IsReady table i j ne h)) (λ e. h)

  visit_proc-ran :
      (table : List Proc) (i : ℕ) → IsReady table i → (visit_proc swtch table i).1 ≡ i ∷ []
  unfolding visit_proc
  visit_proc-ran table i h = rw h refl

  round_robin-mem :
      (n : ℕ) (table : List Proc) (i j : ℕ)
      → i ≤ j
      → j < i + n
      → IsReady table j
      → Mem j (round_robin swtch n table i).1
  unfolding round_robin
  round_robin-mem zero table i j l u h = absurd (omega (arith, l, u))
  round_robin-mem (suc n) table i j l u h = elim (Bool-cases (j == i)) [
    | inl e ↦
        let same : j ≡ i = ground arith in
        let ran = visit_proc-ran table i (subst (IsReady table) same h) in
        rw (same, ran) mem-cons_self
    | inr f ↦
        let other : j ≢ i = λ e. (ground (arith, e)) in
        mem-append_right (visit_proc swtch table i).1 (
          round_robin-mem n (visit_proc swtch table i).0 (suc i) j (ground (arith, l))
            (omega (arith, u)) (visit_proc-IsReady table i j other h))
  ]

  -- Where running one process leaves the others ready that were: every process that is ready when the round-robin scheduler
  -- begins to go through the first `n` entries of the table runs before it has gone through them.
  pub round_robin-fair :
      (n : ℕ) (table : List Proc) (j : ℕ)
      → j < n
      → IsReady table j
      → Mem j (round_robin swtch n table 0).1
  round_robin-fair n table j l h = round_robin-mem n table 0 j (omega arith) (omega (arith, l)) h

first-IsQueued : (p : Proc) → IsQueued (record p { queue = 0; time_slice = queue_time_slice 0 })
first-IsQueued p = record {
  queue_lt = omega arith;
  slice_pos = omega arith;
  slice_le = omega arith;
}

boosted-IsQueued : (p : Proc) → IsQueued p → IsQueued (boosted p)
boosted-IsQueued p v =
    let first = record p { queue = 0; time_slice = queue_time_slice 0 } in
    elim p.state as (λ st. IsQueued (elim st [ runnable ↦ first | running ↦ first | _ ↦ p ])) [
      | runnable ↦ first-IsQueued p
      | running ↦ first-IsQueued p
      | unused ↦ v
      | used ↦ v
      | sleeping ↦ v
      | zombie ↦ v
    ]

boost-AllQueued : (table : List Proc) → All IsQueued table → All IsQueued (boost table)
unfolding boost
boost-AllQueued [] h = tt
boost-AllQueued (p ∷ ps) h = (boosted-IsQueued p h.0, boost-AllQueued ps h.1)

boost_due-AllQueued : (m : Mlfq) → All IsQueued m.table → All IsQueued (boost_due m).table
unfolding boost_due
boost_due-AllQueued m h =
    if_ind (λ (m' : Mlfq). All IsQueued m'.table)
      (leb boost_interval ((m.ticks + 2 ^ 64 - m.last_boost) % 2 ^ 64))
      (λ e. boost-AllQueued m.table h) (λ e. h)

no_proc-IsQueued : IsQueued no_proc
no_proc-IsQueued = record {
  queue_lt = omega arith;
  slice_pos = omega arith;
  slice_le = omega arith;
}

set_running-AllQueued :
    (table : List Proc) (i : ℕ) → All IsQueued table → All IsQueued (set_running table i)
unfolding set_running
set_running-AllQueued table i h =
    let p = All-get_or IsQueued table i no_proc no_proc-IsQueued h in
    All-set IsQueued table i _
      (record { queue_lt = p.queue_lt; slice_pos = p.slice_pos; slice_le = p.slice_le }) h

module _ (swtch : List Proc → ℕ → List Proc × ℕ)
    (keeps : (table : List Proc) (i : ℕ)
      → All IsQueued table
      → All IsQueued (swtch table i).0) where
  run_and_demote-AllQueued :
      (m : Mlfq) (chosen : Option (ℕ × Proc))
      → All IsQueued m.table
      → All IsQueued (run_and_demote swtch m chosen).table
  unfolding run_and_demote
  run_and_demote-AllQueued m none h = h
  run_and_demote-AllQueued m (some (i, p)) h =
      let ran = keeps (set_running m.table i) i (set_running-AllQueued m.table i h) in
      All-set IsQueued (swtch (set_running m.table i) i).0 i _
        (demote-IsQueued _ _
          (All-get_or IsQueued (swtch (set_running m.table i) i).0 i no_proc no_proc-IsQueued ran))
        ran

  -- A round of the MLFQ scheduler, with the boost if it is due and the demotion behind the run, keeps every
  -- process in one of the queues, with some of its time slice left and no more than its queue gives, if running
  -- a process does.
  pub mlfq_round-AllQueued :
      (m : Mlfq) → All IsQueued m.table → All IsQueued (mlfq_round swtch m).table
  unfolding mlfq_round
  mlfq_round-AllQueued m h =
      run_and_demote-AllQueued (boost_due m) (mlfq_choice (boost_due m).table)
        (boost_due-AllQueued m h)
