-- ===== src/Shell/Jobs/Queries.antt =====
-- shell/src/jobs.c: which job is the most recent, and what an event of `waitpid` does to its job.
use operating_systems_and_ne.Prelude.{
  ℕ, zero, suc, ◌<◌, ◌≤◌, ◌≡◌, ◌⊎◌, refl, true, ◌&&◌, Option, none, some, List, [], ◌∷◌, ◌==◌, ltb,
  if◌then◌else◌, ℤ, pos, negsuc, minus_one, length, arith, inl, inr, Bool-cases,
}
use operating_systems_and_ne.Shell.Jobs.{
  Job, Jobs, job_at, get_job_by_pid, settle, wait_event, WaitStatus, exited, signaled, wait_stopped,
  continued, running, stopped, greatest_id, get_most_recent_job_id, above,
}
use operating_systems_and_ne.Shell.Jobs.Table.{lookup, IsValid, find_slot-some, lookup-set_same}
use operating_systems_and_ne.Shell.Jobs.Operations.{lookup-remove_job}

-- A number is at most the one found, which is -1 when there is none.
abbrev pub IsAtMost : ℕ → ℤ → Type 0
IsAtMost n (pos m) = n ≤ m
IsAtMost n (negsuc m) = ⊥

-- Every number in use is at most `best`.
abbrev pub AtMost : ℤ → List Job → Type 0
AtMost best [] = Unit
AtMost best (j ∷ js) = (j.in_use ≡ true → IsAtMost j.job_id best) × AtMost best js

greatest_ge :
    (n : ℕ) (js : List Job) (best : ℤ) → IsAtMost n best → IsAtMost n (greatest_id js best)
unfolding greatest_id
greatest_ge n [] best h = h
greatest_ge n (j ∷ js) (pos b) h = elim (Bool-cases (j.in_use && ltb b j.job_id)) [
  | inl e ↦ rw e (greatest_ge n js (pos j.job_id) (ground arith))
  | inr e ↦ rw e (greatest_ge n js (pos b) h)
]
greatest_ge n (j ∷ js) (negsuc b) h = absurd h

update_ge :
    (j : Job) (best : ℤ)
    → j.in_use ≡ true
    → IsAtMost j.job_id (if j.in_use && above j.job_id best then pos j.job_id else best)
unfolding above
update_ge j (pos b) u = ground arith
update_ge j (negsuc b) u = ground arith

greatest-AtMost : (js : List Job) (best : ℤ) → AtMost (greatest_id js best) js
unfolding greatest_id
greatest-AtMost [] best = tt
greatest-AtMost (j ∷ js) best =
    let best' = if j.in_use && above j.job_id best then pos j.job_id else best in
    (λ u. greatest_ge j.job_id js best' (update_ge j best u), greatest-AtMost js best')

-- The search returns what it started from, or a number in use.
abbrev pub Found : List Job → ℤ → Type 0
Found js best = (n : ℕ) × (j : Job) × (best ≡ pos n) × (lookup js n ≡ some j)

Found-cons : (x : Job) (js : List Job) (best : ℤ) → Found js best → Found (x ∷ js) best
Found-cons x js best (n, j, e, l) = elim (Bool-cases (x.in_use && x.job_id == n)) [
  | inl h ↦ (n, x, e, unfold lookup in rw h)
  | inr h ↦ (n, j, e, unfold lookup in rw h l)
]

greatest-Found :
    (js : List Job) (best : ℤ) → (greatest_id js best ≡ best) ⊎ Found js (greatest_id js best)
unfolding greatest_id
greatest-Found [] best = inl refl
greatest-Found (x ∷ js) best = elim (Bool-cases (x.in_use && above x.job_id best)) [
  | inl e ↦ elim (greatest-Found js (pos x.job_id)) [
    | inl same ↦ inr (x.job_id, x, rw e same, unfold lookup in ground arith)
    | inr found ↦ inr (Found-cons x js _ (rw e found))
  ]
  | inr e ↦ elim (greatest-Found js best) [
    | inl same ↦ inl (rw e same)
    | inr found ↦ inr (Found-cons x js _ (rw e found))
  ]
]

-- `get_most_recent_job_id` returns the greatest number in use, or -1 when no job is in use.
pub most_recent_cases :
    (s : Jobs)
    → AtMost (get_most_recent_job_id s) s.table
      × ((get_most_recent_job_id s ≡ minus_one) ⊎ Found s.table (get_most_recent_job_id s))
unfolding get_most_recent_job_id
most_recent_cases s = (greatest-AtMost s.table minus_one, greatest-Found s.table minus_one)

-- What becomes of a job whose child changed its state.
unfoldable pub after_wait : Job → WaitStatus → Option Job
after_wait j (exited c) = none
after_wait j signaled = none
after_wait j wait_stopped = some (record j { status = stopped })
after_wait j continued = some (record j { status = running })

settle_lem :
    (s : Jobs) (pid k id : ℕ) (st : WaitStatus)
    → IsValid s
    → k < length s.table
    → (job_at s k).in_use ≡ true
    → lookup (settle s pid st (some k)).0.table id
      ≡ (if (job_at s k).job_id == id then after_wait (job_at s k) st else lookup s.table id)
unfolding settle after_wait
settle_lem s pid k id (exited zero) v l u = lookup-remove_job s (job_at s k).job_id id v
settle_lem s pid k id (exited (suc c)) v l u = lookup-remove_job s (job_at s k).job_id id v
settle_lem s pid k id signaled v l u = lookup-remove_job s (job_at s k).job_id id v
settle_lem s pid k id wait_stopped v l u = lookup-set_same s.table k _ id v.distinct l u u refl
settle_lem s pid k id continued v l u = lookup-set_same s.table k _ id v.distinct l u u refl

-- An event of a child that has a job removes the job when the child ended, and else sets its
-- status; every other number finds what it found before.
pub lookup-wait_event :
    (s : Jobs) (pid k id : ℕ) (st : WaitStatus)
    → IsValid s
    → get_job_by_pid s pid ≡ some k
    → lookup (wait_event s (pid, st)).0.table id
      ≡ (if (job_at s k).job_id == id then after_wait (job_at s k) st else lookup s.table id)
unfolding wait_event get_job_by_pid
lookup-wait_event s pid k id st v f =
    let found = find_slot-some (λ j. j.in_use && j.pid == pid) s.table k f in
    rw f (settle_lem s pid k id st v found.0 (ground (arith, found.1)))

-- An event of any other child changes nothing.
pub wait_event_unknown :
    (s : Jobs) (pid : ℕ) (st : WaitStatus)
    → get_job_by_pid s pid ≡ none
    → wait_event s (pid, st) ≡ (s, [])
unfolding wait_event get_job_by_pid
wait_event_unknown s pid st f = rw f (unfold settle in refl)
