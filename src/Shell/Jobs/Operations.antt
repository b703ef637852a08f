-- ===== src/Shell/Jobs/Operations.antt =====
-- What the operations of shell/src/jobs.c do to the jobs that numbers stand for.
use operating_systems_and_ne.Prelude.{
  ℕ, zero, suc, ◌+◌, ◌<◌, ◌≡◌, ◌⊎◌, refl, sym, ap, ◌∙◌, true, false, not, ◌&&◌, Option, none, some,
  List, [], ◌∷◌, ◌==◌, if◌then◌else◌, Text, replicate, ℤ, pos, minus_one, length, All, arith, inl,
  inr, Bool-cases,
}
use operating_systems_and_ne.Shell.Jobs.{
  Job, Jobs, JobStatus, max_jobs, blank, init_jobs, find_slot, job_at, put_job, new_job, add_at,
  add_job, get_job, get_job_by_pid, release, remove_job, settle, check_background_jobs, WaitStatus,
  exited, signaled, wait_stopped, continued, running, stopped, clear,
}
use operating_systems_and_ne.Shell.Jobs.Table.{
  lookup, Distinct, Below, IsValid, find_slot-some, put_new-IsValid, put_same-IsValid,
  lookup-set_new, lookup-find_none, lookup-set_free, Fresh-of_Below,
}

Distinct-replicate : (n : ℕ) → Distinct (replicate n blank)
Distinct-replicate zero = tt
Distinct-replicate (suc n) = (λ u. cc, Distinct-replicate n)

length-clear : (js : List Job) → length (clear js) ≡ length js
unfolding clear
length-clear [] = refl
length-clear (j ∷ js) = ap suc (length-clear js)

Distinct-clear : (js : List Job) → Distinct (clear js)
unfolding clear
Distinct-clear [] = tt
Distinct-clear (j ∷ js) = (λ u. cc, Distinct-clear js)

Below-clear : (n : ℕ) (js : List Job) → Below n (clear js)
unfolding clear
Below-clear n [] = tt
Below-clear n (j ∷ js) = (λ u. cc, Below-clear n js)

pub init_jobs-IsValid :
    (s : Jobs) → length s.table ≡ max_jobs → 0 < s.next_job_id → IsValid (init_jobs s)
unfolding init_jobs
init_jobs-IsValid s l p = record {
  size = length-clear s.table ∙ l;
  distinct = Distinct-clear s.table;
  below = Below-clear s.next_job_id s.table;
  next_pos = p;
}

-- Every slot is in use.
abbrev pub IsFull : List Job → Type 0
IsFull = All (λ j. j.in_use ≡ true)

find_free_none : (js : List Job) → find_slot (λ j. not j.in_use) js ≡ none → IsFull js
unfolding find_slot
find_free_none [] h = tt
find_free_none (j ∷ js) h = (ground arith, find_free_none js (ground arith))

-- The two outcomes of `add_job`.
pub record Added (s : Jobs) (j : Job) (out : Jobs × ℤ) : Type 0 where
  pub number : out.1 ≡ pos s.next_job_id
  pub finds :
      (id : ℕ) → lookup out.0.table id ≡ (if s.next_job_id == id then some j else lookup s.table id)
  pub valid : IsValid out.0
  pub next : out.0.next_job_id ≡ s.next_job_id + 1

add_at_cases :
    (s : Jobs) (j : Job) (o : Option ℕ)
    → IsValid s
    → j.in_use ≡ true
    → j.job_id ≡ s.next_job_id
    → o ≡ find_slot (λ j. not j.in_use) s.table
    → (IsFull s.table × (add_at s j o ≡ (s, minus_one))) ⊎ Added s j (add_at s j o)
unfolding add_at
add_at_cases s j none v u e f = inl (find_free_none s.table (sym f), refl)
add_at_cases s j (some k) v u e f =
    let found = find_slot-some (λ j. not j.in_use) s.table k (sym f) in
    inr (record {
      number = ap pos e;
      finds = λ id. rw (← e) (
          lookup-set_new s.table k j id found.0 (ground arith) u
            (rw e (Fresh-of_Below s.next_job_id s.table v.below)));
      valid = put_new-IsValid s k j v e;
      next = refl;
    })

-- `add_job` either finds the table full, returns -1 and changes nothing, or returns a new number
-- under which the job is found from then on, every other number finding what it found before, and
-- the table stays well formed.
pub add_job_cases :
    (s : Jobs) (pid : ℕ) (command : Text) (status : JobStatus)
    → IsValid s
    → (IsFull s.table × (add_job s pid command status ≡ (s, minus_one)))
      ⊎ Added s (new_job s pid command status) (add_job s pid command status)
unfolding add_job
add_job_cases s pid command status v = add_at_cases s _ _ v refl refl refl

release_lem :
    (s : Jobs) (n id : ℕ) (o : Option ℕ)
    → IsValid s
    → o ≡ get_job s n
    → lookup (release s o).table id ≡ (if n == id then none else lookup s.table id)
unfolding release get_job
release_lem s n id none v f = elim (Bool-cases (n == id)) [
  | inl e ↦ ground (arith, lookup-find_none s.table n (sym f))
  | inr e ↦ rw e
]
release_lem s n id (some k) v f =
    let found = find_slot-some (λ j. j.in_use && j.job_id == n) s.table k (sym f) in
    ground (
      arith,
      found,
      lookup-set_free s.table k (record (job_at s k) { in_use = false }) id v.distinct found.0,
    )

-- Behind `remove_job` its number finds no job, and every other number finds what it found before.
pub lookup-remove_job :
    (s : Jobs) (n id : ℕ)
    → IsValid s
    → lookup (remove_job s n).table id ≡ (if n == id then none else lookup s.table id)
unfolding remove_job
lookup-remove_job s n id v = release_lem s n id (get_job s n) v refl

release-IsValid : (s : Jobs) (o : Option ℕ) → IsValid s → IsValid (release s o)
unfolding release
release-IsValid s none v = v
release-IsValid s (some k) v = put_same-IsValid s k _ v (λ u. cc)

pub remove_job-IsValid : (s : Jobs) (n : ℕ) → IsValid s → IsValid (remove_job s n)
unfolding remove_job
remove_job-IsValid s n v = release-IsValid s (get_job s n) v

pub restatus-IsValid :
    (s : Jobs) (k : ℕ) (st : JobStatus)
    → IsValid s
    → IsValid (put_job s k (record (job_at s k) { status = st }))
restatus-IsValid s k st v = put_same-IsValid s k _ v (λ u. (u, refl))

settle-IsValid :
    (s : Jobs) (pid : ℕ) (st : WaitStatus) (o : Option ℕ)
    → IsValid s
    → IsValid (settle s pid st o).0
unfolding settle
settle-IsValid s pid st none v = v
settle-IsValid s pid (exited zero) (some k) v = remove_job-IsValid s _ v
settle-IsValid s pid (exited (suc c)) (some k) v = remove_job-IsValid s _ v
settle-IsValid s pid signaled (some k) v = remove_job-IsValid s _ v
settle-IsValid s pid wait_stopped (some k) v = restatus-IsValid s k stopped v
settle-IsValid s pid continued (some k) v = restatus-IsValid s k running v

-- Whatever children `waitpid` reports, in whatever order, the table stays well formed.
pub check_background_jobs-IsValid :
    (s : Jobs) (es : List (ℕ × WaitStatus)) → IsValid s → IsValid (check_background_jobs s es).0
unfolding check_background_jobs
check_background_jobs-IsValid s [] v = v
check_background_jobs-IsValid s ((pid, st) ∷ es) v =
    check_background_jobs-IsValid (settle s pid st (get_job_by_pid s pid)).0 es
      (settle-IsValid s pid st (get_job_by_pid s pid) v)
