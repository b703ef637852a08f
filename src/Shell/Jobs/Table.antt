-- ===== src/Shell/Jobs/Table.antt =====
-- The table of shell/src/jobs.c: no two jobs share a number, and what each operation does to the
-- job that a number finds.
use operating_systems_and_ne.Prelude.{
  ℕ, zero, suc, ◌+◌, ◌<◌, ◌≤◌, ◌≡◌, ◌≢◌, refl, sym, ◌∙◌, Bool, true, false, ◌&&◌, Option, none,
  some, List, [], ◌∷◌, ◌==◌, if◌then◌else◌, get_or, set, length, arith, length-set,
}
use operating_systems_and_ne.Shell.Jobs.{Job, Jobs, max_jobs, blank, find_slot, job_at, put_job}

-- The job that a number stands for.
unfoldable pub lookup : List Job → ℕ → Option Job
lookup [] id = none
lookup (j ∷ js) id = if j.in_use && j.job_id == id then some j else lookup js id

-- No job in use has the number.
abbrev pub Fresh : ℕ → List Job → Type 0
Fresh id [] = Unit
Fresh id (j ∷ js) = (j.in_use ≡ true → j.job_id ≢ id) × Fresh id js

abbrev FreshBut : ℕ → ℕ → List Job → Type 0
FreshBut k id [] = Unit
FreshBut zero id (j ∷ js) = Fresh id js
FreshBut (suc k) id (j ∷ js) = (j.in_use ≡ true → j.job_id ≢ id) × FreshBut k id js

abbrev pub Distinct : List Job → Type 0
Distinct [] = Unit
Distinct (j ∷ js) = (j.in_use ≡ true → Fresh j.job_id js) × Distinct js

abbrev pub Below : ℕ → List Job → Type 0
Below n [] = Unit
Below n (j ∷ js) = (j.in_use ≡ true → (0 < j.job_id) × (j.job_id < n)) × Below n js

pub record IsValid (s : Jobs) : Type 0 where
  pub size : length s.table ≡ max_jobs
  pub distinct : Distinct s.table
  pub below : Below s.next_job_id s.table
  pub next_pos : 0 < s.next_job_id

-- What a search finds.
pub find_slot-some :
    (test : Job → Bool) (js : List Job) (k : ℕ)
    → find_slot test js ≡ some k
    → (k < length js) × (test (get_or js k blank) ≡ true)
unfolding find_slot
find_slot-some test [] k h = cc
find_slot-some test (j ∷ js) zero h = ground arith
find_slot-some test (j ∷ js) (suc k) h = ground (arith, find_slot-some test js k)

Fresh-set :
    (id : ℕ) (js : List Job) (k : ℕ) (j : Job)
    → Fresh id js
    → (j.in_use ≡ true → j.job_id ≢ id)
    → Fresh id (set js k j)
Fresh-set id [] k j f h = tt
Fresh-set id (x ∷ js) zero j f h = (h, f.1)
Fresh-set id (x ∷ js) (suc k) j f h = (f.0, Fresh-set id js k j f.1 h)

Distinct-set :
    (js : List Job) (k : ℕ) (j : Job)
    → Distinct js
    → (j.in_use ≡ true → FreshBut k j.job_id js)
    → Distinct (set js k j)
Distinct-set [] k j d h = tt
Distinct-set (x ∷ js) zero j d h = (h, d.1)
Distinct-set (x ∷ js) (suc k) j d h = (
  λ u. Fresh-set x.job_id js k j (d.0 u) (λ v e. (h v).0 u (sym e)),
  Distinct-set js k j d.1 (λ v. (h v).1),
)

FreshBut-of_Fresh : (k id : ℕ) (js : List Job) → Fresh id js → FreshBut k id js
FreshBut-of_Fresh k id [] f = tt
FreshBut-of_Fresh zero id (j ∷ js) f = f.1
FreshBut-of_Fresh (suc k) id (j ∷ js) f = (f.0, FreshBut-of_Fresh k id js f.1)

Fresh-get :
    (id : ℕ) (js : List Job) (k : ℕ)
    → Fresh id js
    → (get_or js k blank).in_use ≡ true
    → (get_or js k blank).job_id ≢ id
Fresh-get id [] k f u = cc
Fresh-get id (j ∷ js) zero f u = f.0 u
Fresh-get id (j ∷ js) (suc k) f u = Fresh-get id js k f.1 u

FreshBut-get :
    (js : List Job) (k : ℕ)
    → Distinct js
    → (get_or js k blank).in_use ≡ true
    → FreshBut k (get_or js k blank).job_id js
FreshBut-get [] k d u = tt
FreshBut-get (j ∷ js) zero d u = d.0 u
FreshBut-get (j ∷ js) (suc k) d u =
    (λ v e. Fresh-get j.job_id js k (d.0 v) u (sym e), FreshBut-get js k d.1 u)

Below-set :
    (n : ℕ) (js : List Job) (k : ℕ) (j : Job)
    → Below n js
    → (j.in_use ≡ true → (0 < j.job_id) × (j.job_id < n))
    → Below n (set js k j)
Below-set n [] k j b h = tt
Below-set n (x ∷ js) zero j b h = (h, b.1)
Below-set n (x ∷ js) (suc k) j b h = (b.0, Below-set n js k j b.1 h)

pub Below-get :
    (n : ℕ) (js : List Job) (k : ℕ)
    → Below n js
    → (get_or js k blank).in_use ≡ true
    → (0 < (get_or js k blank).job_id) × ((get_or js k blank).job_id < n)
Below-get n [] k b u = cc
Below-get n (j ∷ js) zero b u = b.0 u
Below-get n (j ∷ js) (suc k) b u = Below-get n js k b.1 u

Below-mono : (n m : ℕ) (js : List Job) → n ≤ m → Below n js → Below m js
Below-mono n m [] h b = tt
Below-mono n m (j ∷ js) h b = (λ u. omega (arith, b.0 u), Below-mono n m js h b.1)

pub Fresh-of_Below : (n : ℕ) (js : List Job) → Below n js → Fresh n js
Fresh-of_Below n [] b = tt
Fresh-of_Below n (j ∷ js) b = (λ u e. omega (arith, b.0 u), Fresh-of_Below n js b.1)

-- A slot is given a job under a number that is not in use, or its own.
pub put_new-IsValid :
    (s : Jobs) (k : ℕ) (j : Job)
    → IsValid s
    → j.job_id ≡ s.next_job_id
    → IsValid (record (put_job s k j) { next_job_id = s.next_job_id + 1 })
put_new-IsValid s k j v e = record {
  size = length-set s.table k j ∙ v.size;
  distinct =
      Distinct-set s.table k j v.distinct
        (λ u. rw e (FreshBut-of_Fresh k _ s.table (Fresh-of_Below _ s.table v.below)));
  below =
      Below-set (s.next_job_id + 1) s.table k j (Below-mono _ _ s.table (omega arith) v.below)
        (λ u. omega arith);
  next_pos = omega arith;
}

pub put_same-IsValid :
    (s : Jobs) (k : ℕ) (j : Job)
    → IsValid s
    → (j.in_use ≡ true → ((job_at s k).in_use ≡ true) × (j.job_id ≡ (job_at s k).job_id))
    → IsValid (put_job s k j)
put_same-IsValid s k j v e = record {
  size = length-set s.table k j ∙ v.size;
  distinct =
      Distinct-set s.table k j v.distinct
        (λ u. rw (e u).1 (FreshBut-get s.table k v.distinct (e u).0));
  below =
      Below-set s.next_job_id s.table k j v.below
        (λ u. rw (e u).1 (Below-get s.next_job_id s.table k v.below (e u).0));
  next_pos = v.next_pos;
}

-- The law of a write: what each number finds behind it.
pub lookup-set_new :
    (js : List Job) (k : ℕ) (j : Job) (id : ℕ)
    → k < length js
    → (get_or js k blank).in_use ≡ false
    → j.in_use ≡ true
    → Fresh j.job_id js
    → lookup (set js k j) id ≡ (if j.job_id == id then some j else lookup js id)
unfolding lookup
lookup-set_new [] k j id l h u f = absurd (omega arith)
lookup-set_new (x ∷ js) zero j id l h u f = ground arith
lookup-set_new (x ∷ js) (suc k) j id l h u f = ground (arith, lookup-set_new js k j id, f.0)

-- The first slot in use under a number is the job that the number stands for.
pub lookup-find :
    (js : List Job) (id : ℕ) (k : ℕ)
    → find_slot (λ j. j.in_use && j.job_id == id) js ≡ some k
    → lookup js id ≡ some (get_or js k blank)
unfolding lookup find_slot
lookup-find [] id k h = cc
lookup-find (x ∷ js) id zero h = ground arith
lookup-find (x ∷ js) id (suc k) h = ground (arith, lookup-find js id k)

pub lookup-find_none :
    (js : List Job) (id : ℕ)
    → find_slot (λ j. j.in_use && j.job_id == id) js ≡ none
    → lookup js id ≡ none
unfolding lookup find_slot
lookup-find_none [] id h = refl
lookup-find_none (x ∷ js) id h = ground (arith, lookup-find_none js id)

pub lookup-Fresh : (js : List Job) (id : ℕ) → Fresh id js → lookup js id ≡ none
unfolding lookup
lookup-Fresh [] id f = refl
lookup-Fresh (x ∷ js) id f = ground (arith, f.0, lookup-Fresh js id f.1)

pub lookup-set_free :
    (js : List Job) (k : ℕ) (j : Job) (id : ℕ)
    → Distinct js
    → k < length js
    → (get_or js k blank).in_use ≡ true
    → j.in_use ≡ false
    → lookup (set js k j) id ≡ (if (get_or js k blank).job_id == id then none else lookup js id)
unfolding lookup
lookup-set_free [] k j id d l h u = absurd (omega arith)
lookup-set_free (x ∷ js) zero j id d l h u = ground (arith, d.0 h, lookup-Fresh js x.job_id (d.0 h))
lookup-set_free (x ∷ js) (suc k) j id d l h u = ground (
  arith,
  lookup-set_free js k j id d.1,
  λ (v : x.in_use ≡ true). Fresh-get x.job_id js k (d.0 v) h,
)

pub lookup-set_same :
    (js : List Job) (k : ℕ) (j : Job) (id : ℕ)
    → Distinct js
    → k < length js
    → (get_or js k blank).in_use ≡ true
    → j.in_use ≡ true
    → j.job_id ≡ (get_or js k blank).job_id
    → lookup (set js k j) id ≡ (if j.job_id == id then some j else lookup js id)
unfolding lookup
lookup-set_same [] k j id d l h u e = absurd (omega arith)
lookup-set_same (x ∷ js) zero j id d l h u e = ground arith
lookup-set_same (x ∷ js) (suc k) j id d l h u e = ground (
  arith,
  lookup-set_same js k j id d.1,
  λ (v : x.in_use ≡ true). Fresh-get x.job_id js k (d.0 v) h,
)
