-- ===== src/Xv6/Cfs.antt =====
-- The CFS scheduler of xv6/kernel/proc.c, with its locks: `acquire` of a lock that the processor holds panics, and
-- so does `release` of one that it does not hold. One processor runs, and the locks that it holds are listed.
pub mod Panics
use operating_systems_and_ne.Prelude.{
  ℕ, zero, suc, ◌+◌, ◌≤◌, ◌<◌, ◌≡◌, ◌⊎◌, inl, inr, refl, ap, ◌∙◌, Bool, true, false, ◌&&◌, Option,
  none, some, List, [], ◌∷◌, length, ◌==◌, if◌then◌else◌, get_elem?, All, arith, Bool-cases,
}
use operating_systems_and_ne.Xv6.Schedulers.{Proc, is_ready, improves, scan}
use operating_systems_and_ne.Xv6.Schedulers.Choice.{IsLeast, IsChoice, scan-IsChoice}
use operating_systems_and_ne.Xv6.Steps.{run_and_charge}

-- `holding`, of the lock of the process at an index.
unfoldable pub holding : ℕ → List ℕ → Bool
holding i [] = false
holding i (j ∷ held) = let rest = holding i held in if i == j then true else rest

-- `acquire`; `none` is a panic.
unfoldable pub acquire_lock : ℕ → List ℕ → Option (List ℕ)
unfolding holding
acquire_lock i held = if holding i held then none else some (i ∷ held)

unfoldable pub without : ℕ → List ℕ → List ℕ
without i [] = []
without i (j ∷ held) = let rest = without i held in if i == j then rest else j ∷ rest

-- `release`
unfoldable pub release_lock : ℕ → List ℕ → Option (List ℕ)
unfolding holding without
release_lock i held = if holding i held then some (without i held) else none

-- The least process so far, with the locks held.
abbrev pub LockedSearch : Type 0
LockedSearch = Option (ℕ × Proc) × List ℕ

-- With `min_proc`, or with what it was before, behind a `release`.
unfoldable pub behind_release : Option (ℕ × Proc) → Option (List ℕ) → Option LockedSearch
behind_release best none = none
behind_release best (some held) = some (best, held)

-- The process becomes `min_proc`, whose lock is held on; the lock of the one before is released.
unfoldable pub take_lead : Option (ℕ × Proc) → ℕ → Proc → List ℕ → Option LockedSearch
unfolding behind_release release_lock
take_lead none i p held = some (some (i, p), held)
take_lead (some (j, q)) i p held = behind_release (some (i, p)) (release_lock j held)

-- Behind `acquire` in the search.
unfoldable pub weigh : Option (ℕ × Proc) → ℕ → Proc → Option (List ℕ) → Option LockedSearch
unfolding take_lead
weigh best i p none = none
weigh best i p (some held) =
    if is_ready p && improves (λ (q : Proc). q.vruntime) p best
    then take_lead best i p held
    else behind_release best (release_lock i held)

abbrev pub continue_with :
    Option LockedSearch → (LockedSearch → Option LockedSearch) → Option LockedSearch
continue_with none next = none
continue_with (some found) next = next found

-- The search, from the index `i` on.
unfoldable pub search_locked : List Proc → ℕ → Option (ℕ × Proc) → List ℕ → Option LockedSearch
unfolding weigh acquire_lock
search_locked [] i best held = some (best, held)
search_locked (p ∷ ps) i best held =
    continue_with (weigh best i p (acquire_lock i held))
      (λ found. search_locked ps (suc i) found.0 found.1)

-- The lock of a process given back, in the loop that logs.
unfoldable pub touch : ℕ → Option (List ℕ) → Option (List ℕ)
unfolding release_lock
touch i none = none
touch i (some held) = release_lock i held

abbrev pub behind_touch : Option (List ℕ) → (List ℕ → Option (List ℕ)) → Option (List ℕ)
behind_touch none next = none
behind_touch (some held) next = next held

-- The loop that logs, with the processes left, from the index `i` on.
unfoldable pub log_locked : ℕ → ℕ → List ℕ → Option (List ℕ)
unfolding touch acquire_lock
log_locked zero i held = some held
log_locked (suc n) i held =
    behind_touch (touch i (acquire_lock i held)) (λ held'. log_locked n (suc i) held')

-- A round of the scheduler: a panic, or the table and the locks behind it.
pub data CfsRound : Type 0 where
  panics : CfsRound
  passed : List Proc → List ℕ → CfsRound

unfoldable pub end_locked : List Proc → Option (List ℕ) → CfsRound
end_locked table none = panics
end_locked table (some held) = passed table held

module _ (swtch : List Proc → ℕ → List Proc) where
  -- Behind the loop that logs: the process runs, and its lock is released.
  unfoldable pub behind_logging : List Proc → (ℕ × Proc) → Option (List ℕ) → CfsRound
  unfolding end_locked release_lock run_and_charge
  behind_logging table (i, p) none = panics
  behind_logging table (i, p) (some held) =
      end_locked (run_and_charge swtch table (some (i, p))) (release_lock i held)

  -- Behind the search.
  unfoldable pub behind_search : List Proc → Option LockedSearch → CfsRound
  unfolding behind_logging log_locked
  behind_search table none = panics
  behind_search table (some (none, held)) = passed table held
  behind_search table (some (some (i, p), held)) =
      behind_logging table (i, p) (log_locked (length table) 0 held)

  -- A round.
  unfoldable pub cfs_round : List Proc → List ℕ → CfsRound
  unfolding behind_search search_locked
  cfs_round table held = behind_search table (search_locked table 0 none held)
