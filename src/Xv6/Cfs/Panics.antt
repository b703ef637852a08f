-- ===== src/Xv6/Cfs/Panics.antt =====
-- What a round of the CFS scheduler of xv6/kernel/proc.c comes to, with its locks.
use operating_systems_and_ne.Prelude.{
  ℕ, zero, suc, ◌+◌, ◌≤◌, ◌<◌, ◌≡◌, ◌⊎◌, inl, inr, refl, ap, ◌∙◌, true, false, ◌&&◌, Option, none,
  some, List, [], ◌∷◌, length, ◌==◌, if◌then◌else◌, get_elem?, All, arith, Bool-cases,
}
use operating_systems_and_ne.Xv6.Schedulers.{Proc, is_ready, improves, scan}
use operating_systems_and_ne.Xv6.Schedulers.Choice.{IsLeast, IsChoice, scan-IsChoice}
use operating_systems_and_ne.Xv6.Cfs.{
  holding, acquire_lock, without, release_lock, behind_release, take_lead, weigh, continue_with,
  search_locked, touch, behind_touch, log_locked, panics, passed, behind_logging, behind_search,
  cfs_round,
}

-- The lock of `min_proc`.
abbrev held_of : Option (ℕ × Proc) → List ℕ
held_of none = []
held_of (some (i, p)) = i ∷ []

-- `min_proc` stands in front of the index.
abbrev Before : ℕ → Option (ℕ × Proc) → Type 0
Before i none = Unit
Before i (some (j, p)) = j < i

vr : Proc → ℕ
vr p = p.vruntime

better : Proc → ℕ → Option (ℕ × Proc) → Option (ℕ × Proc)
better p i best =
    if is_ready p && improves (λ (q : Proc). q.vruntime) p best then some (i, p) else best

acquire_other : (i j : ℕ) → (i == j) ≡ false → acquire_lock i (j ∷ []) ≡ some (i ∷ j ∷ [])
unfolding acquire_lock holding
acquire_other i j e = rw e refl

acquire_held : (i j : ℕ) → (i == j) ≡ true → acquire_lock i (j ∷ []) ≡ none
unfolding acquire_lock holding
acquire_held i j e = rw e refl

release_first : (i j : ℕ) → (i == j) ≡ false → release_lock i (i ∷ j ∷ []) ≡ some (j ∷ [])
unfolding release_lock holding without
release_first i j e = ground (arith, e)

release_second : (i j : ℕ) → (i == j) ≡ false → release_lock j (i ∷ j ∷ []) ≡ some (i ∷ [])
unfolding release_lock holding without
release_second i j e = ground (arith, e)

release_only : (i : ℕ) → release_lock i (i ∷ []) ≡ some []
unfolding release_lock holding without
release_only i = ground arith

weigh-better :
    (best : Option (ℕ × Proc)) (i : ℕ) (p : Proc)
    → Before i best
    → weigh best i p (acquire_lock i (held_of best))
      ≡ some (better p i best, held_of (better p i best))
unfolding weigh acquire_lock holding take_lead better
weigh-better none i p b =
    elim (is_ready p && true)
      as (λ t.
        (if t then some (some (i, p), i ∷ []) else behind_release none (release_lock i (i ∷ [])))
        ≡ some ((if t then some (i, p) else none), held_of (if t then some (i, p) else none))) [
          | true ↦ refl
          | false ↦ ap (behind_release none) (release_only i) ∙ unfold behind_release in refl
        ]
weigh-better (some (j, q)) i p b =
    let apart : (i == j) ≡ false = ground (arith, b) in
    ap (weigh (some (j, q)) i p) (acquire_other i j apart)
    ∙ elim (is_ready p && improves (λ (r : Proc). r.vruntime) p (some (j, q)))
        as (λ t.
          (if t
            then behind_release (some (i, p)) (release_lock j (i ∷ j ∷ []))
            else behind_release (some (j, q)) (release_lock i (i ∷ j ∷ [])))
          ≡ some (
            (if t then some (i, p) else some (j, q)),
            held_of (if t then some (i, p) else some (j, q)),
          )) [
            | true ↦
                ap (behind_release (some (i, p))) (release_second i j apart)
                ∙ unfold behind_release in refl
            | false ↦
                ap (behind_release (some (j, q))) (release_first i j apart)
                ∙ unfold behind_release in refl
          ]

Before-better :
    (best : Option (ℕ × Proc)) (i : ℕ) (p : Proc) → Before i best → Before (suc i) (better p i best)
unfolding better
Before-better none i p b =
    elim (is_ready p && true) as (λ t. Before (suc i) (if t then some (i, p) else none)) [
      | true ↦ omega arith
      | false ↦ tt
    ]
Before-better (some (j, q)) i p b =
    elim (is_ready p && improves (λ (r : Proc). r.vruntime) p (some (j, q)))
      as (λ t. Before (suc i) (if t then some (i, p) else some (j, q))) [
        | true ↦ omega arith
        | false ↦ omega (arith, b)
      ]

-- The search comes to what the search without locks comes to, and holds its lock alone.
search_locked-scan :
    (ps : List Proc) (i : ℕ) (best : Option (ℕ × Proc))
    → Before i best
    → search_locked ps i best (held_of best)
      ≡ some (
        scan (λ (p : Proc). p.vruntime) ps i best,
        held_of (scan (λ (p : Proc). p.vruntime) ps i best),
      )
unfolding search_locked scan
search_locked-scan [] i best b = refl
search_locked-scan (p ∷ ps) i best b =
    let later = search_locked-scan ps (suc i) (better p i best) (Before-better best i p b) in
    let next : i + 1 ≡ suc i = omega arith in
    ap (λ r. continue_with r (λ found. search_locked ps (suc i) found.0 found.1))
      (weigh-better best i p b)
    ∙ later
    ∙ unfold better in
      (ap
        (λ k.
          (let out =
              scan (λ (q : Proc). q.vruntime) ps k
                (if is_ready p && improves (λ (q : Proc). q.vruntime) p best
                  then some (i, p)
                  else best) in
            some (out, held_of out)))
        (omega arith))

-- The loop that logs comes to the lock that is held.
log_locked-panics : (n i j : ℕ) → i ≤ j → j < i + n → log_locked n i (j ∷ []) ≡ none
unfolding log_locked
log_locked-panics zero i j l u = absurd (omega (arith, l, u))
log_locked-panics (suc n) i j l u = elim (Bool-cases (i == j)) [
  | inl e ↦
      ap (λ r. behind_touch (touch i r) (λ held. log_locked n (suc i) held)) (acquire_held i j e)
      ∙ unfold touch in refl
  | inr e ↦
      ap (λ r. behind_touch (touch i r) (λ held. log_locked n (suc i) held)) (acquire_other i j e)
      ∙ unfold touch in
        (ap (λ r. behind_touch r (λ held. log_locked n (suc i) held)) (release_first i j e)
          ∙ log_locked-panics n (suc i) j (ground (arith, l, e)) (omega (arith, u)))
]

-- What a round does to the table, which begins with no lock held.
abbrev pub Rounds : (List Proc → ℕ → List Proc) → List Proc → Type 0
Rounds swtch table =
    (All (λ p. is_ready p ≡ false) table × (cfs_round swtch table [] ≡ passed table []))
    ⊎ ((i : ℕ) × (p : Proc) × (get_elem? table i ≡ some p)
        × (is_ready p ≡ true)
        × IsLeast (λ q. q.vruntime) p.vruntime table
        × (search_locked table 0 none [] ≡ some (some (i, p), i ∷ []))
        × (cfs_round swtch table [] ≡ panics))

index_lt : (table : List Proc) (i : ℕ) (p : Proc) → get_elem? table i ≡ some p → i < length table
index_lt [] i p e = absurd (cc)
index_lt (q ∷ table) zero p e = omega arith
index_lt (q ∷ table) (suc i) p e = omega (arith, index_lt table i p e)

round_of :
    (swtch : List Proc → ℕ → List Proc) (table : List Proc) (best : Option (ℕ × Proc))
    → search_locked table 0 none [] ≡ some (best, held_of best)
    → IsChoice (λ p. p.vruntime) table best
    → Rounds swtch table
unfolding cfs_round behind_search behind_logging
round_of swtch table none e h = inl (h, rw e refl)
round_of swtch table (some (i, p)) e (least, ready, at) =
    let bound = index_lt table i p at in
    let stuck = log_locked-panics (length table) 0 i (omega arith) (omega (arith, bound)) in
    inr (i, p, at, ready, least, e, rw (e, stuck) refl)

-- A round of the CFS scheduler that begins with no lock held leaves the table as it is, with no lock held, if no
-- process is runnable. If one is, the search comes to a runnable process whose virtual runtime is no larger than
-- any other's and holds its lock alone; the loop that logs acquires this lock again, so that the round panics,
-- and no process runs.
pub cfs_round_cases : (swtch : List Proc → ℕ → List Proc) (table : List Proc) → Rounds swtch table
cfs_round_cases swtch table =
    round_of swtch table (scan (λ p. p.vruntime) table 0 none) (search_locked-scan table 0 none tt)
      (scan-IsChoice (λ p. p.vruntime) table)
