-- ===== src/Xv6/Schedulers/Queues.antt =====
-- The queues of xv6/kernel/mlfq_scheduler.c.
use operating_systems_and_ne.Prelude.{
  ℕ, zero, suc, ◌+◌, ◌≤◌, ◌<◌, ◌≡◌, ◌≢◌, ◌⊎◌, refl, ap, ◌∙◌, sym, true, false, ◌&&◌, Option, none,
  some, List, [], ◌∷◌, ◌==◌, get_elem?, All, arith, Bool-cases, inl, inr, subst,
}
use operating_systems_and_ne.Xv6.Schedulers.Choice.{IsLeast, IsChoice}
use operating_systems_and_ne.Xv6.Schedulers.{
  Proc, is_ready, first_in_queue, or_else, search_queues, mlfq_choice, queue_count,
  queue_time_slice, demote,
}

-- A process stands in a queue, with some of its time slice left and no more than the queue gives.
pub record IsQueued (p : Proc) : Type 0 where
  pub queue_lt : p.queue < queue_count
  pub slice_pos : 0 < p.time_slice
  pub slice_le : p.time_slice ≤ queue_time_slice p.queue

slice_positive : (q : ℕ) → q < queue_count → 0 < queue_time_slice q
slice_positive zero h = omega arith
slice_positive (suc zero) h = omega arith
slice_positive (suc (suc zero)) h = omega arith
slice_positive (suc (suc (suc zero))) h = omega arith
slice_positive (suc (suc (suc (suc q)))) h = absurd (omega arith)

-- A run keeps a process in its queue with less of its slice, or, its slice used up, moves it to the
-- next queue, the last one excepted, with a full slice: it always stands in a queue.
pub demote-IsQueued : (p : Proc) (elapsed : ℕ) → IsQueued p → IsQueued (demote p elapsed)
unfolding demote
demote-IsQueued p elapsed v =
    ground (arith, v, slice_positive p.queue v.queue_lt, slice_positive (p.queue + 1))

-- What the loops over the queues find.
abbrev Found : ℕ → List Proc → ℕ → Option (ℕ × Proc) → Type 0
Found q ps i none = All (λ (p : Proc). is_ready p ≡ true → p.queue ≢ q) ps
Found q ps i (some (j, p)) =
    (is_ready p ≡ true) × (p.queue ≡ q) × ((d : ℕ) × (j ≡ i + d) × (get_elem? ps d ≡ some p))

Found-later :
    (q : ℕ) (p : Proc) (ps : List Proc) (i : ℕ) (out : Option (ℕ × Proc))
    → (is_ready p && p.queue == q) ≡ false
    → Found q ps (i + 1) out
    → Found q (p ∷ ps) i out
Found-later q p ps i none h all = (λ r e. ground arith, all)
Found-later q p ps i (some (j, p')) h (r, e, (d, e', at)) = (r, e, (suc d, omega (arith, e'), at))

first_in_queue-Found : (q : ℕ) (ps : List Proc) (i : ℕ) → Found q ps i (first_in_queue q ps i)
unfolding first_in_queue
first_in_queue-Found q [] i = tt
first_in_queue-Found q (p ∷ ps) i = elim (Bool-cases (is_ready p && p.queue == q)) [
  | inl h ↦ rw h (ground arith, ground arith, (0, omega arith, refl))
  | inr h ↦
      rw h
        (Found-later q p ps i (first_in_queue q ps (i + 1)) h (first_in_queue-Found q ps (i + 1)))
]

-- No ready process stands in a queue from `lo` up to, and not including, `hi`.
abbrev Empty : ℕ → ℕ → List Proc → Type 0
Empty lo hi = All (λ (p : Proc). is_ready p ≡ true → (p.queue < lo) ⊎ (hi ≤ p.queue))

Empty-here : (q : ℕ) (table : List Proc) → Empty q q table
Empty-here q [] = tt
Empty-here q (p ∷ ps) = (λ r. omega arith, Empty-here q ps)

Empty-grow :
    (q hi : ℕ) (table : List Proc)
    → All (λ (p : Proc). is_ready p ≡ true → p.queue ≢ q) table
    → Empty (q + 1) hi table
    → Empty q hi table
Empty-grow q hi [] h k = tt
Empty-grow q hi (p ∷ ps) h k = (
  λ r. elim (k.0 r) [ inl l ↦ inl (omega (arith, h.0 r)) | inr g ↦ inr g ],
  Empty-grow q hi ps h.1 k.1,
)

-- The search from queue `q` on, over `n` queues.
abbrev Searched : List Proc → ℕ → ℕ → Option (ℕ × Proc) → Type 0
Searched table n q none = Empty q (q + n) table
Searched table n q (some (j, p)) =
    Empty q p.queue table × (is_ready p ≡ true) × (get_elem? table j ≡ some p)

search_step :
    (table : List Proc) (n q : ℕ) (first rest : Option (ℕ × Proc))
    → Found q table 0 first
    → Searched table n (q + 1) rest
    → Searched table (suc n) q (or_else first rest)
search_step table n q none none f s =
    Empty-grow q (q + suc n) table f (subst (λ k. Empty (q + 1) k table) (omega arith) s)
search_step table n q none (some (j, p)) f (e, r, at) = (Empty-grow q p.queue table f e, r, at)
search_step table n q (some (j, p)) rest (r, e, (d, e', at)) s = (
  subst (λ k. Empty q k table) (sym e) (Empty-here q table),
  r,
  ap (λ k. get_elem? table k) (omega (arith, e')) ∙ at,
)

search_queues-Searched :
    (table : List Proc) (n q : ℕ) → Searched table n q (search_queues table n q)
unfolding search_queues
search_queues-Searched table zero q =
    subst (λ k. Empty q k table) (omega arith) (Empty-here q table)
search_queues-Searched table (suc n) q =
    search_step table n q (first_in_queue q table 0) (search_queues table n (q + 1))
      (first_in_queue-Found q table 0) (search_queues-Searched table n (q + 1))

Empty-IsLeast : (k : ℕ) (table : List Proc) → Empty 0 k table → IsLeast (λ p. p.queue) k table
Empty-IsLeast k [] h = tt
Empty-IsLeast k (p ∷ ps) h = (λ r. omega (arith, h.0 r), Empty-IsLeast k ps h.1)

Empty-none :
    (table : List Proc)
    → All (λ (p : Proc). p.queue < queue_count) table
    → Empty 0 queue_count table
    → All (λ p. is_ready p ≡ false) table
Empty-none [] l h = tt
Empty-none (p ∷ ps) l h = (
  elim (Bool-cases (is_ready p)) [ inl r ↦ absurd (omega (arith, h.0 r, l.0)) | inr r ↦ r ],
  Empty-none ps l.1 h.1,
)

Searched-IsChoice :
    (table : List Proc) (out : Option (ℕ × Proc))
    → All (λ (p : Proc). p.queue < queue_count) table
    → Searched table queue_count 0 out
    → IsChoice (λ p. p.queue) table out
Searched-IsChoice table none l s = Empty-none table l s
Searched-IsChoice table (some (j, p)) l (e, r, at) = (Empty-IsLeast p.queue table e, r, at)

-- Of a table whose processes all stand in one of the four queues, the MLFQ scheduler runs a runnable
-- process of the first queue that holds any, and runs none only if none is runnable.
pub mlfq_choice-IsChoice :
    (table : List Proc)
    → All (λ (p : Proc). p.queue < queue_count) table
    → IsChoice (λ p. p.queue) table (mlfq_choice table)
unfolding mlfq_choice
mlfq_choice-IsChoice table l =
    Searched-IsChoice table (search_queues table queue_count 0) l
      (search_queues-Searched table queue_count 0)
