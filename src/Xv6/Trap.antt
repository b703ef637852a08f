-- ===== src/Xv6/Trap.antt =====
-- `usertrap` of xv6/kernel/trap.c, with the CFS scheduler or with another; `timer` says that the interrupt is
-- one of the timer. The device that asked, and the way back to the user, are not part of it.
use native.Mathlib.Nat.{mod-lt, mod-add-mod, mod_self}
use operating_systems_and_ne.Prelude.{
  ℕ, zero, suc, ◌+◌, ◌-◌, ◌%◌, ◌^◌, ◌<◌, ◌≡◌, refl, ap, ◌∙◌, sym, Bool, true, ◌&&◌, ◌==◌, List,
  if◌then◌else◌, arith,
}
use operating_systems_and_ne.Xv6.Schedulers.{Proc, count_ready, cfs_slice}

-- The count of a tick that the process ran, with CFS.
unfoldable pub count_tick : Bool → Proc → Proc
count_tick cfs p = if cfs then record p { runtime = (p.runtime + 1) % 2 ^ 64 } else p

-- Whether a process with this runtime gives up the processor.
unfoldable pub gives_up : Bool → List Proc → ℕ → Bool
gives_up cfs table runtime = if cfs then runtime % cfs_slice (count_ready table) == 0 else true

-- `usertrap`: the process, and whether it yields.
unfoldable pub usertrap : Bool → Bool → List Proc → Proc → Proc × Bool
unfolding count_tick gives_up
usertrap cfs timer table p =
    let p' = count_tick cfs p in (p', timer && gives_up cfs table p'.runtime)

-- The process behind `n` interrupts of the timer.
unfoldable pub interrupted : List Proc → ℕ → Proc → Proc
unfolding usertrap
interrupted table zero p = p
interrupted table (suc n) p = interrupted table n (usertrap true true table p).0

runtime-interrupted :
    (table : List Proc) (n : ℕ) (p : Proc)
    → p.runtime + n < 2 ^ 64
    → (interrupted table n p).runtime ≡ p.runtime + n
unfolding interrupted usertrap count_tick
runtime-interrupted table zero p h = omega arith
runtime-interrupted table (suc n) p h =
    let rest =
      runtime-interrupted table n (record p { runtime = (p.runtime + 1) % 2 ^ 64 })
        (omega (arith, h)) in
    omega (arith, rest, h)

slice-positive : (count : ℕ) → 0 < cfs_slice count
unfolding cfs_slice
slice-positive count = ground arith

usertrap-if :
    (table : List Proc) (p : Proc) (r : ℕ)
    → p.runtime + 1 ≡ r
    → r < 2 ^ 64
    → r % cfs_slice (count_ready table) ≡ 0
    → (usertrap true true table p).1 ≡ true
unfolding usertrap count_tick gives_up
usertrap-if table p r e l m =
    let same : (p.runtime + 1) % 2 ^ 64 ≡ r = omega (arith, e, l) in rw (same, m) refl

-- With CFS, while the number of ready processes stays the same and no other trap comes between the interrupts of the
-- timer, a running process yields within its time slice: there
-- are fewer interrupts of the timer than its slice has ticks after which it yields at the next one.
pub usertrap-yields :
    (table : List Proc) (p : Proc)
    → p.runtime + cfs_slice (count_ready table) < 2 ^ 64
    → (n : ℕ) × (n < cfs_slice (count_ready table))
      × ((usertrap true true table (interrupted table n p)).1 ≡ true)
usertrap-yields table p h =
    let slice = cfs_slice (count_ready table) in
    let left = p.runtime % slice in
    let lt = mod-lt p.runtime (slice-positive (count_ready table)) in
    let n = slice - left - 1 in
    let whole : left + (slice - left) ≡ slice = omega (arith, lt) in
    let last : (p.runtime + (slice - left)) % slice ≡ 0 =
      sym (mod-add-mod p.runtime slice (slice - left))
      ∙ ap (λ m. m % slice) whole
      ∙ mod_self slice in
    let ran = runtime-interrupted table n p (omega (arith, h, lt)) in
    (
      n,
      omega (arith, lt),
      usertrap-if table (interrupted table n p) (p.runtime + (slice - left))
          (omega (arith, ran, lt)) (omega (arith, h, lt)) last,
    )
