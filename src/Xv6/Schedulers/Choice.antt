-- ===== src/Xv6/Schedulers/Choice.antt =====
-- What the searches of the FCFS and the CFS scheduler of xv6/kernel/proc.c come to, and the weights of the CFS scheduler.
use operating_systems_and_ne.Prelude.{
  ℕ, zero, suc, ◌+◌, ◌*◌, ◌/◌, ◌%◌, ◌^◌, ◌≤◌, ◌≡◌, ◌⊎◌, refl, ap, ◌∙◌, sym, true, false, ◌&&◌,
  Option, none, some, List, [], ◌∷◌, get_elem?, All, arith, Bool-cases, inl, inr, pos,
}
use operating_systems_and_ne.Xv6.Schedulers.{
  Proc, is_ready, improves, scan, fcfs_choice, lower_weight, calculate_weight,
}

-- No ready process of the table has a smaller key.
abbrev pub IsLeast : (Proc → ℕ) → ℕ → List Proc → Type 0
IsLeast key k = All (λ (p : Proc). is_ready p ≡ true → k ≤ key p)

-- The choice is a ready process of the table with the least key; there is none if none is ready.
abbrev pub IsChoice : (Proc → ℕ) → List Proc → Option (ℕ × Proc) → Type 0
IsChoice key table none = All (λ p. is_ready p ≡ false) table
IsChoice key table (some (i, p)) =
    IsLeast key (key p) table × (is_ready p ≡ true) × (get_elem? table i ≡ some p)

-- The key is no larger than that of the best process so far.
abbrev NoWorse : (Proc → ℕ) → ℕ → Option (ℕ × Proc) → Type 0
NoWorse key k none = Unit
NoWorse key k (some (i, b)) = k ≤ key b

abbrev IsBest : Option (ℕ × Proc) → ℕ → Proc → Type 0
IsBest none j p = ⊥
IsBest (some (i, b)) j p = (i ≡ j) × (b ≡ p)

-- The scan's result is the best so far, or a ready process of the rest.
abbrev Scanned : (Proc → ℕ) → List Proc → ℕ → Option (ℕ × Proc) → Option (ℕ × Proc) → Type 0
Scanned key ps i best none = (best ≡ none) × All (λ p. is_ready p ≡ false) ps
Scanned key ps i best (some (j, p)) =
    IsLeast key (key p) ps
    × NoWorse key (key p) best
    × (IsBest best j p
        ⊎ ((is_ready p ≡ true) × ((d : ℕ) × (j ≡ i + d) × (get_elem? ps d ≡ some p))))

improves_least :
    (key : Proc → ℕ) (p : Proc) (best : Option (ℕ × Proc)) (k : ℕ)
    → improves key p best ≡ true
    → k ≤ key p
    → NoWorse key k best
improves_least key p none k h l = tt
improves_least key p (some (i, b)) k h l = ground arith

kept_least :
    (key : Proc → ℕ) (p : Proc) (best : Option (ℕ × Proc)) (k : ℕ)
    → (is_ready p && improves key p best) ≡ false
    → NoWorse key k best
    → is_ready p ≡ true
    → k ≤ key p
kept_least key p none k h n r = ground arith
kept_least key p (some (i, b)) k h n r = ground arith

Scanned-taken :
    (key : Proc → ℕ) (p : Proc) (ps : List Proc) (i : ℕ) (best out : Option (ℕ × Proc))
    → is_ready p ≡ true
    → improves key p best ≡ true
    → Scanned key ps (i + 1) (some (i, p)) out
    → Scanned key (p ∷ ps) i best out
Scanned-taken key p ps i best none r h (e, all) = cc
Scanned-taken key p ps i best (some (j, q)) r h (least, below, from) = (
  (λ _. below, least),
  improves_least key p best (key q) h below,
  inr (elim from [
    | inl (e, e') ↦ (ap is_ready (sym e') ∙ r, (0, omega (arith, e), ap some e'))
    | inr (r', (d, e, at)) ↦ (r', (suc d, omega (arith, e), at))
  ]),
)

Scanned-kept :
    (key : Proc → ℕ) (p : Proc) (ps : List Proc) (i : ℕ) (best out : Option (ℕ × Proc))
    → (is_ready p && improves key p best) ≡ false
    → Scanned key ps (i + 1) best out
    → Scanned key (p ∷ ps) i best out
Scanned-kept key p ps i none none h (e, all) = (e, (ground arith, all))
Scanned-kept key p ps i (some b) none h (e, all) = cc
Scanned-kept key p ps i best (some (j, q)) h (least, below, from) = (
  (kept_least key p best (key q) h below, least),
  below,
  elim from [
    | inl same ↦ inl same
    | inr (r', (d, e, at)) ↦ inr (r', (suc d, omega (arith, e), at))
  ],
)

scan-Scanned :
    (key : Proc → ℕ) (ps : List Proc) (i : ℕ) (best : Option (ℕ × Proc))
    → Scanned key ps i best (scan key ps i best)
unfolding scan
scan-Scanned key [] i none = (refl, tt)
scan-Scanned key [] i (some (j, p)) = (tt, omega arith, inl (refl, refl))
scan-Scanned key (p ∷ ps) i best = elim (Bool-cases (is_ready p && improves key p best)) [
  | inl h ↦ rw h (
      Scanned-taken key p ps i best (scan key ps (i + 1) (some (i, p))) (ground arith)
        (ground arith) (scan-Scanned key ps (i + 1) (some (i, p))))
  | inr h ↦
      rw h (
        Scanned-kept key p ps i best (scan key ps (i + 1) best) h
          (scan-Scanned key ps (i + 1) best))
]

Scanned-IsChoice :
    (key : Proc → ℕ) (table : List Proc) (out : Option (ℕ × Proc))
    → Scanned key table 0 none out
    → IsChoice key table out
Scanned-IsChoice key table none (e, all) = all
Scanned-IsChoice key table (some (j, p)) (least, below, inl never) = absurd never
Scanned-IsChoice key table (some (j, p)) (least, below, inr (r, (d, e, at))) =
    (least, r, ap (λ k. get_elem? table k) (omega (arith, e)) ∙ at)

pub scan-IsChoice :
    (key : Proc → ℕ) (table : List Proc) → IsChoice key table (scan key table 0 none)
scan-IsChoice key table =
    Scanned-IsChoice key table (scan key table 0 none) (scan-Scanned key table 0 none)

-- The FCFS scheduler runs a runnable process that was created no later than any other, and runs none
-- only if none is runnable.
pub fcfs_choice-IsChoice : (table : List Proc) → IsChoice (λ p. p.ctime) table (fcfs_choice table)
unfolding fcfs_choice
fcfs_choice-IsChoice table = scan-IsChoice (λ p. p.ctime) table

lower_weight_le : (n w : ℕ) → w ≤ 1024 → lower_weight n w ≤ w
unfolding lower_weight
lower_weight_le zero w h = omega arith
lower_weight_le (suc n) w h = omega (arith, lower_weight_le n (w * 4 % 2 ^ 64 / 5) (omega arith))

-- The loop's next round stands at its end.
lower_weight-suc : (n w : ℕ) → lower_weight (suc n) w ≡ lower_weight n w * 4 % 2 ^ 64 / 5
unfolding lower_weight
lower_weight-suc zero w = refl
lower_weight-suc (suc n) w = lower_weight-suc n (w * 4 % 2 ^ 64 / 5)

-- Of the nice values from 0 on, the weights lie from 15 to 1024, and a greater value never has a
-- greater weight.
pub calculate_weight_bounds :
    (n : ℕ)
    → (15 ≤ calculate_weight (pos n))
      × (calculate_weight (pos n) ≤ 1024)
      × (calculate_weight (pos (suc n)) ≤ calculate_weight (pos n))
unfolding calculate_weight
calculate_weight_bounds zero = (omega arith, omega arith, ground (arith, lower_weight_le 1 1024))
calculate_weight_bounds (suc n) =
    let l = lower_weight_le (suc n) 1024 (omega arith) in
    let e = lower_weight-suc (suc n) 1024 in (ground arith, ground (arith, l), ground (arith, l, e))
