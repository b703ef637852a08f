-- ===== src/Shell/Jobs/Listing.antt =====
-- `list_jobs` of shell/src/jobs.c: the jobs in use, sorted by their commands.
use mathlib.Core.List.{Perm}
use mathlib.Core.List.Perm
use operating_systems_and_ne.Prelude.{
  ℕ, zero, suc, ◌≤◌, ◌≡◌, refl, ap, Bool, true, false, List, [], ◌∷◌, if◌then◌else◌, Text, codes,
  map, ◌++◌, if_ind, length, All, arith, text_gt, text_gt_asymm, text_gt_trans, Bool-cases, inl,
  inr,
}
use operating_systems_and_ne.Shell.Jobs.{Job, Jobs, running}

-- The first loop of `list_jobs`.
pub active : List Job → List Job
active [] = []
active (j ∷ js) = let rest = active js in if j.in_use then j ∷ rest else rest

abbrev greater : Job → Job → Bool
greater a b = text_gt a.command b.command

-- One round of the outer sorting loop: `a` is `active_jobs[i]`, the list what follows it; the inner
-- loop swaps the two wherever the later is smaller.
pub exchange : Job → List Job → Job × List Job
exchange a [] = (a, [])
exchange a (b ∷ bs) =
    let (least, rest) = exchange (if greater a b then b else a) bs in
    (least, (if greater a b then a else b) ∷ rest)

-- The outer loop, with the rounds left.
pub sort_rounds : ℕ → List Job → List Job
sort_rounds zero js = js
sort_rounds (suc n) [] = []
sort_rounds (suc n) (a ∷ as') = let (least, rest) = exchange a as' in least ∷ sort_rounds n rest

pub sorted_active : List Job → List Job
sorted_active table = let js = active table in sort_rounds (length js) js

-- A printed line: the pid, the command and the status word.
pub line_of : Job → ℕ × Text × Text
line_of j = (j.pid, j.command, elim j.status [ running ↦ codes "Running" | _ ↦ codes "Stopped" ])

-- `list_jobs`: the lines printed.
pub list_jobs : Jobs → List (ℕ × Text × Text)
list_jobs s = map line_of (sorted_active s.table)

-- No later command is smaller.
abbrev pub IsSorted : List Job → Type 0
IsSorted [] = Unit
IsSorted (j ∷ js) = All (λ k. greater j k ≡ false) js × IsSorted js

exchange_le : (a : Job) (bs : List Job) → greater (exchange a bs).0 a ≡ false
unfolding exchange
exchange_le a [] = elim (Bool-cases (greater a a)) [
  | inl e ↦ text_gt_asymm a.command a.command e
  | inr e ↦ e
]
exchange_le a (b ∷ bs) = elim (Bool-cases (greater a b)) [
  | inl e ↦ rw e (
      text_gt_trans (exchange b bs).0.command b.command a.command (exchange_le b bs)
        (text_gt_asymm a.command b.command e))
  | inr e ↦ rw e (exchange_le a bs)
]

abbrev lesser : Job → Job → Job
lesser a b = if greater a b then b else a

abbrev other : Job → Job → Job
other a b = if greater a b then a else b

lesser_le : (a b : Job) → greater (lesser a b) (other a b) ≡ false
lesser_le a b = elim (Bool-cases (greater a b)) [
  | inl e ↦ rw e (text_gt_asymm a.command b.command e)
  | inr e ↦ rw e e
]

exchange_least :
    (a : Job) (bs : List Job) → All (λ k. greater (exchange a bs).0 k ≡ false) (exchange a bs).1
unfolding exchange
exchange_least a [] = tt
exchange_least a (b ∷ bs) = (
  text_gt_trans (exchange (lesser a b) bs).0.command (lesser a b).command (other a b).command
      (exchange_le (lesser a b) bs) (lesser_le a b),
  exchange_least (lesser a b) bs,
)

other_perm : (a b : Job) (bs : List Job) → Perm (other a b ∷ lesser a b ∷ bs) (a ∷ b ∷ bs)
other_perm a b bs = elim (Bool-cases (greater a b)) [
  | inl e ↦ rw e (Perm.refl (a ∷ b ∷ bs))
  | inr e ↦ rw e (Perm.swap a b bs)
]

exchange-perm : (a : Job) (bs : List Job) → Perm ((exchange a bs).0 ∷ (exchange a bs).1) (a ∷ bs)
unfolding exchange
exchange-perm a [] = Perm.refl (a ∷ [])
exchange-perm a (b ∷ bs) =
    Perm.trans (Perm.swap (other a b) (exchange (lesser a b) bs).0 _)
      (Perm.trans (Perm.cons (other a b) (exchange-perm (lesser a b) bs)) (other_perm a b bs))

length-exchange : (a : Job) (bs : List Job) → length (exchange a bs).1 ≡ length bs
unfolding exchange
length-exchange a [] = refl
length-exchange a (b ∷ bs) = ap suc (length-exchange (lesser a b) bs)

All-exchange :
    (P : Job → Type 0) (a : Job) (bs : List Job)
    → P a
    → All P bs
    → P (exchange a bs).0 × All P (exchange a bs).1
unfolding exchange
All-exchange P a [] h k = (h, k)
All-exchange P a (b ∷ bs) h k =
    let lo : P (lesser a b) = elim (greater a b) as (λ t. P (if t then b else a)) [
      | true ↦ k.0
      | false ↦ h
    ] in
    let hi : P (other a b) = elim (greater a b) as (λ t. P (if t then a else b)) [
      | true ↦ h
      | false ↦ k.0
    ] in
    let (least, rest) = All-exchange P (lesser a b) bs lo k.1 in (least, (hi, rest))

All-sort_rounds : (P : Job → Type 0) (n : ℕ) (js : List Job) → All P js → All P (sort_rounds n js)
unfolding sort_rounds
All-sort_rounds P zero js h = h
All-sort_rounds P (suc n) [] h = tt
All-sort_rounds P (suc n) (a ∷ bs) h =
    let (least, rest) = All-exchange P a bs h.0 h.1 in
    (least, All-sort_rounds P n (exchange a bs).1 rest)

sort_rounds-IsSorted : (n : ℕ) (js : List Job) → length js ≤ n → IsSorted (sort_rounds n js)
unfolding sort_rounds
sort_rounds-IsSorted zero [] h = tt
sort_rounds-IsSorted zero (a ∷ bs) h = absurd (omega arith)
sort_rounds-IsSorted (suc n) [] h = tt
sort_rounds-IsSorted (suc n) (a ∷ bs) h = (
  All-sort_rounds (λ k. greater (exchange a bs).0 k ≡ false) n (exchange a bs).1
      (exchange_least a bs),
  sort_rounds-IsSorted n (exchange a bs).1 (omega (arith, length-exchange a bs)),
)

sort_rounds-perm : (n : ℕ) (js : List Job) → Perm (sort_rounds n js) js
unfolding sort_rounds
sort_rounds-perm zero js = Perm.refl js
sort_rounds-perm (suc n) [] = Perm.refl []
sort_rounds-perm (suc n) (a ∷ bs) =
    Perm.trans (Perm.cons (exchange a bs).0 (sort_rounds-perm n (exchange a bs).1))
      (exchange-perm a bs)

-- The slots that the first loop passes over.
unused : List Job → List Job
unused [] = []
unused (j ∷ js) = let rest = unused js in if j.in_use then rest else j ∷ rest

All-active : (table : List Job) → All (λ j. j.in_use ≡ true) (active table)
unfolding active
All-active [] = tt
All-active (j ∷ js) =
    if_ind (All (λ k. k.in_use ≡ true)) j.in_use (λ e. (e, All-active js)) (λ e. All-active js)

All-unused : (table : List Job) → All (λ j. j.in_use ≡ false) (unused table)
unfolding unused
All-unused [] = tt
All-unused (j ∷ js) =
    if_ind (All (λ k. k.in_use ≡ false)) j.in_use (λ e. All-unused js) (λ e. (e, All-unused js))

Perm-middle : (a : Job) (xs ys : List Job) → Perm (xs ++ a ∷ ys) (a ∷ xs ++ ys)
Perm-middle a [] ys = Perm.refl (a ∷ ys)
Perm-middle a (x ∷ xs) ys =
    Perm.trans (Perm.cons x (Perm-middle a xs ys)) (Perm.swap a x (xs ++ ys))

active_unused-perm : (table : List Job) → Perm (active table ++ unused table) table
unfolding active unused
active_unused-perm [] = Perm.refl []
active_unused-perm (j ∷ js) =
    elim j.in_use
      as (λ t.
        Perm ((if t then j ∷ active js else active js) ++ (if t then unused js else j ∷ unused js))
          (j ∷ js)) [
            | true ↦ Perm.cons j (active_unused-perm js)
            | false ↦
                Perm.trans (Perm-middle j (active js) (unused js))
                  (Perm.cons j (active_unused-perm js))
          ]

-- The lines that `list_jobs` prints are those of jobs in the order of their commands; these jobs are in use, and
-- with slots that are not in use they are the slots of the table, each once.
pub list_jobs_lem :
    (s : Jobs)
    → (js : List Job) × (rest : List Job) × (list_jobs s ≡ map line_of js)
      × IsSorted js
      × All (λ j. j.in_use ≡ true) js
      × All (λ j. j.in_use ≡ false) rest
      × Perm (js ++ rest) s.table
unfolding list_jobs sorted_active
list_jobs_lem s =
    let js = active s.table in
    (
      sort_rounds (length js) js,
      unused s.table,
      refl,
      sort_rounds-IsSorted (length js) js (omega arith),
      All-sort_rounds (λ j. j.in_use ≡ true) (length js) js (All-active s.table),
      All-unused s.table,
      Perm.trans (Perm.append_right (unused s.table) (sort_rounds-perm (length js) js))
          (active_unused-perm s.table),
    )
