-- ===== src/Shell/Pipeline/Closing.antt =====
-- The loops of shell/src/executor.c that close the ends of the pipes leave none open.
use operating_systems_and_ne.Prelude.{
  ℕ, zero, suc, ◌+◌, ◌<◌, ◌≤◌, ◌≡◌, refl, subst, false, List, [], ◌∷◌, All, if_ind, arith,
}
use operating_systems_and_ne.Shell.Pipeline.{
  PipeEnd, read_end, write_end, is_end, close_end, open_pipes, close_pipes,
}

-- The pipe that an end belongs to.
abbrev pipe_of : PipeEnd → ℕ
pipe_of (read_end k) = k
pipe_of (write_end k) = k

abbrev Between : ℕ → ℕ → List PipeEnd → Type 0
Between j n = All (λ e. (j ≤ pipe_of e) × (pipe_of e < n))

-- Behind the closing of the pipe `j` no end of it is left.
close_read-Between :
    (j n : ℕ) (ds : List PipeEnd)
    → Between j n ds
    → All
        (λ e. ((j ≤ pipe_of e) × (pipe_of e < n)) × (is_end (read_end j) e ≡ false))
        (close_end (read_end j) ds)
unfolding close_end
close_read-Between j n [] h = tt
close_read-Between j n (d ∷ ds) h =
    let rest = close_read-Between j n ds h.1 in
    if_ind (All (λ e. ((j ≤ pipe_of e) × (pipe_of e < n)) × (is_end (read_end j) e ≡ false)))
      (is_end (read_end j) d) (λ t. rest) (λ t. ((h.0, t), rest))

past :
    (j n : ℕ) (e : PipeEnd)
    → (j ≤ pipe_of e) × (pipe_of e < n)
    → is_end (read_end j) e ≡ false
    → is_end (write_end j) e ≡ false
    → (suc j ≤ pipe_of e) × (pipe_of e < n)
unfolding is_end
past j n (read_end k) h r w = ground arith
past j n (write_end k) h r w = ground arith

close_write-Between :
    (j n : ℕ) (ds : List PipeEnd)
    → All (λ e. ((j ≤ pipe_of e) × (pipe_of e < n)) × (is_end (read_end j) e ≡ false)) ds
    → Between (suc j) n (close_end (write_end j) ds)
unfolding close_end
close_write-Between j n [] h = tt
close_write-Between j n (d ∷ ds) h =
    let rest = close_write-Between j n ds h.1 in
    if_ind (Between (suc j) n) (is_end (write_end j) d) (λ t. rest)
      (λ t. (past j n d h.0.0 h.0.1 t, rest))

none-Between : (n : ℕ) (ds : List PipeEnd) → Between n n ds → ds ≡ []
none-Between n [] h = refl
none-Between n (d ∷ ds) h = absurd (omega (arith, h.0.0, h.0.1))

close_pipes-none :
    (j n m : ℕ) (ds : List PipeEnd) → j + n ≡ m → Between j m ds → close_pipes j n ds ≡ []
unfolding close_pipes
close_pipes-none j zero m ds e h =
    let here : j ≡ m = omega (arith, e) in none-Between m ds (subst (λ k. Between k m ds) here h)
close_pipes-none j (suc n) m ds e h =
    close_pipes-none (suc j) n m (close_end (write_end j) (close_end (read_end j) ds))
      (omega (arith, e))
      (close_write-Between j m (close_end (read_end j) ds) (close_read-Between j m ds h))

Between-more : (n : ℕ) (ds : List PipeEnd) → Between 0 n ds → Between 0 (suc n) ds
Between-more n [] h = tt
Between-more n (d ∷ ds) h = ((h.0.0, omega (arith, h.0.1)), Between-more n ds h.1)

open_pipes-Between : (n : ℕ) → Between 0 n (open_pipes n)
unfolding open_pipes
open_pipes-Between zero = tt
open_pipes-Between (suc n) = (
  (omega arith, omega arith),
  ((omega arith, omega arith), Between-more n (open_pipes n) (open_pipes-Between n)),
)

-- The closing loop closes every end of every pipe.
pub close_pipes-all : (n : ℕ) → close_pipes 0 n (open_pipes n) ≡ []
close_pipes-all n = close_pipes-none 0 n n (open_pipes n) (omega arith) (open_pipes-Between n)
