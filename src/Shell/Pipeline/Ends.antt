-- ===== src/Shell/Pipeline/Ends.antt =====
-- Which ends of the pipes the children of a pipeline hold.
use operating_systems_and_ne.Prelude.{
  ℕ, zero, suc, ◌+◌, ◌<◌, ◌≤◌, ◌≡◌, ◌↔◌, ◌==◌, refl, ap, ◌∙◌, sym, subst, Bool, true, false, Option,
  none, some, List, [], ◌∷◌, length, get_elem?, Text, Bool-cases, inl, inr, arith,
}
use operating_systems_and_ne.Shell.Executor.{ParsedCommand, is_runnable}
use operating_systems_and_ne.Shell.Run.{Files}
use operating_systems_and_ne.Shell.Pipeline.Closing.{close_pipes-all}
use operating_systems_and_ne.Shell.Pipeline.{
  Feed, from_shell, from_file, from_pipe, Drain, to_terminal, truncated, appended, to_pipe, feed_of,
  drain_of, runs, connect_stage, run_stage, fork_all, pid_of, stage_of, parent_ends,
}

fork_all-get :
    (fs : Files) (forks : ℕ → Option ℕ) (last i j pid : ℕ) (cmds : List (Option ParsedCommand))
    (cmd : ParsedCommand)
    → get_elem? cmds i ≡ some (some cmd)
    → is_runnable cmd ≡ true
    → forks (j + i) ≡ some pid
    → get_elem? (fork_all fs forks last j cmds) i ≡ some (some (pid, run_stage fs last (j + i) cmd))
unfolding fork_all pid_of stage_of
fork_all-get fs forks last i j pid [] cmd e h f = absurd (cc)
fork_all-get fs forks last zero j pid (none ∷ cmds) cmd e h f = absurd (cc)
fork_all-get fs forks last zero j pid (some c ∷ cmds) cmd e h f =
    let same : c ≡ cmd = cc in
    let zero_behind : j + 0 ≡ j = omega arith in
    let forked : forks j ≡ some pid = ap forks (sym zero_behind) ∙ f in
    rw (same, h, zero_behind, forked) refl
fork_all-get fs forks last (suc i) j pid (none ∷ cmds) cmd e h f =
    let moved : j + suc i ≡ suc j + i = omega arith in
    rw moved (fork_all-get fs forks last i (suc j) pid cmds cmd e h (ap forks (sym moved) ∙ f))
fork_all-get fs forks last (suc i) j pid (some c ∷ cmds) cmd e h f =
    let moved : j + suc i ≡ suc j + i = omega arith in
    rw moved (fork_all-get fs forks last i (suc j) pid cmds cmd e h (ap forks (sym moved) ∙ f))

get_elem?-bound {ℓ} :
    {A : Type ℓ} (xs : List A) (i : ℕ) (a : A) → get_elem? xs i ≡ some a → i < length xs
get_elem?-bound [] i a e = absurd (cc)
get_elem?-bound (x ∷ xs) zero a e = omega arith
get_elem?-bound (x ∷ xs) (suc i) a e = omega (arith, get_elem?-bound xs i a e)

-- All files can be opened.
abbrev pub Opens : Files → Type 0
Opens fs = ((name : Text) → fs.readable name ≡ true) × ((name : Text) → fs.writable name ≡ true)

-- The child `i` reads from the pipe `k` exactly if it follows it.
abbrev pub Reads : ℕ → Feed → Type 0
Reads i feed = (k : ℕ) → (feed ≡ from_pipe k) ↔ (i ≡ suc k)

-- The child `i` of `n` writes to the pipe `k` exactly if this is its own, and another child follows.
abbrev pub Writes : (n i : ℕ) → Drain → Type 0
Writes n i drain = (k : ℕ) → (drain ≡ to_pipe k) ↔ ((i ≡ k) × (suc i < n))

feed_of-Reads :
    (fs : Files) (i : ℕ) (file : Option Text)
    → Opens fs
    → (feed : Feed) × (feed_of fs i file ≡ some feed) × Reads i feed
unfolding feed_of
feed_of-Reads fs zero none h = (from_shell, refl, λ k. (λ e. absurd (cc), λ e. absurd (cc)))
feed_of-Reads fs zero (some name) h =
    (from_file name, rw (h.0 name) refl, λ k. (λ e. absurd (cc), λ e. absurd (cc)))
feed_of-Reads fs (suc i) file h = (
  from_pipe i,
  refl,
  λ k. (
    λ e. (let same : i ≡ k = cc in ap suc same),
    λ e. (let same : i ≡ k = omega (arith, e) in ap from_pipe same),
  ),
)

last_drain :
    (fs : Files) (n i : ℕ) (file : Option Text) (append : Bool)
    → Opens fs
    → n ≤ suc i
    → (drain : Drain) × (drain_of fs true i file append ≡ some drain) × Writes n i drain
unfolding drain_of
last_drain fs n i none append h l =
    (to_terminal, refl, λ k. (λ e. absurd (cc), λ e. absurd (omega (arith, e.1, l))))
last_drain fs n i (some name) true h l = (
  appended name,
  rw (h.1 name) refl,
  λ k. (λ e. absurd (cc), λ e. absurd (omega (arith, e.1, l))),
)
last_drain fs n i (some name) false h l = (
  truncated name,
  rw (h.1 name) refl,
  λ k. (λ e. absurd (cc), λ e. absurd (omega (arith, e.1, l))),
)

drain_of-Writes :
    (fs : Files) (n i : ℕ) (file : Option Text) (append : Bool)
    → Opens fs
    → i < suc n
    → (drain : Drain) × (drain_of fs (i == n) i file append ≡ some drain) × Writes (suc n) i drain
drain_of-Writes fs n i file append h l = elim (Bool-cases (i == n)) [
  | inl e ↦ rw e (last_drain fs (suc n) i file append h (ground arith))
  | inr e ↦ rw e (
    to_pipe i,
    (unfold drain_of in refl),
    λ k. (λ e'. (let same : i ≡ k = cc in (same, ground arith)), λ e'. ap to_pipe e'.0),
  )
]

-- Of a pipeline of several commands, where every file can be opened and the `fork` of the command `i` returns a pid, this
-- is in `pids[i]`, and the child executes its arguments: its input is the read end of the pipe `i - 1` if there is one,
-- and of no other, its output the write end of the pipe `i` if another child follows, and of no other, and behind
-- the closing loop it holds no further end of a pipe. So, once the shell has closed its own ends too, as the
-- last equation says it does, each pipe has one writer, and the child behind it as its one reader.
pub fork_all-ends :
    (fs : Files) (forks : ℕ → Option ℕ) (n i pid : ℕ) (cmds : List (Option ParsedCommand))
    (cmd : ParsedCommand)
    → Opens fs
    → length cmds ≡ suc n
    → get_elem? cmds i ≡ some (some cmd)
    → is_runnable cmd ≡ true
    → forks i ≡ some pid
    → (feed : Feed) × (drain : Drain) × (get_elem? (fork_all fs forks n 0 cmds) i
        ≡ some (some (pid, runs feed drain [] cmd.args)))
      × Reads i feed
      × Writes (length cmds) i drain
      × (parent_ends n ≡ [])
unfolding run_stage connect_stage parent_ends
fork_all-ends fs forks n i pid cmds cmd h l e r f =
    let (feed, fe, reads) = feed_of-Reads fs i cmd.input_file h in
    let (drain, de, writes) =
      drain_of-Writes fs n i cmd.output_file cmd.append_output h
        (omega (arith, l, get_elem?-bound cmds i (some cmd) e)) in
    let got = fork_all-get fs forks n i 0 pid cmds cmd e r (ap forks (omega arith) ∙ f) in
    let start : 0 + i ≡ i = omega arith in
    (
      feed,
      drain,
      got ∙ rw (start, fe, de, close_pipes-all n) refl,
      reads,
      subst (λ m. Writes m i drain) (sym l) writes,
      close_pipes-all n,
    )
