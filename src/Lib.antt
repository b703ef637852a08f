-- ===== src/Lib.antt =====
-- Verification of the mini project: a shell in C (shell/), a reliable file transfer over UDP
-- (networking/), and changes to the xv6 kernel (xv6/).
--
-- The shell reads a line, validates it (shell/src/parser.c), logs it (shell/src/log.c), and
-- executes it (shell/src/executor.c): the line is cut at `;` and `&` into groups, a group at `|`
-- into commands, a command into arguments and redirections. Children that stop or run in the
-- background are kept in a table (shell/src/jobs.c), which `fg`, `bg`, `ping` and `activities`
-- (shell/src/job_control.c) and the signal handlers (shell/src/signals.c) work on. The server
-- (networking/server.c) accepts a connection and receives a file whose packets it acknowledges.
--
-- Shell.Parser models parser.c, function by function: `skip_whitespace`, `parse_name`,
--   `parse_input_redir`, `parse_output_redir`, `parse_atomic`, `parse_cmd_group`, `parse_input`; a
--   loop is a function with its own name. Shell.Parser.Tokens holds the tokens of
--   shell/include/parser.h as a reference lexer; Recognizer, Follows and Decides compare the
--   recursive descent with an automaton over the tokens, and Grammar compares the automaton with
--   syntax trees of the grammar in the comments of parser.c.
-- Shell.Executor models `parse_command`, and the splitting loops of `execute_pipeline` and
--   `execute_full_command`; `plan` is the list of groups that the loop at the end of
--   `execute_full_command` goes through, each with the parsed commands of its pipeline. Scan and
--   Words are about single commands, Signs, Cuts, Pieces and Groups about the splitting, Plan and
--   Runnable about whole lines.
-- Shell.Log models log.c: the ring of fifteen entries as a record (`Log`), with the file that it is
--   saved to. Ring is about the ring, History about the history it stands for, Stored and Newest about
--   its lines.
-- Shell.Jobs models jobs.c and the types of shell/include/jobs.h: the static variables are the
--   record `Jobs`, a pointer to a job is the index of its slot, and `waitpid` is a list of events.
--   Table, Operations, Queries, Listing and Lifecycle hold the laws.
-- Shell.JobControl models job_control.c and signals.c: a handler or a command maps the jobs to the
--   jobs and the list of what it prints and sends. Laws holds what they keep.
-- Shell.Run models `execute_single_command` of executor.c, with what `fork` and `waitpid` return
--   and which files can be opened as arguments.
-- Shell.Pipeline models `execute_pipeline` behind its splitting loop and `execute_full_command`:
--   the children of several commands with the pipes between them, the job in the background and the
--   wait in the foreground, with what the system calls return as an argument. Closing and Ends are
--   about the pipes, Laws and Started about whole lines, Idle about the foreground process.
-- Shell.Main models `process_input` of main.c.
-- Shell.Session puts the shell together: its state is the log, the working directory, the jobs and
--   the output, and `execute_intrinsic`, `execute_full_command` and the loop of main.c map a state to
--   a state with the operations of the modules above. What the system answers is a `World` with a
--   `Moment` for each pipeline. A line may hold `log execute`, which executes a stored line; the fuel
--   is the depth of this nesting, and a run is cut off where it is used up, with the state that was
--   reached, so that a theorem about that state also holds in the middle of a run that has no end.
--   Turns models the main loop, with the input, the keys and the children as a list of turns. Defined,
--   Keeps, Runs and Loop say what each part keeps, Safe and Restart what the whole shell keeps, Ends
--   when it ends, CutOff and Diverges when it does not; Background follows a command in the
--   background.
-- Shell.Hop models hop.c, with `chdir` and `getcwd` as a parameter; Back is about `hop -`.
-- Shell.Reveal models reveal.c, with what `readdir` finds and `qsort` as parameters, which is given `compare_entries`; Letters,
--   Described and Arguments are about the arguments, Lines about what is printed.
-- Shell.Prompt models `init_shell` and `display_prompt` of main.c.
-- Xv6.Schedulers models what the schedulers of xv6/kernel/proc.c and xv6/kernel/mlfq_scheduler.c
--   choose and charge, and `allocproc` of xv6/kernel/proc_init.c, on a list of processes; Choice is
--   about FCFS and CFS, Queues about MLFQ. Xv6.Steps models a round of each scheduler as a whole,
--   with `swtch` as a parameter; Fair says what a round keeps, and whom it runs. Xv6.Cfs models
--   a round of the CFS scheduler with the locks that the processor holds, and the panics of `acquire`
--   and `release` in xv6/xv6-source/kernel/spinlock.c; Panics says what it comes to. Xv6.Trap models
--   `usertrap` of xv6/kernel/trap.c. Xv6.Files models `fileread` of xv6/kernel/file.c and
--   `sys_getreadcount` of xv6/kernel/sysproc.c.
-- Sham models networking/sham.h, Sham.Server the handshake and the reception in server.c, with what
--   the socket delivers as a list of events, and Sham.Client the handshake, the termination and the
--   chat of client.c (Sham.Client.Chat). Sham.Server.Delivery compares the bytes received with the
--   stream of the peer, Sham.Client.Connection the two sides of the handshake. Sham.Client.Window
--   models `send_file` of client.c: the window of packets with its indices, the retransmissions and
--   their limit; `fread` is a list of reads, `gettimeofday` a parameter. A round is cut at the wait
--   for an answer. Pieces and Retries say what is sent, Rounds what a round makes of the numbers.
-- Sham.Conversation models the chat of server.c, and puts it together with that of the client.
-- Sham.Transfer puts both sides and the network together: a step of the client, or the reception of
--   any packet that was ever sent, so that packets are lost, repeated and reordered. Delivered says
--   what arrives, Silent what is not said again, Filling and LastHeard how a transfer ends of
--   which each packet and the last acknowledgement of each window arrive, Finishes that this is a
--   run of the client, the server and the network.
-- Prelude holds the shared names: lists, bytes, C strings, integers, Boolean tests.
--
-- A C string is the list of its bytes (0 to 255) before the NUL, and a read at the end gives the
-- NUL. The buffers of 4096 bytes are modelled as such; the arrays of 256 arguments and of 100
-- groups or pipes are lists without a bound. Fuel is one more than the length of the text that a
-- loop reads, which is enough since each round reads at least a byte; that it is enough is part
-- of the theorems. `malloc`, `strdup` and `strndup` are taken to succeed; job numbers and pids
-- are natural numbers below 2^31, but for the pid -1 of a `fork` that fails in a pipeline. The log file is
-- the lines that `fgets` reads back, and no child writes to it. `waitpid` on a single child in the
-- foreground returns; on those of a pipeline it does if they end, and else the run is cut off. Sequence numbers wrap at 2^32. `atoi` and
-- `strtol` are parameters.
--
-- Not modelled: what is I/O only in the set-up and at the end of the shell, and the functions
-- that it never calls (`tokenize_and_execute`, `execute_simple_command`, `execute_command`); the
-- logging and the md5 digest; the copy of xv6, its locks but in Xv6.Cfs, its context switches, and the table of
-- system calls; the buffer of ten megabytes of the server is taken as unbounded. A file that is
-- sent has at most 2^31 - 51 bytes in the theorems about losses, so that no sequence number
-- wraps in the test of the sender's loop.
pub mod Prelude
pub mod Shell
pub mod Sham
pub mod Xv6
