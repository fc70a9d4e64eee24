-- ===== src/Tsh/Shell.antt =====
-- Evaluation and signal handlers of lab6-shelllab6-qinlinj/tsh.c, in the parent process.
--
-- What the operating system answers is an argument: `Answers` for `fork` and `open`, and the state's
-- list of deliveries for the signals that end a `sigsuspend`. Handlers run at `sigsuspend` only; the
-- job list is used with its signals blocked, so no handler can run in between.
pub mod Command
pub mod Ends
pub mod Eval
pub mod Handlers
pub mod Wait
use computer_systems_project.Base.{
  ℕ, zero, suc, ◌+◌, ◌-◌, ◌*◌, Bool, true, false, not, ◌&&◌, ◌||◌, Option, none, some, List, [],
  ◌∷◌, ltb, leb, ◌==◌, if◌then◌else◌, length,
}
use computer_systems_project.Base.Int.{ℤ, pos, negsuc, int_eq, is_neg}
use computer_systems_project.Tsh.State.{
  JobState, undef, fg, bg, st, Mask, Signal, sigint, sigtstp, sigcont, Status, stopped, signaled,
  exited_normally, Delivery, children, ctrl_c, ctrl_z, Event, sent_group, job_stopped,
  job_terminated, job_started, needs_argument, bad_argument, no_such_job, no_such_process,
  open_error, Shell, Run, ok, aborted, exited, asleep, M, pure, abort, and_then, ◌>>=◌, ◌>>◌,
  modify_state, emit,
}
use computer_systems_project.Tsh.Jobs.{
  init_job_list, destroy_job_list, job_exists, fg_job, job_from_pid, add_job, delete_job,
  job_set_state, job_get_pid, job_get_cmdline, list_jobs,
}
use computer_systems_project.Tsh.Parse.{
  Tokens, Builtin, builtin_none, builtin_quit, builtin_jobs, builtin_bg, builtin_fg, ParseResult,
  parsed_fg, parsed_bg, parsed_empty, parse_error, parseline,
}

-- What `fork` returns in the parent, what `open` returns for the output file of `jobs`, and how many
-- lines of the listing are written before a write fails.
pub record Answers : Type 0 where
  pub forked : ℤ
  pub opened : ℤ
  pub written : ℕ

-- The signal sets of `init_signal_sets`, and `sigprocmask`.
abbrev pub mask_all : Mask
mask_all = record { chld = true; int = true; tstp = true; rest = true }

abbrev pub with_mask_three : Mask → Mask
with_mask_three m = record m { chld = true; int = true; tstp = true }

abbrev pub get_mask : M Mask
get_mask s = ok s.mask s

abbrev pub set_mask : Mask → M (Unit {0})
set_mask m = modify_state λ s. record s { mask = m }

-- One round of the loop of `sigchld_handler`.
pub reap : (pid : ℤ) → Status → M (Unit {0})
reap pid (stopped sig) = do
  jid ← job_from_pid pid
  job_set_state jid st
  emit (job_stopped jid pid sig)
reap pid (signaled sig) = do
  jid ← job_from_pid pid
  emit (job_terminated jid pid sig)
  delete_job jid
  pure tt
reap pid (exited_normally code) = do jid ← job_from_pid pid; delete_job jid; pure tt

pub reap_all : List (ℤ × Status) → M (Unit {0})
reap_all [] = pure tt
reap_all ((pid, status) ∷ rest) = do reap pid status; reap_all rest

pub sigchld_handler : List (ℤ × Status) → M (Unit {0})
sigchld_handler reaped = do
  previous ← get_mask
  set_mask mask_all
  reap_all reaped
  set_mask previous

-- The bodies of `sigint_handler` and `sigtstp_handler`.
pub forward : Signal → M (Unit {0})
forward sig = do
  previous ← get_mask
  set_mask mask_all
  jid ← fg_job
  (if ltb 0 jid then (do pid ← job_get_pid jid; emit (sent_group pid sig)) else pure tt)
  set_mask previous

pub deliver : Delivery → M (Unit {0})
deliver (children reaped) = sigchld_handler reaped
deliver ctrl_c = forward sigint
deliver ctrl_z = forward sigtstp

-- `sigsuspend(previous)`: a handler runs under the mask `previous`; then the old mask is back.
pub suspend : (previous : Mask) → Delivery → M (Unit {0})
suspend previous d = do current ← get_mask; set_mask previous; deliver d; set_mask current

-- `while (fg_job()) sigsuspend(previous);` on what is still to arrive.
pub wait_loop : (previous : Mask) → List Delivery → M (Unit {0})
wait_loop previous [] = do jid ← fg_job; if jid == 0 then pure tt else λ s. asleep
wait_loop previous (d ∷ ds) = do
  jid ← fg_job
  (if jid == 0 then pure tt else do
    modify_state λ s. record s { deliveries = ds }
    suspend previous d
    wait_loop previous ds)

pub wait_fg : (previous : Mask) → M (Unit {0})
wait_fg previous s = wait_loop previous s.deliveries s

-- The digits at the head of a text, behind a value read so far.
pub digits_value : (acc : ℕ) → List ℕ → ℕ
digits_value acc [] = acc
digits_value acc (c ∷ cs) =
    let rest = digits_value (acc * 10 + (c - b'0')) cs in
    if leb b'0' c && leb c b'9' then rest else acc

abbrev pub is_space : ℕ → Bool
is_space c = c == 32 || leb 9 c && leb c 13

abbrev negated : ℕ → ℤ
negated zero = pos 0
negated (suc n) = negsuc n

pub signed_value : List ℕ → ℤ
signed_value [] = pos 0
signed_value (c ∷ cs) =
    if c == b'-'
    then negated (digits_value 0 cs)
    else if c == b'+'
    then pos (digits_value 0 cs)
    else pos (digits_value 0 (c ∷ cs))

-- `atoi`, for values that fit an `int`.
pub atoi : List ℕ → ℤ
atoi [] = signed_value []
atoi (c ∷ cs) = let rest = atoi cs in if is_space c then rest else signed_value (c ∷ cs)

-- `parse_argument`, with `none` for the return value -1.
pub job_argument : (previous : Mask) → (arg : List ℕ) → (jid : ℤ) → M (Option ℤ)
job_argument previous arg (negsuc n) = do
  job_exists (negsuc n)
  emit (no_such_job arg)
  set_mask previous
  pure none
job_argument previous arg (pos jid) = do
  there ← if jid == 0 then pure false else job_exists (pos jid)
  (if there
      then (do pid ← job_get_pid jid; pure (some pid))
      else do emit (no_such_job arg); set_mask previous; pure none)

pub pid_argument : (previous : Mask) → (name arg : List ℕ) → M (Option ℤ)
pid_argument previous name arg =
    if int_eq (atoi arg) (pos 0)
    then (do emit (bad_argument name); set_mask previous; pure none)
    else do
      jid ← job_from_pid (atoi arg)
      (if jid == 0
          then (do emit (no_such_process arg); set_mask previous; pure none)
          else pure (some (atoi arg)))

pub parse_argument : (previous : Mask) → (name arg : List ℕ) → M (Option ℤ)
parse_argument previous name [] = pid_argument previous name []
parse_argument previous name (c ∷ cs) =
    if c == b'%'
    then job_argument previous (c ∷ cs) (atoi cs)
    else pid_argument previous name (c ∷ cs)

abbrev pub is_bg : Builtin → Bool
is_bg builtin_bg = true
is_bg _ = false

pub handle_job : (previous : Mask) → (pid : ℤ) → Builtin → M (Unit {0})
handle_job previous pid b = do
  jid ← job_from_pid pid
  job_set_state jid (if is_bg b then bg else fg)
  emit (sent_group pid sigcont)
  (if is_bg b
      then (do cmdline ← job_get_cmdline jid; emit (job_started jid pid cmdline))
      else wait_fg previous)

-- `if (pid < 0) return;`, or the rest of `handle_builtin_bg_fg`.
pub continue_target : (previous : Mask) → Builtin → Option ℤ → M (Unit {0})
continue_target previous b none = pure tt
continue_target previous b (some pid) = do handle_job previous pid b; set_mask previous

pub handle_builtin_bg_fg : Tokens → M (Unit {0})
handle_builtin_bg_fg t = elim t.argv [
  | name ∷ arg ∷ more ↦ do
    previous ← get_mask
    set_mask mask_all
    target ← parse_argument previous name arg
    continue_target previous t.builtin target
  | name ∷ [] ↦ emit (needs_argument name)
  | [] ↦ emit (needs_argument [])
]

-- When the output file cannot be opened the function returns at once.
pub handle_builtin_jobs : Answers → Tokens → M (Unit {0})
handle_builtin_jobs a t = do
  previous ← get_mask
  set_mask (with_mask_three previous)
  elim t.outfile [
    | none ↦ do list_jobs (pos 1) a.written; set_mask previous
    | some file ↦
        if is_neg a.opened
        then emit (open_error file)
        else do list_jobs a.opened a.written; set_mask previous
  ]

pub handle_parent_process :
    (pid : ℤ) → (in_fg : Bool) → (line : List ℕ) → (previous : Mask) → M (Unit {0})
handle_parent_process pid in_fg line previous = do
  (if in_fg then (do add_job pid fg (some line); wait_fg previous) else do
    add_job pid bg (some line)
    jid ← job_from_pid pid
    emit (job_started jid pid (some line)))
  set_mask previous

-- The parent's side of `handle_builtin_none`.
pub handle_builtin_none : Answers → (in_fg : Bool) → (line : List ℕ) → M (Unit {0})
handle_builtin_none a in_fg line = do
  previous ← get_mask
  set_mask (with_mask_three previous)
  handle_parent_process a.forked in_fg line previous
  set_mask previous

-- `exit(0)` runs `cleanup`.
pub quit : M (Unit {0})
quit = do destroy_job_list; (λ s. exited 0)

pub dispatch : Answers → (in_fg : Bool) → (line : List ℕ) → Tokens → Builtin → M (Unit {0})
dispatch a in_fg line t builtin_quit = quit
dispatch a in_fg line t builtin_jobs = handle_builtin_jobs a t
dispatch a in_fg line t builtin_bg = handle_builtin_bg_fg t
dispatch a in_fg line t builtin_fg = handle_builtin_bg_fg t
dispatch a in_fg line t builtin_none = handle_builtin_none a in_fg line

pub eval_parsed : Answers → (line : List ℕ) → ParseResult → M (Unit {0})
eval_parsed a line parsed_empty = pure tt
eval_parsed a line parse_error = pure tt
eval_parsed a line (parsed_fg t) = dispatch a true line t t.builtin
eval_parsed a line (parsed_bg t) = dispatch a false line t t.builtin

pub eval : Answers → (line : List ℕ) → M (Unit {0})
eval a line = eval_parsed a line (parseline (some line))

-- The commands that `main` reads, in order, with what the system answers to each.
pub run_commands : List (Answers × List ℕ) → M (Unit {0})
run_commands [] = pure tt
run_commands ((a, line) ∷ rest) = do eval a line; run_commands rest
