-- ===== src/Tsh/Jobs.antt =====
-- The job list of lab6-shelllab6-qinlinj/tsh_helper.c. Verbose diagnostics are left out.
pub mod Add
pub mod Delete
pub mod Inv
pub mod Query
pub mod Table
use computer_systems_project.Base.{
  ℕ, zero, suc, ◌+◌, ◌-◌, Bool, true, false, not, ◌&&◌, ◌||◌, Option, none, some, List, [], ◌∷◌,
  map, get_or, set, replicate, ltb, ◌==◌, if◌then◌else◌, is_some, length, take,
}
use computer_systems_project.Base.Int.{ℤ, pos, negsuc, int_eq, is_pos, is_neg}
use computer_systems_project.Tsh.State.{
  JobState, undef, fg, bg, st, Job, no_job, Mask, JobLine, listing, write_error, Shell, Run, ok,
  aborted, exited, M, pure, abort, ◌>>=◌, ◌>>◌, modify_state, emit, blocks_three,
}

abbrev pub max_jobs : ℕ
max_jobs = 64

abbrev pub is_undef : JobState → Bool
is_undef undef = true
is_undef _ = false

abbrev pub is_fg : JobState → Bool
is_fg fg = true
is_fg _ = false

-- The warning of `check_blocked`; it changes nothing else.
pub check_blocked : M (Unit {0})
check_blocked =
    modify_state λ s. record s { warned = s.warned || not s.init || not (blocks_three s.mask) }

-- `&job_list[jid - 1]`, read and written.
pub get_job : (jid : ℕ) → M Job
get_job jid s =
    if ltb jid 1 || ltb max_jobs jid then aborted else ok (get_or s.jobs (jid - 1) no_job) s

pub put_job : (jid : ℕ) → Job → M (Unit {0})
put_job jid job = modify_state λ s. record s { jobs = set s.jobs (jid - 1) job }

pub clearjob : Job → Job
clearjob job = record job { pid = pos 0; jid = 0; state = undef }

pub init_job_list : M (Unit {0})
init_job_list =
    modify_state λ s. record s { init = true; jobs = replicate max_jobs no_job; next_jid = 1 }

pub destroy_job_list : M (Unit {0})
destroy_job_list =
    modify_state λ s. record s {
      jobs = map (λ j. record (clearjob j) { cmdline = none }) s.jobs;
      next_jid = 1;
    }

-- `job->state != UNDEF` at a job id in range.
unfoldable pub exists_in : List Job → ℕ → Bool
exists_in jobs jid =
    not (ltb jid 1 || ltb max_jobs jid) && not (is_undef (get_or jobs (jid - 1) no_job).state)

pub job_exists : (jid : ℤ) → M Bool
job_exists (pos jid) = do check_blocked; (λ s. ok (exists_in s.jobs jid) s)
job_exists (negsuc _) = do check_blocked; pure false

-- The loop from `jid` downwards. Its calls of `check_blocked` are those of `maxjid`.
pub maxjid_loop : (jid : ℕ) → List Job → ℕ
maxjid_loop zero jobs = 0
maxjid_loop (suc k) jobs =
    let rest = maxjid_loop k jobs in if exists_in jobs (suc k) then suc k else rest

pub maxjid : M ℕ
maxjid = do check_blocked; (λ s. ok (maxjid_loop max_jobs s.jobs) s)

-- The loop of `fg_job` and of `job_from_pid`: the id of the first job with the property, or 0.
unfoldable pub find_from : (Job → Bool) → (jid : ℕ) → List Job → ℕ
find_from p jid [] = 0
find_from p jid (j ∷ js) = let rest = find_from p (jid + 1) js in if p j then jid else rest

abbrev pub find_fg : List Job → ℕ
find_fg jobs = find_from (λ j. is_fg j.state) 1 jobs

abbrev pub find_pid : ℤ → List Job → ℕ
find_pid pid jobs = find_from (λ j. not (is_undef j.state) && int_eq j.pid pid) 1 jobs

pub fg_job : M ℕ
fg_job = do check_blocked; (λ s. ok (find_fg s.jobs) s)

pub job_from_pid : ℤ → M ℕ
job_from_pid pid = do check_blocked; (λ s. ok (if is_pos pid then find_pid pid s.jobs else 0) s)

pub require_job_exists : (jid : ℕ) → M (Unit {0})
require_job_exists jid = do there ← job_exists (pos jid); if there then pure tt else abort

pub require_valid_state : JobState → M (Unit {0})
require_valid_state undef = abort
require_valid_state fg = do other ← fg_job; if other == 0 then pure tt else abort
require_valid_state bg = pure tt
require_valid_state st = pure tt

-- The checks at the head of `add_job`.
pub check_new_job : (pid : ℤ) → JobState → Option (List ℕ) → M (Unit {0})
check_new_job pid state cmdline = do
  require_valid_state state
  if is_pos pid then pure tt else abort
  if is_some cmdline then pure tt else abort

-- The entry is written once its slot is known to be free; the assertion of the source is the abort.
pub store_job : (jid : ℕ) (pid : ℤ) → JobState → Option (List ℕ) → M ℕ
store_job jid pid state cmdline = do
  job ← get_job jid
  if is_undef job.state then pure tt else abort
  (λ s. if s.out_of_memory then exited 1 else ok tt s)
  put_job jid (record { pid = pid; jid = jid; state = state; cmdline = cmdline })
  modify_state λ s. record s { next_jid = jid + 1 }
  pure jid

-- `add_job`: 0 when the list is full.
pub add_job : (pid : ℤ) → JobState → Option (List ℕ) → M ℕ
add_job pid state cmdline = do
  check_blocked
  check_new_job pid state cmdline
  (λ s. if ltb max_jobs s.next_jid then ok 0 s else store_job s.next_jid pid state cmdline s)

pub clear_slot : (jid : ℕ) → M (Unit {0})
clear_slot jid = do
  job ← get_job jid
  put_job jid (clearjob job)
  top ← maxjid
  modify_state λ s. record s { next_jid = top + 1 }

pub delete_job : (jid : ℕ) → M Bool
delete_job jid = do
  check_blocked
  there ← job_exists (pos jid)
  if there then (do clear_slot jid; pure true) else pure false

pub job_get_state : (jid : ℕ) → M JobState
job_get_state jid = do check_blocked; require_job_exists jid; job ← get_job jid; pure job.state

pub job_set_state : (jid : ℕ) → JobState → M (Unit {0})
job_set_state jid state = do
  check_blocked
  require_job_exists jid
  require_valid_state state
  job ← get_job jid
  put_job jid (record job { state = state })

pub job_get_pid : (jid : ℕ) → M ℤ
job_get_pid jid = do check_blocked; require_job_exists jid; job ← get_job jid; pure job.pid

pub job_get_cmdline : (jid : ℕ) → M (Option (List ℕ))
job_get_cmdline jid = do check_blocked; require_job_exists jid; job ← get_job jid; pure job.cmdline

-- The lines that `list_jobs` writes if every write succeeds.
pub job_lines : List Job → List JobLine
job_lines [] = []
job_lines (j ∷ js) =
    let rest = job_lines js in
    if is_undef j.state
    then rest
    else record { jid = j.jid; pid = j.pid; state = j.state; cmdline = j.cmdline } ∷ rest

-- The loop over the lines: it ends with an error message at the first write that fails, the one
-- behind `written` lines.
pub write_lines : (output_fd : ℤ) → (written : ℕ) → List JobLine → M Bool
write_lines output_fd written lines =
    if ltb written (length lines)
    then (do
      emit (listing output_fd (take written lines))
      emit (write_error output_fd)
      pure false)
    else (do emit (listing output_fd lines); pure true)

-- `written` is the number of lines that the descriptor takes.
pub list_jobs : (output_fd : ℤ) → (written : ℕ) → M Bool
unfolding write_lines
list_jobs output_fd written = do
  check_blocked
  if is_neg output_fd then abort else pure tt
  λ s. write_lines output_fd written (job_lines s.jobs) s
