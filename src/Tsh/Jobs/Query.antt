-- ===== src/Tsh/Jobs/Query.antt =====
-- The functions of the job list that only read it, on a shell whose signals are blocked.
use computer_systems_project.Base.{
  ℕ, ◌-◌, ◌<◌, ◌≤◌, ◌≡◌, refl, true, false, ◌&&◌, ◌⊎◌, inl, inr, none, ◌∷◌, map, arith, length,
  get_or, if◌then◌else◌, ℕ_discrete, List, not, take, ltb, Bool-cases,
}
use computer_systems_project.Base.Int.{ℤ, pos, negsuc, is_pos, is_neg}
use computer_systems_project.Tsh.State.{
  JobState, undef, fg, bg, st, no_job, listing, write_error, JobLine, Event, Shell, ok, aborted,
  blocks_three,
}
use computer_systems_project.Tsh.Jobs.{
  max_jobs, is_undef, is_fg, check_blocked, get_job, exists_in, job_exists, find_fg, find_pid,
  fg_job, job_from_pid, require_job_exists, require_valid_state, job_get_state, job_get_pid,
  job_get_cmdline, maxjid, maxjid_loop, job_lines, list_jobs, clearjob, destroy_job_list,
}
use computer_systems_project.Tsh.Jobs.Table.{NoneOf, find_from-eq-zero}
use computer_systems_project.Tsh.Jobs.Inv.{exists_in-at}

-- The job list is initialised, and its three signals are blocked.
pub record IsGuarded (s : Shell) : Type 0 where
  pub init : s.init ≡ true
  pub blocked : blocks_three s.mask ≡ true

-- A guarded call does not warn.
pub check_blocked-ok : {s : Shell} → IsGuarded s → check_blocked s ≡ ok tt s
unfolding check_blocked
check_blocked-ok {s} g = ground arith

-- Every unguarded call warns.
pub check_blocked_warns :
    (s : Shell)
    → s.init && blocks_three s.mask ≡ false
    → check_blocked s ≡ ok tt (record s { warned = true })
unfolding check_blocked
check_blocked_warns s h = ground arith

module _ {s : Shell} (g : IsGuarded s) where
  pub fg_job-ok : fg_job s ≡ ok (find_fg s.jobs) s
  unfolding fg_job
  fg_job-ok = rw (check_blocked-ok g)

  pub maxjid-ok : maxjid s ≡ ok (maxjid_loop max_jobs s.jobs) s
  unfolding maxjid
  maxjid-ok = rw (check_blocked-ok g)

  pub job_exists-ok : (jid : ℕ) → job_exists (pos jid) s ≡ ok (exists_in s.jobs jid) s
  unfolding job_exists
  job_exists-ok jid = rw (check_blocked-ok g)

  pub job_exists_negative : (n : ℕ) → job_exists (negsuc n) s ≡ ok false s
  unfolding job_exists
  job_exists_negative n = rw (check_blocked-ok g)

  pub job_from_pid-ok :
      (pid : ℤ) → job_from_pid pid s ≡ ok (if is_pos pid then find_pid pid s.jobs else 0) s
  unfolding job_from_pid
  job_from_pid-ok pid = rw (check_blocked-ok g)

  pub require_job_exists-ok :
      (jid : ℕ) → exists_in s.jobs jid ≡ true → require_job_exists jid s ≡ ok tt s
  unfolding require_job_exists
  require_job_exists-ok jid used = rw (job_exists-ok jid, used)

  pub require_job_exists_aborts :
      (jid : ℕ) → exists_in s.jobs jid ≡ false → require_job_exists jid s ≡ aborted
  unfolding require_job_exists
  require_job_exists_aborts jid free = rw (job_exists-ok jid, free)

  -- A state can be given to a job if it is not UNDEF and does not make a second foreground job.
  abbrev pub CanBe : JobState → Type 0
  CanBe undef = ⊥
  CanBe fg = find_fg s.jobs ≡ 0
  CanBe bg = Unit {0}
  CanBe st = Unit {0}

  pub require_valid_state-ok :
      (state : JobState) → CanBe state → require_valid_state state s ≡ ok tt s
  unfolding require_valid_state
  require_valid_state-ok undef can = absurd can
  require_valid_state-ok fg can = rw (fg_job-ok, can)
  require_valid_state-ok bg can = refl
  require_valid_state-ok st can = refl

  pub require_valid_state_aborts :
      (state : JobState) → ¬ CanBe state → require_valid_state state s ≡ aborted
  unfolding require_valid_state
  require_valid_state_aborts undef cannot = refl
  require_valid_state_aborts fg cannot = rw fg_job-ok (ground arith)
  require_valid_state_aborts bg cannot = absurd (cannot tt)
  require_valid_state_aborts st cannot = absurd (cannot tt)

  pub CanBe-cases : (state : JobState) → CanBe state ⊎ (¬ CanBe state)
  CanBe-cases undef = inr (λ can. can)
  CanBe-cases fg = elim (ℕ_discrete (find_fg s.jobs) 0) [ yes e ↦ inl e | no e ↦ inr e ]
  CanBe-cases bg = inl tt
  CanBe-cases st = inl tt

  pub CanBe-defined : (state : JobState) → CanBe state → is_undef state ≡ false
  CanBe-defined undef can = absurd can
  CanBe-defined fg can = refl
  CanBe-defined bg can = refl
  CanBe-defined st can = refl

  pub CanBe-first :
      (state : JobState) → CanBe state → is_fg state ≡ true → NoneOf (λ j. is_fg j.state) s.jobs
  CanBe-first undef can h = cc
  CanBe-first fg can h = find_from-eq-zero (λ j. is_fg j.state) s.jobs can
  CanBe-first bg can h = cc
  CanBe-first st can h = cc

pub get_job-ok :
    (jid : ℕ) {s : Shell}
    → 0 < jid
    → jid ≤ max_jobs
    → get_job jid s ≡ ok (get_or s.jobs (jid - 1) no_job) s
unfolding get_job
get_job-ok jid low high = ground arith

-- The getters of a job in use.
module _ {s : Shell} (g : IsGuarded s) (jid : ℕ) (size : length s.jobs ≡ max_jobs)
    (used : exists_in s.jobs jid ≡ true) where
  pub job_get_pid-ok : job_get_pid jid s ≡ ok (get_or s.jobs (jid - 1) no_job).pid s
  unfolding job_get_pid
  job_get_pid-ok =
      let r = exists_in-at s.jobs jid size used in
      rw (check_blocked-ok g, require_job_exists-ok g jid used, get_job-ok jid r.0 r.1)

  pub job_get_cmdline-ok : job_get_cmdline jid s ≡ ok (get_or s.jobs (jid - 1) no_job).cmdline s
  unfolding job_get_cmdline
  job_get_cmdline-ok =
      let r = exists_in-at s.jobs jid size used in
      rw (check_blocked-ok g, require_job_exists-ok g jid used, get_job-ok jid r.0 r.1)

  pub job_get_state-ok : job_get_state jid s ≡ ok (get_or s.jobs (jid - 1) no_job).state s
  unfolding job_get_state
  job_get_state-ok =
      let r = exists_in-at s.jobs jid size used in
      rw (check_blocked-ok g, require_job_exists-ok g jid used, get_job-ok jid r.0 r.1)

-- What is printed for the lines: all of them, or a beginning and the error message.
abbrev pub line_events : (fd : ℤ) → (written : ℕ) → List JobLine → List Event → List Event
line_events fd written lines printed =
    if ltb written (length lines)
    then write_error fd ∷ listing fd (take written lines) ∷ printed
    else listing fd lines ∷ printed

-- The listing goes to a descriptor that is open; the result is whether all lines were written.
pub list_jobs-ok :
    {s : Shell} (fd : ℤ) (written : ℕ)
    → IsGuarded s
    → is_neg fd ≡ false
    → list_jobs fd written s
      ≡ ok
          (not (ltb written (length (job_lines s.jobs))))
          (record s { events = line_events fd written (job_lines s.jobs) s.events })
unfolding list_jobs
list_jobs-ok {s} fd written g opened = elim (Bool-cases (ltb written (length (job_lines s.jobs)))) [
  | inl fails ↦ rw (check_blocked-ok g, opened, fails)
  | inr writes ↦ rw (check_blocked-ok g, opened, writes)
]

pub destroy_job_list-ok :
    (s : Shell)
    → destroy_job_list s
      ≡ ok tt (record s {
        jobs = map (λ j. record (clearjob j) { cmdline = none }) s.jobs;
        next_jid = 1;
      })
unfolding destroy_job_list
destroy_job_list-ok s = refl
