-- ===== src/Tsh/Jobs/Delete.antt =====
-- `delete_job` and `job_set_state` of tsh_helper.c on every branch.
use computer_systems_project.Base.{
  ℕ, suc, ◌+◌, ◌-◌, ◌<◌, ◌≤◌, ◌≡◌, refl, subst, true, false, ◌⊎◌, inl, inr, List, arith, length,
  get_or, set, ◌==◌, if◌then◌else◌, Bool-cases, ==_self, ℕ_discrete,
}
use computer_systems_project.Tsh.State.{JobState, Job, no_job, Shell, ok, aborted}
use computer_systems_project.Tsh.Jobs.{
  max_jobs, put_job, clearjob, exists_in, maxjid_loop, clear_slot, delete_job, job_set_state,
}
use computer_systems_project.Tsh.Jobs.Query.{
  IsGuarded, check_blocked-ok, get_job-ok, job_exists-ok, maxjid-ok, require_job_exists-ok,
  require_job_exists_aborts, CanBe, CanBe-defined, CanBe-first, require_valid_state-ok,
  require_valid_state_aborts,
}
use computer_systems_project.Tsh.Jobs.Inv.{
  JobsValid, exists_in-at, exists_in-set_self, exists_in-set_ne, set-JobsValid_clear,
  set-JobsValid_state,
}

-- The jobs after one was cleared, and the shell.
abbrev pub cleared : (jid : ℕ) → List Job → List Job
cleared jid jobs = set jobs (jid - 1) (clearjob (get_or jobs (jid - 1) no_job))

abbrev pub deleted : (jid : ℕ) → Shell → Shell
deleted jid s = record s {
  jobs = cleared jid s.jobs;
  next_jid = maxjid_loop max_jobs (cleared jid s.jobs) + 1;
}

abbrev pub with_state : (jid : ℕ) → JobState → Shell → Shell
with_state jid state s = record s {
  jobs = set s.jobs (jid - 1) (record (get_or s.jobs (jid - 1) no_job) { state = state });
}

module _ {s : Shell} (g : IsGuarded s) (jid : ℕ) where
  -- Deleting a job that is not there returns false and changes nothing.
  pub delete_job_missing : exists_in s.jobs jid ≡ false → delete_job jid s ≡ ok false s
  unfolding delete_job
  delete_job_missing free = rw (check_blocked-ok g, job_exists-ok g jid, free)

  -- A job in use is cleared, and `nextjid` becomes one past the greatest number still in use.
  pub delete_job-ok :
      length s.jobs ≡ max_jobs
      → exists_in s.jobs jid ≡ true
      → delete_job jid s ≡ ok true (deleted jid s)
  unfolding delete_job clear_slot put_job
  delete_job-ok size used =
      let range = exists_in-at s.jobs jid size used in
      rw (check_blocked-ok g, job_exists-ok g jid, used, get_job-ok jid range.0 range.1)
        (rw (maxjid-ok after) refl)
    where
      after : IsGuarded (record s { jobs = cleared jid s.jobs })
      after = record { init = g.init; blocked = g.blocked }

  pub deleted-JobsValid :
      JobsValid s.jobs s.next_jid → JobsValid (deleted jid s).jobs (deleted jid s).next_jid
  unfolding clearjob
  deleted-JobsValid valid =
      let e : suc (maxjid_loop max_jobs (cleared jid s.jobs)) ≡ (deleted jid s).next_jid =
        omega arith in
      subst (JobsValid (cleared jid s.jobs)) e
        (set-JobsValid_clear (jid - 1) (clearjob (get_or s.jobs (jid - 1) no_job)) valid refl refl)

  -- The job is gone; every other job number keeps its use.
  pub exists_in-deleted :
      length s.jobs ≡ max_jobs
      → exists_in s.jobs jid ≡ true
      → (k : ℕ)
      → exists_in (deleted jid s).jobs k ≡ (if jid == k then false else exists_in s.jobs k)
  unfolding clearjob
  exists_in-deleted size used k = elim (ℕ_discrete jid k) [
    | yes same ↦
        subst
          (λ n. exists_in (cleared jid s.jobs) n ≡ (if jid == n then false else exists_in s.jobs n))
          same (rw (==_self jid) gone)
    | no other ↦
        ground (arith, exists_in-set_ne s.jobs (jid - 1) none_left k (omega (arith, range.0)))
  ]
    where
      range : (0 < jid) × (jid ≤ max_jobs)
      range = let r = exists_in-at s.jobs jid size used in (r.0, r.1)

      none_left : Job
      none_left = clearjob (get_or s.jobs (jid - 1) no_job)

      named : suc (jid - 1) ≡ jid
      named = omega (arith, range.0)

      gone : exists_in (cleared jid s.jobs) jid ≡ false
      gone =
          subst (λ n. exists_in (cleared jid s.jobs) n ≡ false) named
            (exists_in-set_self s.jobs (jid - 1) none_left (omega (arith, size, range.0, range.1))
              (omega (arith, range.0, range.1)))

  pub job_set_state-ok :
      (state : JobState)
      → length s.jobs ≡ max_jobs
      → exists_in s.jobs jid ≡ true
      → CanBe g state
      → job_set_state jid state s ≡ ok tt (with_state jid state s)
  unfolding job_set_state put_job
  job_set_state-ok state size used can =
      let range = exists_in-at s.jobs jid size used in
      rw (
        check_blocked-ok g,
        require_job_exists-ok g jid used,
        require_valid_state-ok g state can,
        get_job-ok jid range.0 range.1,
      )

  -- With the signals blocked `job_set_state` aborts the shell if the number is not in use, and if the
  -- state is UNDEF or would make a second foreground job.
  pub job_set_state_aborts :
      (state : JobState)
      → (exists_in s.jobs jid ≡ false) ⊎ (¬ CanBe g state)
      → job_set_state jid state s ≡ aborted
  unfolding job_set_state
  job_set_state_aborts state (inl free) =
      rw (check_blocked-ok g, require_job_exists_aborts g jid free)
  job_set_state_aborts state (inr cannot) = elim (Bool-cases (exists_in s.jobs jid)) [
    | inl used ↦ rw (
      check_blocked-ok g,
      require_job_exists-ok g jid used,
      require_valid_state_aborts g state cannot,
    )
    | inr free ↦ rw (check_blocked-ok g, require_job_exists_aborts g jid free)
  ]

  pub with_state-JobsValid :
      (state : JobState)
      → JobsValid s.jobs s.next_jid
      → exists_in s.jobs jid ≡ true
      → CanBe g state
      → JobsValid (with_state jid state s).jobs s.next_jid
  with_state-JobsValid state valid used can =
      let r = exists_in-at s.jobs jid valid.size used in
      let named : jid ≡ suc (jid - 1) = omega (arith, r.0) in
      let used' : exists_in s.jobs (suc (jid - 1)) ≡ true =
        subst (λ n. exists_in s.jobs n ≡ true) named used in
      set-JobsValid_state (jid - 1) (get_or s.jobs (jid - 1) no_job) _ valid used' r.2 refl refl
        (CanBe-defined g state can) (CanBe-first g state can)
