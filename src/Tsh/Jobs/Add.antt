-- ===== src/Tsh/Jobs/Add.antt =====
-- `add_job` of tsh_helper.c: the two outcomes of a call with valid arguments.
use computer_systems_project.Base.{
  ℕ, suc, ◌+◌, ◌-◌, ◌<◌, ◌≤◌, ◌≡◌, ◌∙◌, subst, Bool, true, false, not, ◌&&◌, some, List, arith,
  get_elem?, get_or, set, ltb, get_elem?-set_self,
}
use computer_systems_project.Base.Int.{ℤ, is_pos, int_eq, int_eq_self}
use computer_systems_project.Tsh.State.{JobState, Job, no_job, Shell, ok}
use computer_systems_project.Tsh.Jobs.{
  max_jobs, is_undef, put_job, exists_in, find_pid, check_new_job, store_job, add_job,
}
use computer_systems_project.Tsh.Jobs.Query.{
  IsGuarded, check_blocked-ok, get_job-ok, CanBe, CanBe-defined, CanBe-first,
  require_valid_state-ok,
}
use computer_systems_project.Tsh.Jobs.Table.{find_from-eq-zero, find_from_unique}
use computer_systems_project.Tsh.Jobs.Inv.{
  JobsValid, this, that, written, next-free, set-JobsValid_new,
}

abbrev pub new_job : (jid : ℕ) (pid : ℤ) → JobState → List ℕ → Job
new_job jid pid state cmdline = record {
  pid = pid;
  jid = jid;
  state = state;
  cmdline = some cmdline;
}

-- The shell after a job was stored under the number that `nextjid` has.
abbrev pub stored : (pid : ℤ) → JobState → List ℕ → Shell → Shell
stored pid state cmdline s = record s {
  jobs = set s.jobs (s.next_jid - 1) (new_job s.next_jid pid state cmdline);
  next_jid = s.next_jid + 1;
}

module _ {s : Shell} (g : IsGuarded s) (pid : ℤ) (state : JobState) (cmdline : List ℕ) where
  check_new_job-ok :
      CanBe g state → is_pos pid ≡ true → check_new_job pid state (some cmdline) s ≡ ok tt s
  unfolding check_new_job
  check_new_job-ok can positive = rw (require_valid_state-ok g state can, positive)

  -- With a full list `add_job` returns 0 and changes nothing.
  pub add_job_full :
      CanBe g state
      → is_pos pid ≡ true
      → max_jobs < s.next_jid
      → add_job pid state (some cmdline) s ≡ ok 0 s
  unfolding add_job
  add_job_full can positive full =
      rw (check_blocked-ok g, check_new_job-ok can positive, ltb_true full)
    where
      ltb_true : max_jobs < s.next_jid → ltb max_jobs s.next_jid ≡ true
      ltb_true h = ground arith

  pub slot_free :
      JobsValid s.jobs s.next_jid
      → s.next_jid ≤ max_jobs
      → is_undef (get_or s.jobs (s.next_jid - 1) no_job).state ≡ true
  unfolding exists_in
  slot_free valid small =
      let e : s.next_jid ≡ suc (s.next_jid - 1) = omega (arith, valid.next) in
      let free = next-free (s.next_jid - 1) valid e (omega (arith, valid.next)) in
      let e' : suc (s.next_jid - 1) - 1 ≡ s.next_jid - 1 = omega arith in ground arith

  store_job-ok :
      JobsValid s.jobs s.next_jid
      → s.next_jid ≤ max_jobs
      → s.out_of_memory ≡ false
      → store_job s.next_jid pid state (some cmdline) s ≡ ok s.next_jid (stored pid state cmdline s)
  unfolding store_job put_job
  store_job-ok valid small memory =
      rw (get_job-ok s.next_jid (omega (arith, valid.next)) small, slot_free valid small, memory)

  -- Otherwise the job is stored in the slot of `nextjid`, which is free, and its number is returned.
  pub add_job-ok :
      JobsValid s.jobs s.next_jid
      → CanBe g state
      → is_pos pid ≡ true
      → s.next_jid ≤ max_jobs
      → s.out_of_memory ≡ false
      → add_job pid state (some cmdline) s ≡ ok s.next_jid (stored pid state cmdline s)
  unfolding add_job
  add_job-ok valid can positive small memory =
      rw (check_blocked-ok g, check_new_job-ok can positive, ltb_false small)
        (store_job-ok valid small memory)
    where
      ltb_false : s.next_jid ≤ max_jobs → ltb max_jobs s.next_jid ≡ false
      ltb_false h = ground arith

  pub stored-JobsValid :
      JobsValid s.jobs s.next_jid
      → CanBe g state
      → is_pos pid ≡ true
      → s.next_jid ≤ max_jobs
      → JobsValid (stored pid state cmdline s).jobs (stored pid state cmdline s).next_jid
  stored-JobsValid valid can positive small =
      let e : s.next_jid ≡ suc (s.next_jid - 1) = omega (arith, valid.next) in
      let e' : suc s.next_jid ≡ s.next_jid + 1 = omega arith in
      subst (JobsValid (stored pid state cmdline s).jobs) e' (
        set-JobsValid_new (s.next_jid - 1) (new_job s.next_jid pid state cmdline) valid e
          (omega (arith, valid.next)) e positive (CanBe-defined g state can)
          (CanBe-first g state can))

  -- The new job is found by its process id, if no other job has it.
  pub job_from_pid-stored :
      JobsValid s.jobs s.next_jid
      → CanBe g state
      → is_pos pid ≡ true
      → s.next_jid ≤ max_jobs
      → find_pid pid s.jobs ≡ 0
      → find_pid pid (stored pid state cmdline s).jobs ≡ s.next_jid
  job_from_pid-stored valid can positive small fresh =
      find_from_unique has_pid jobs slot job
        (get_elem?-set_self s.jobs slot job (omega (arith, valid.next, valid.size)))
        (ground (arith, CanBe-defined g state can, int_eq_self pid)) only
      ∙ omega (arith, valid.next)
    where
      slot : ℕ
      slot = s.next_jid - 1

      job : Job
      job = new_job s.next_jid pid state cmdline

      jobs : List Job
      jobs = set s.jobs slot job

      has_pid : Job → Bool
      has_pid j = not (is_undef j.state) && int_eq j.pid pid

      only : (k : ℕ) (x : Job) → get_elem? jobs k ≡ some x → has_pid x ≡ true → k ≡ slot
      only k x at h = elim (written s.jobs slot job k x at) [
        | this here new ↦ here
        | that away old ↦ absurd (let e = find_from-eq-zero has_pid s.jobs fresh k x old in cc)
      ]
