-- ===== src/Tsh/Contract.antt =====
-- What the operations of the job list promise, on all their branches, where its signals are blocked.
use computer_systems_project.Base.{
  ℕ, suc, ◌-◌, ◌<◌, ◌≡◌, ◌≢◌, refl, sym, ap, ◌∙◌, subst, true, false, not, inl, inr, some, List,
  arith, length, get_or, set, ◌==◌, if◌then◌else◌, Bool-cases, dec_le, ℕ_discrete, get_or-set_ne,
  get_or-set_self,
}
use computer_systems_project.Base.Int.{ℤ, is_pos}
use computer_systems_project.Tsh.State.{
  JobState, Job, no_job, Shell, Run, ok, aborted, exited, asleep,
}
use computer_systems_project.Tsh.Jobs.{
  max_jobs, is_undef, exists_in, find_pid, add_job, delete_job, job_set_state,
}
use computer_systems_project.Tsh.Jobs.Inv.{
  JobsValid, next-free, exists_in-at, exists_in-set_self, exists_in-set_ne,
}
use computer_systems_project.Tsh.Jobs.Query.{IsGuarded, CanBe, CanBe-defined}
use computer_systems_project.Tsh.Jobs.Add.{
  new_job, stored, add_job-ok, add_job_full, stored-JobsValid, job_from_pid-stored,
}
use computer_systems_project.Tsh.Jobs.Delete.{
  delete_job-ok, delete_job_missing, deleted-JobsValid, exists_in-deleted, job_set_state-ok,
  with_state-JobsValid,
}

-- The run returns, with a result that has the property.
abbrev pub Returns : {A : Type 0} → (A → Shell → Type 0) → Run A → Type 0
Returns P (ok a s) = P a s
Returns P aborted = ⊥
Returns P (exited n) = ⊥
Returns P asleep = ⊥

-- A job was added under the number returned, or the list was full.
pub data Added (pid : ℤ) (s : Shell) (jid : ℕ) (s' : Shell) : Type 0 where
  list_full : max_jobs < s.next_jid → jid ≡ 0 → s' ≡ s → Added pid s jid s'
  added :
      exists_in s.jobs jid ≡ false
      → JobsValid s'.jobs s'.next_jid
      → find_pid pid s'.jobs ≡ jid
      → ((k : ℕ) → exists_in s'.jobs k ≡ (if jid == k then true else exists_in s.jobs k))
      → Added pid s jid s'

exists_in-stored :
    (jobs : List Job) (i : ℕ) (v : Job)
    → i < length jobs
    → i < max_jobs
    → is_undef v.state ≡ false
    → (k : ℕ) → exists_in (set jobs i v) k ≡ (if suc i == k then true else exists_in jobs k)
exists_in-stored jobs i v range small defined k = elim (ℕ_discrete (suc i) k) [
  | yes same ↦
      subst (λ n. exists_in (set jobs i v) n ≡ (if suc i == n then true else exists_in jobs n)) same
        (exists_in-set_self jobs i v range small ∙ ap not defined ∙ ground arith)
  | no other ↦ exists_in-set_ne jobs i v k other ∙ ground arith
]

-- On a valid list with its signals blocked, with memory left, a command line, a process id that is
-- positive and that no job has, and a state that the job can be in, `add_job` returns 0 and changes
-- nothing if `nextjid` is above 64; otherwise it returns a number that was free, the list stays valid,
-- the process leads to this number, and every other number is in use exactly if it was.
pub add_job-Added :
    {s : Shell} (g : IsGuarded s) (pid : ℤ) (state : JobState) (cmdline : List ℕ)
    → JobsValid s.jobs s.next_jid
    → CanBe g state
    → is_pos pid ≡ true
    → find_pid pid s.jobs ≡ 0
    → s.out_of_memory ≡ false
    → Returns (λ jid s'. Added pid s jid s') (add_job pid state (some cmdline) s)
add_job-Added {s} g pid state cmdline valid can positive fresh memory =
    elim (dec_le s.next_jid max_jobs) [
      | no full ↦
          rw (add_job_full g pid state cmdline can positive (omega arith))
            (list_full (omega arith) refl refl)
      | yes room ↦
          let named : suc (s.next_jid - 1) ≡ s.next_jid = omega (arith, valid.next) in
          let used =
            exists_in-stored s.jobs (s.next_jid - 1) (new_job s.next_jid pid state cmdline)
              (omega (arith, valid.next, valid.size)) (omega (arith, valid.next))
              (CanBe-defined g state can) in
          rw (add_job-ok g pid state cmdline valid can positive room memory) (
            added
              (subst (λ n. exists_in s.jobs n ≡ false) named
                (next-free (s.next_jid - 1) valid (sym named) (omega (arith, valid.next))))
              (stored-JobsValid g pid state cmdline valid can positive room)
              (job_from_pid-stored g pid state cmdline valid can positive room fresh)
              (subst
                (λ n.
                  (k : ℕ)
                  → exists_in (stored pid state cmdline s).jobs k
                    ≡ (if n == k then true else exists_in s.jobs k))
                named used))
    ]

-- On a valid list with its signals blocked, `delete_job` returns whether the number was in use; after
-- it the list is valid, the number is free, and every other number is in use exactly if it was.
pub delete_job-removes :
    {s : Shell} (g : IsGuarded s) (jid : ℕ)
    → JobsValid s.jobs s.next_jid
    → Returns
        (λ there s'.
          (there ≡ exists_in s.jobs jid)
          × JobsValid s'.jobs s'.next_jid
          × ((k : ℕ) → exists_in s'.jobs k ≡ (if jid == k then false else exists_in s.jobs k)))
        (delete_job jid s)
delete_job-removes {s} g jid valid = elim (Bool-cases (exists_in s.jobs jid)) [
  | inl used ↦
      rw (delete_job-ok g jid valid.size used)
        (sym used, deleted-JobsValid g jid valid, exists_in-deleted g jid valid.size used)
  | inr free ↦ rw (delete_job_missing g jid free) (
    sym free,
    valid,
    λ k. elim (ℕ_discrete jid k) [
      | yes same ↦
          subst (λ n. exists_in s.jobs n ≡ (if jid == n then false else exists_in s.jobs n)) same
            (free ∙ ground arith)
      | no other ↦ ground arith
    ],
  )
]

-- On a valid list with its signals blocked, `job_set_state` for a number in use and a state that the
-- job can be in gives the job this state; the list stays valid, and no other job changes.
pub job_set_state-sets :
    {s : Shell} (g : IsGuarded s) (jid : ℕ) (state : JobState)
    → JobsValid s.jobs s.next_jid
    → exists_in s.jobs jid ≡ true
    → CanBe g state
    → Returns
        (λ u s'.
          JobsValid s'.jobs s'.next_jid
          × (get_or s'.jobs (jid - 1) no_job
              ≡ record (get_or s.jobs (jid - 1) no_job) { state = state })
          × ((i : ℕ) → i ≢ jid - 1 → get_or s'.jobs i no_job ≡ get_or s.jobs i no_job))
        (job_set_state jid state s)
job_set_state-sets {s} g jid state valid used can =
    let range = exists_in-at s.jobs jid valid.size used in
    rw (job_set_state-ok g jid state valid.size used can) (
      with_state-JobsValid g jid state valid used can,
      get_or-set_self s.jobs (jid - 1) _ no_job (omega (arith, range.0, range.1, valid.size)),
      λ i other. get_or-set_ne s.jobs _ no_job (λ same. other (sym same)),
    )
