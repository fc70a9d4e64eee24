-- ===== src/Tsh/Shell/Ends.antt =====
-- What a run of the shell ends in: a rule for sequences, and the invariant between its steps.
use computer_systems_project.Base.{
  ℕ, suc, ◌-◌, ◌≡◌, ◌≢◌, refl, sym, ap, ◌∙◌, subst, Bool, true, false, not, ◌&&◌, inl, inr, List,
  arith, get_or,
}
use computer_systems_project.Base.Int.{ℤ, is_pos, int_eq, int_eq→eq, int_eq_self}
use computer_systems_project.Tsh.State.{
  JobState, undef, fg, bg, st, Job, no_job, Mask, Event, Shell, Run, ok, aborted, exited, asleep, M,
  and_then, blocks_three,
}
use computer_systems_project.Tsh.Jobs.{is_undef, is_fg, exists_in, find_fg, find_pid}
use computer_systems_project.Tsh.Jobs.Table.{find_from-cases, find_from-eq-zero}
use computer_systems_project.Tsh.Jobs.Inv.{JobsValid, exists_in-at, exists_in-of_at}
use computer_systems_project.Tsh.Jobs.Query.{IsGuarded}

-- The run does not abort; where it returns, the result has the property.
abbrev pub Ends : {A : Type 0} → (A → Shell → Type 0) → Run A → Type 0
Ends P (ok a s) = P a s
Ends P aborted = ⊥
Ends P (exited n) = n ≡ 0
Ends P asleep = Unit {0}

pub Ends-bind :
    {A B : Type 0} {P : A → Shell → Type 0} (Q : B → Shell → Type 0) (r : Run A) (k : A → M B)
    → Ends P r
    → ((a : A) (s : Shell) → P a s → Ends Q (k a s))
    → Ends Q (and_then r k)
Ends-bind Q (ok a s) k h next = next a s h
Ends-bind Q aborted k h next = h
Ends-bind Q (exited n) k h next = h
Ends-bind Q asleep k h next = h

-- The invariant between two steps, with the mask and the processes that are known to have a job.
pub record Runs (Known : ℤ → Type 0) (mask : Mask) (s : Shell) : Type 0 where
  pub init : s.init ≡ true
  pub valid : JobsValid s.jobs s.next_jid
  pub memory : s.out_of_memory ≡ false
  pub quiet : s.warned ≡ false
  pub masked : s.mask ≡ mask
  pub known : (pid : ℤ) → Known pid → find_pid pid s.jobs ≢ 0

pub Runs-guarded :
    {Known : ℤ → Type 0} {m : Mask} {s : Shell}
    → Runs Known m s
    → blocks_three m ≡ true
    → IsGuarded s
Runs-guarded r b = record { init = r.init; blocked = ap blocks_three r.masked ∙ b }

pub Runs-weaken :
    {Known Fewer : ℤ → Type 0} {m : Mask} {s : Shell}
    → Runs Known m s
    → ((pid : ℤ) → Fewer pid → Known pid)
    → Runs Fewer m s
Runs-weaken r fewer = record {
  init = r.init;
  valid = r.valid;
  memory = r.memory;
  quiet = r.quiet;
  masked = r.masked;
  known = λ pid k. r.known pid (fewer pid k);
}

pub Runs-emit :
    {Known : ℤ → Type 0} {m : Mask} (s : Shell) (events : List Event)
    → Runs Known m s
    → Runs Known m (record s { events = events })
Runs-emit s events r = record {
  init = r.init;
  valid = r.valid;
  memory = r.memory;
  quiet = r.quiet;
  masked = r.masked;
  known = r.known;
}

pub Runs-mask :
    {Known : ℤ → Type 0} {m : Mask} (s : Shell) (m' : Mask)
    → Runs Known m s
    → Runs Known m' (record s { mask = m' })
Runs-mask s m' r = record {
  init = r.init;
  valid = r.valid;
  memory = r.memory;
  quiet = r.quiet;
  masked = refl;
  known = r.known;
}

-- The old mask is put back after a run under another one.
pub Runs-restored :
    {Known Later : ℤ → Type 0} {m m' : Mask} {s s' : Shell}
    → Runs Known m s
    → Runs Later m' s'
    → Runs Later m (record s' { mask = s.mask })
Runs-restored {Later = Later} {s = s} {s' = s'} r r' =
    subst (λ n. Runs Later n (record s' { mask = s.mask })) r.masked (Runs-mask s' s.mask r')

-- What is known of the job that a process id leads to.
pub record PidJob (pid : ℤ) (jobs : List Job) (jid : ℕ) : Type 0 where
  pub used : exists_in jobs jid ≡ true
  pub pid_of : (get_or jobs (jid - 1) no_job).pid ≡ pid
  pub positive : is_pos pid ≡ true

pub find_pid-PidJob :
    {jobs : List Job} {n : ℕ} (pid : ℤ)
    → JobsValid jobs n
    → find_pid pid jobs ≢ 0
    → PidJob pid jobs (find_pid pid jobs)
find_pid-PidJob {jobs} pid valid there =
    elim (find_from-cases (λ j. not (is_undef j.state) && int_eq j.pid pid) 1 jobs) [
      | inl (e, _) ↦ absurd (there e)
      | inr f ↦
          let defined : is_undef f.job.state ≡ false = ground (arith, f.holds) in
          let same : int_eq f.job.pid pid ≡ true = ground (arith, f.holds) in
          let here = exists_in-of_at jobs f.offset f.job valid.size f.at defined in
          let named : suc f.offset ≡ find_pid pid jobs = omega (arith, f.number) in
          let index : f.offset ≡ find_pid pid jobs - 1 = omega (arith, f.number) in
          record {
            used = subst (λ n. exists_in jobs n ≡ true) named here.1;
            pid_of =
                ap (λ n. (get_or jobs n no_job).pid) (sym index)
                ∙ ap (λ (j : Job). j.pid) here.0
                ∙ int_eq→eq f.job.pid pid same;
            positive =
                ap is_pos (sym (int_eq→eq f.job.pid pid same))
                ∙ (valid.named f.offset f.job f.at defined).1;
          }
    ]

-- The converse, for a job in use.
pub find_pid-used :
    {jobs : List Job} {n : ℕ} (jid : ℕ)
    → JobsValid jobs n
    → exists_in jobs jid ≡ true
    → PidJob
        (get_or jobs (jid - 1) no_job).pid
        jobs
        (find_pid (get_or jobs (jid - 1) no_job).pid jobs)
find_pid-used {jobs} jid valid used = find_pid-PidJob pid valid (λ gone. absurd (
    let r = exists_in-at jobs jid valid.size used in
    let none_left =
      find_from-eq-zero has_pid jobs gone (jid - 1) (get_or jobs (jid - 1) no_job) r.2 in
    let same = int_eq_self pid in ground (arith, none_left, same, r.3)))
  where
    pid : ℤ
    pid = (get_or jobs (jid - 1) no_job).pid

    has_pid : Job → Bool
    has_pid j = not (is_undef j.state) && int_eq j.pid pid

-- The number that the scan for the foreground job returns is in use.
pub find_fg-used :
    {jobs : List Job} {n : ℕ}
    → JobsValid jobs n
    → find_fg jobs ≢ 0
    → exists_in jobs (find_fg jobs) ≡ true
find_fg-used {jobs} valid there = elim (find_from-cases (λ j. is_fg j.state) 1 jobs) [
  | inl (e, _) ↦ absurd (there e)
  | inr f ↦
      let here =
        exists_in-of_at jobs f.offset f.job valid.size f.at (defined f.job.state f.holds) in
      let named : suc f.offset ≡ find_fg jobs = omega (arith, f.number) in
      subst (λ n. exists_in jobs n ≡ true) named here.1
]
  where
    defined : (state : JobState) → is_fg state ≡ true → is_undef state ≡ false
    defined undef h = cc
    defined fg h = refl
    defined bg h = refl
    defined st h = refl
