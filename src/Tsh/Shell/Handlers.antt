-- ===== src/Tsh/Shell/Handlers.antt =====
-- The signal handlers of tsh.c keep the invariant and restore the mask.
use computer_systems_project.Base.{
  ℕ, ◌-◌, ◌≡◌, ◌≢◌, refl, sym, ap, ◌∙◌, Bool, true, false, not, ◌&&◌, ◌==◌, ◌⊎◌, inl, inr, some,
  List, [], ◌∷◌, arith, length, get_or, ltb, if◌then◌else◌, Bool-cases, ℕ_discrete,
}
use computer_systems_project.Base.Int.{ℤ, is_pos, int_eq, int_eq→eq}
use computer_systems_project.Tsh.State.{
  JobState, st, Job, no_job, Mask, Signal, sigint, sigtstp, Status, stopped, signaled, Event,
  sent_group, exited_normally, Delivery, children, ctrl_c, ctrl_z, job_terminated, pure, Shell, ok,
  blocks_three,
}
use computer_systems_project.Tsh.Jobs.{
  max_jobs, is_undef, exists_in, find_fg, find_pid, job_from_pid, delete_job,
}
use computer_systems_project.Tsh.Jobs.Table.{find_from-set}
use computer_systems_project.Tsh.Jobs.Inv.{exists_in-at, exists_in-zero}
use computer_systems_project.Tsh.Jobs.Query.{IsGuarded, job_from_pid-ok, fg_job-ok, job_get_pid-ok}
use computer_systems_project.Tsh.Jobs.Delete.{
  deleted, with_state, delete_job-ok, delete_job_missing, deleted-JobsValid, job_set_state-ok,
  with_state-JobsValid,
}
use computer_systems_project.Tsh.Shell.{
  mask_all, set_mask, reap, reap_all, sigchld_handler, forward, deliver,
}
use computer_systems_project.Tsh.Shell.Ends.{
  Ends, Ends-bind, Runs, Runs-guarded, Runs-weaken, Runs-emit, Runs-mask, Runs-restored, PidJob,
  find_pid-PidJob, find_fg-used,
}

-- The processes that still have a job after a report.
abbrev pub KnownAfter : (ℤ → Type 0) → ℤ → Status → ℤ → Type 0
KnownAfter Known pid (stopped _) = Known
KnownAfter Known pid (signaled _) = λ q. Known q × (q ≢ pid)
KnownAfter Known pid (exited_normally _) = λ q. Known q × (q ≢ pid)

-- A report that a child stopped is about a process that has a job.
abbrev pub ReportFits : (ℤ → Type 0) → ℤ → Status → Type 0
ReportFits Known pid (stopped _) = Known pid
ReportFits Known pid (signaled _) = Unit
ReportFits Known pid (exited_normally _) = Unit

abbrev pub ReportsFit : (ℤ → Type 0) → List (ℤ × Status) → Type 0
ReportsFit Known [] = Unit
ReportsFit Known ((pid, status) ∷ rest) =
    ReportFits Known pid status × ReportsFit (KnownAfter Known pid status) rest

abbrev pub KnownAfterAll : (ℤ → Type 0) → List (ℤ × Status) → ℤ → Type 0
KnownAfterAll Known [] = Known
KnownAfterAll Known ((pid, status) ∷ rest) = KnownAfterAll (KnownAfter Known pid status) rest

pub find_pid-with_state :
    (s : Shell) (jid : ℕ) (state : JobState) (q : ℤ)
    → length s.jobs ≡ max_jobs
    → exists_in s.jobs jid ≡ true
    → is_undef state ≡ false
    → find_pid q s.jobs ≢ 0
    → find_pid q (with_state jid state s).jobs ≢ 0
find_pid-with_state s jid state q size used defined =
    find_from-set (λ j. not (is_undef j.state) && int_eq j.pid q) s.jobs (jid - 1) _
      (λ old at h.
        let r = exists_in-at s.jobs jid size used in
        let same : some (get_or s.jobs (jid - 1) no_job) ≡ some old = sym r.2 ∙ at in
        let e : get_or s.jobs (jid - 1) no_job ≡ old = cc in rw (e, defined) (ground (arith, h)))

find_pid-deleted :
    (s : Shell) (jid : ℕ) (q : ℤ)
    → length s.jobs ≡ max_jobs
    → exists_in s.jobs jid ≡ true
    → (get_or s.jobs (jid - 1) no_job).pid ≢ q
    → find_pid q s.jobs ≢ 0
    → find_pid q (deleted jid s).jobs ≢ 0
find_pid-deleted s jid q size used other =
    find_from-set (λ j. not (is_undef j.state) && int_eq j.pid q) s.jobs (jid - 1) _
      (λ old at h. absurd (
        let r = exists_in-at s.jobs jid size used in
        let same : some (get_or s.jobs (jid - 1) no_job) ≡ some old = sym r.2 ∙ at in
        let e : get_or s.jobs (jid - 1) no_job ≡ old = cc in
        let h' : int_eq old.pid q ≡ true = ground (arith, h) in
        other (ap (λ (j : Job). j.pid) e ∙ int_eq→eq old.pid q h')))

module _ {Known : ℤ → Type 0} {m : Mask} {s : Shell} (r : Runs Known m s)
    (b : blocks_three m ≡ true) where
  g : IsGuarded s
  g = Runs-guarded r b

  delete-Runs :
      (jid : ℕ) (pid : ℤ)
      → (jid ≡ 0) ⊎ PidJob pid s.jobs jid
      → Ends (λ _ s'. Runs (λ q. Known q × (q ≢ pid)) m s') (delete_job jid s)
  delete-Runs jid pid (inl none_found) =
      let e : exists_in s.jobs jid ≡ false =
        ap (exists_in s.jobs) none_found ∙ exists_in-zero s.jobs in
      rw (delete_job_missing g jid e) (Runs-weaken r (λ q k. k.0))
  delete-Runs jid pid (inr p) = rw (delete_job-ok g jid r.valid.size p.used) (record {
    init = r.init;
    valid = deleted-JobsValid g jid r.valid;
    memory = r.memory;
    quiet = r.quiet;
    masked = r.masked;
    known = λ q k.
        find_pid-deleted s jid q r.valid.size p.used (λ e. k.1 (sym e ∙ p.pid_of)) (r.known q k.0);
  })

  -- The job that a report leads to, if any.
  pub job_from_pid-cases :
      (pid : ℤ) → (jid : ℕ) × (job_from_pid pid s ≡ ok jid s) × ((jid ≡ 0) ⊎ PidJob pid s.jobs jid)
  job_from_pid-cases pid = elim (Bool-cases (is_pos pid)) [
    | inr low ↦ (
      0,
      job_from_pid-ok g pid ∙ ap (λ (b : Bool). ok (if b then find_pid pid s.jobs else 0) s) low,
      inl refl,
    )
    | inl positive ↦ (
      find_pid pid s.jobs,
      job_from_pid-ok g pid
          ∙ ap (λ (b : Bool). ok (if b then find_pid pid s.jobs else 0) s) positive,
      elim (ℕ_discrete (find_pid pid s.jobs) 0) [
        | yes gone ↦ inl gone
        | no there ↦ inr (find_pid-PidJob pid r.valid there)
      ],
    )
  ]

module _ {Known : ℤ → Type 0} {m : Mask} {s : Shell} (r : Runs Known m s)
    (b : blocks_three m ≡ true) where
  job_from_pid-Known : (pid : ℤ) → Known pid → job_from_pid pid s ≡ ok (find_pid pid s.jobs) s
  job_from_pid-Known pid k =
      job_from_pid-ok (Runs-guarded r b) pid
      ∙ ap (λ (b : Bool). ok (if b then find_pid pid s.jobs else 0) s)
          (find_pid-PidJob pid r.valid (r.known pid k)).positive

  reap-Runs :
      (pid : ℤ) (status : Status)
      → ReportFits Known pid status
      → Ends (λ _ s'. Runs (KnownAfter Known pid status) m s') (reap pid status s)
  unfolding reap
  reap-Runs pid (stopped n) fits =
      let p = find_pid-PidJob pid r.valid (r.known pid fits) in
      rw
        (
          job_from_pid-Known pid fits,
          job_set_state-ok (Runs-guarded r b) (find_pid pid s.jobs) st r.valid.size p.used tt,
        )
        (record {
          init = r.init;
          valid = with_state-JobsValid (Runs-guarded r b) _ st r.valid p.used tt;
          memory = r.memory;
          quiet = r.quiet;
          masked = r.masked;
          known = λ q k. find_pid-with_state s _ st q r.valid.size p.used refl (r.known q k);
        })
  reap-Runs pid (signaled n) fits =
      let (jid, e, found) = job_from_pid-cases r b pid in
      rw e (
        Ends-bind _ (delete_job jid _) (λ _. pure tt)
          (delete-Runs (Runs-emit s (job_terminated jid pid n ∷ s.events) r) b jid pid found)
          (λ gone s' h. h))
  reap-Runs pid (exited_normally n) fits =
      let (jid, e, found) = job_from_pid-cases r b pid in
      rw e (
        Ends-bind _ (delete_job jid s) (λ _. pure tt) (delete-Runs r b jid pid found)
          (λ gone s' h. h))

pub reap_all-Runs :
    {Known : ℤ → Type 0} {m : Mask} {s : Shell} (reports : List (ℤ × Status))
    → Runs Known m s
    → blocks_three m ≡ true
    → ReportsFit Known reports
    → Ends (λ _ s'. Runs (KnownAfterAll Known reports) m s') (reap_all reports s)
unfolding reap_all
reap_all-Runs [] r b fits = r
reap_all-Runs {s = s} ((pid, status) ∷ rest) r b fits =
    Ends-bind _ (reap pid status s) (λ _. reap_all rest) (reap-Runs r b pid status fits.0)
      (λ u s' r'. reap_all-Runs rest r' b fits.1)

pub sigchld_handler-Runs :
    {Known : ℤ → Type 0} {m : Mask} (s : Shell) (reports : List (ℤ × Status))
    → Runs Known m s
    → ReportsFit Known reports
    → Ends (λ _ s'. Runs (KnownAfterAll Known reports) m s') (sigchld_handler reports s)
unfolding sigchld_handler
sigchld_handler-Runs s reports r fits =
    Ends-bind _ (reap_all reports (record s { mask = mask_all })) (λ _. set_mask s.mask)
      (reap_all-Runs reports (Runs-mask s mask_all r) refl fits) (λ u s' r'. Runs-restored r r')

-- `sigint_handler` and `sigtstp_handler`, whatever is blocked when they start: they do not abort, never
-- use the job list with its signals open, and keep the list, the mask and the processes with a job.
pub forward-Runs :
    {Known : ℤ → Type 0} {m : Mask} (s : Shell) (sig : Signal)
    → Runs Known m s
    → Ends (λ _ s'. Runs Known m s') (forward sig s)
unfolding forward
forward-Runs {Known} {m} s sig r =
    let r' = Runs-mask s mask_all r in
    let g' = Runs-guarded r' refl in
    elim (ℕ_discrete (find_fg s.jobs) 0) [
      | yes none_fg ↦ rw (fg_job-ok g', none_fg) (Runs-restored r r')
      | no there ↦
          rw
            (
              fg_job-ok g',
              ltb_true there,
              job_get_pid-ok g' (find_fg s.jobs) r.valid.size (find_fg-used r.valid there),
            )
            (Runs-restored r (Runs-emit _ _ r'))
    ]
  where
    ltb_true : {n : ℕ} → n ≢ 0 → ltb 0 n ≡ true
    ltb_true h = ground arith

-- What `forward` sends: to the group of the job in the foreground, if there is one.
abbrev pub sent : Signal → Shell → List Event
sent sig s =
    let jid = find_fg s.jobs in
    if jid == 0 then s.events else sent_group (get_or s.jobs (jid - 1) no_job).pid sig ∷ s.events

-- `sigint_handler` and `sigtstp_handler`, with a valid job list and whatever is blocked when they start,
-- return: they send their signal to the group of the job in the foreground, or nothing where there is
-- none, and change nothing else, neither the list nor the mask.
pub forward-sent :
    {Known : ℤ → Type 0} {m : Mask} (s : Shell) (sig : Signal)
    → Runs Known m s
    → forward sig s ≡ ok tt (record s { events = sent sig s })
unfolding forward
forward-sent s sig r =
    let r' = Runs-mask s mask_all r in
    let g' = Runs-guarded r' refl in
    elim (Bool-cases (find_fg s.jobs == 0)) [
      | inl none_fg ↦
          let zero_fg : find_fg s.jobs ≡ 0 = ground (arith, none_fg) in
          rw (fg_job-ok g', none_fg, zero_fg) refl
      | inr there ↦
          let some_fg : find_fg s.jobs ≢ 0 = λ e. ground (arith, there, e) in
          let above : ltb 0 (find_fg s.jobs) ≡ true = ground (arith, there) in
          rw
            (
              fg_job-ok g',
              above,
              job_get_pid-ok g' (find_fg s.jobs) r.valid.size (find_fg-used r.valid some_fg),
              there,
            )
            refl
    ]

abbrev pub DeliveryFits : (ℤ → Type 0) → Delivery → Type 0
DeliveryFits Known (children reports) = ReportsFit Known reports
DeliveryFits Known ctrl_c = Unit
DeliveryFits Known ctrl_z = Unit

abbrev pub KnownThen : (ℤ → Type 0) → Delivery → ℤ → Type 0
KnownThen Known (children reports) = KnownAfterAll Known reports
KnownThen Known ctrl_c = Known
KnownThen Known ctrl_z = Known

pub deliver-Runs :
    {Known : ℤ → Type 0} {m : Mask} (s : Shell) (d : Delivery)
    → Runs Known m s
    → DeliveryFits Known d
    → Ends (λ _ s'. Runs (KnownThen Known d) m s') (deliver d s)
unfolding deliver
deliver-Runs s (children reports) r fits = sigchld_handler-Runs s reports r fits
deliver-Runs s ctrl_c r fits = forward-Runs s sigint r
deliver-Runs s ctrl_z r fits = forward-Runs s sigtstp r
