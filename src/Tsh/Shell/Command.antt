-- ===== src/Tsh/Shell/Command.antt =====
-- One command line: `eval` of tsh.c and what it calls.
use computer_systems_project.Base.{
  ℕ, ◌-◌, ◌≤◌, ◌≢◌, ◌≡◌, refl, sym, ap, ◌∙◌, subst, Bool, true, false, ◌&&◌, not, some, List, ◌⊎◌,
  inl, inr, length, get_elem?-eq-get_or, get_or, ◌<◌, arith,
}
use computer_systems_project.Base.Int.{ℤ, is_pos, int_eq}
use computer_systems_project.Tsh.State.{
  JobState, fg, bg, Job, no_job, Mask, Shell, ok, blocks_three,
}
use computer_systems_project.Tsh.Jobs.{
  max_jobs, is_undef, is_fg, find_fg, find_pid, add_job, job_from_pid,
}
use computer_systems_project.Tsh.Jobs.Table.{find_from-set, find_from-set_none}
use computer_systems_project.Tsh.Jobs.Query.{IsGuarded, CanBe, job_from_pid-ok}
use computer_systems_project.Tsh.Jobs.Add.{
  new_job, stored, add_job-ok, stored-JobsValid, job_from_pid-stored, slot_free,
}
use computer_systems_project.Tsh.Shell.{
  Answers, set_mask, wait_fg, wait_loop, handle_parent_process, handle_builtin_none,
  with_mask_three,
}
use computer_systems_project.Tsh.Shell.Ends.{
  Ends, Ends-bind, Runs, Runs-guarded, Runs-weaken, Runs-emit, Runs-mask, Runs-restored,
}
use computer_systems_project.Tsh.Shell.Wait.{DeliveriesFit, Ready, wait_loop-Ready}

-- A new child: the list has room for it, and no job has its process id.
pub record Forks (pid : ℤ) (s : Shell) : Type 0 where
  pub positive : is_pos pid ≡ true
  pub fresh : find_pid pid s.jobs ≡ 0
  pub room : s.next_jid ≤ max_jobs

-- The processes with a job, and the child.
abbrev pub HasJob : List Job → ℤ → Type 0
HasJob jobs q = find_pid q jobs ≢ 0

abbrev pub HasJobOr : ℤ → List Job → ℤ → Type 0
HasJobOr pid jobs q = HasJob jobs q ⊎ (q ≡ pid)

module _ {m : Mask} {s : Shell} (r : Runs (HasJob s.jobs) m s) (b : blocks_three m ≡ true) (pid : ℤ)
    (f : Forks pid s) (state : JobState) (can : CanBe (Runs-guarded r b) state)
    (line : List ℕ) where
  find_pid-kept : (q : ℤ) → HasJob s.jobs q → HasJob (stored pid state line s).jobs q
  find_pid-kept q there =
      find_from-set (λ j. not (is_undef j.state) && int_eq j.pid q) s.jobs (s.next_jid - 1) _
        (λ old at h. absurd (
          let free = slot_free (Runs-guarded r b) pid state line r.valid f.room in
          let range : s.next_jid - 1 < length s.jobs =
            omega (arith, r.valid.next, r.valid.size, f.room) in
          let same : some (get_or s.jobs (s.next_jid - 1) no_job) ≡ some old =
            sym (get_elem?-eq-get_or s.jobs (s.next_jid - 1) no_job range) ∙ at in
          let e : get_or s.jobs (s.next_jid - 1) no_job ≡ old = cc in
          let gone : is_undef old.state ≡ true =
            ap (λ (j : Job). is_undef j.state) (sym e) ∙ free in
          ground (arith, h, gone)))
        there

  stored-Runs : Runs (HasJobOr pid s.jobs) m (stored pid state line s)
  stored-Runs = record {
    init = r.init;
    valid = stored-JobsValid (Runs-guarded r b) pid state line r.valid can f.positive f.room;
    memory = r.memory;
    quiet = r.quiet;
    masked = r.masked;
    known = λ q k. elim k [
      | inl there ↦ find_pid-kept q there
      | inr same ↦ λ gone.
          let e =
            job_from_pid-stored (Runs-guarded r b) pid state line r.valid can f.positive f.room
              f.fresh in
          let gone' : find_pid pid (stored pid state line s).jobs ≡ 0 =
            subst (λ q. find_pid q (stored pid state line s).jobs ≡ 0) same gone in
          omega (arith, e, gone', r.valid.next)
    ];
  }

  add_job-run : add_job pid state (some line) s ≡ ok s.next_jid (stored pid state line s)
  add_job-run = add_job-ok (Runs-guarded r b) pid state line r.valid can f.positive f.room r.memory

job_from_pid-run : (pid : ℤ) {s : Shell} → IsGuarded s → (jid : ℕ) × (job_from_pid pid s ≡ ok jid s)
job_from_pid-run pid g = (_, job_from_pid-ok g pid)

-- A child in the foreground is waited for; one in the background is announced. The mask is restored.
handle_parent_process-Ready :
    (m c : Mask) (s : Shell) (pid : ℤ) (in_fg : Bool) (line : List ℕ)
    → Runs (HasJob s.jobs) c s
    → find_fg s.jobs ≡ 0
    → blocks_three c ≡ true
    → Forks pid s
    → DeliveriesFit (HasJobOr pid s.jobs) s.deliveries
    → Ends (λ _ s'. Ready m s') (handle_parent_process pid in_fg line m s)
unfolding handle_parent_process wait_fg
handle_parent_process-Ready m c s pid true line r none_fg b f fits =
    rw (add_job-run r b pid f fg none_fg line) (
      Ends-bind _ (wait_loop m s.deliveries (stored pid fg line s)) (λ _. set_mask m)
        (wait_loop-Ready m (stored pid fg line s) s.deliveries
          (stored-Runs r b pid f fg none_fg line) b fits)
        (λ u s' h. (Runs-mask s' m h.0, h.1)))
handle_parent_process-Ready m c s pid false line r none_fg b f fits =
    let r' = stored-Runs r b pid f bg tt line in
    let (jid, e) = job_from_pid-run pid (Runs-guarded r' b) in
    rw (add_job-run r b pid f bg tt line, e)
      (
        Runs-mask _ m (Runs-emit (stored pid bg line s) _ (Runs-weaken r' (λ q k. absurd k))),
        find_from-set_none (λ j. is_fg j.state) s.jobs (s.next_jid - 1)
            (new_job s.next_jid pid bg line) refl none_fg,
      )

-- A command that is not built in, at the prompt with a valid job list, with room for the child, whose
-- process id is positive and new, and with stops reported of processes with a job only:
-- `handle_builtin_none` does not abort and does not warn. It returns with no job in the foreground, a
-- valid job list and the mask as it was, or sleeps until its foreground job changes state.
pub handle_builtin_none-Ready :
    {m : Mask} (a : Answers) (s : Shell) (in_fg : Bool) (line : List ℕ)
    → Runs (HasJob s.jobs) m s
    → find_fg s.jobs ≡ 0
    → Forks a.forked s
    → DeliveriesFit (HasJobOr a.forked s.jobs) s.deliveries
    → Ends (λ _ s'. Ready m s') (handle_builtin_none a in_fg line s)
unfolding handle_builtin_none
handle_builtin_none-Ready a s in_fg line r none_fg f fits =
    let c = with_mask_three s.mask in
    Ends-bind _ (handle_parent_process a.forked in_fg line s.mask (record s { mask = c }))
      (λ _. set_mask s.mask)
      (handle_parent_process-Ready s.mask c (record s { mask = c }) a.forked in_fg line
        (Runs-mask s c r) none_fg refl
        (record { positive = f.positive; fresh = f.fresh; room = f.room }) fits)
      (λ u s' h. (Runs-restored r h.0, h.1))
