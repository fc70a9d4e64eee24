-- ===== src/Tsh/Shell/Wait.antt =====
-- `while (fg_job()) sigsuspend(&previous);`
use computer_systems_project.Base.{ℕ, ◌≡◌, ◌≢◌, false, true, ◌==◌, List, [], ◌∷◌, arith, ℕ_discrete}
use computer_systems_project.Base.Int.{ℤ}
use computer_systems_project.Tsh.State.{Mask, Delivery, Shell, blocks_three}
use computer_systems_project.Tsh.Jobs.{find_fg}
use computer_systems_project.Tsh.Jobs.Query.{fg_job-ok}
use computer_systems_project.Tsh.Shell.{suspend, deliver, set_mask, wait_loop}
use computer_systems_project.Tsh.Shell.Ends.{
  Ends, Ends-bind, Runs, Runs-guarded, Runs-weaken, Runs-mask, Runs-restored,
}
use computer_systems_project.Tsh.Shell.Handlers.{DeliveryFits, KnownThen, deliver-Runs}

-- Every report of a stopped child is about a process that has a job by then.
abbrev pub DeliveriesFit : (ℤ → Type 0) → List Delivery → Type 0
DeliveriesFit Known [] = Unit
DeliveriesFit Known (d ∷ ds) = DeliveryFits Known d × DeliveriesFit (KnownThen Known d) ds

abbrev pub Nobody : ℤ → Type 0
Nobody pid = ⊥

-- The invariant where no job is in the foreground.
abbrev pub Ready : Mask → Shell → Type 0
Ready m s = Runs Nobody m s × (find_fg s.jobs ≡ 0)

pub suspend-Runs :
    {Known : ℤ → Type 0} {m : Mask} (previous : Mask) (s : Shell) (d : Delivery)
    → Runs Known m s
    → DeliveryFits Known d
    → Ends (λ _ s'. Runs (KnownThen Known d) m s') (suspend previous d s)
unfolding suspend
suspend-Runs previous s d r fits =
    Ends-bind _ (deliver d (record s { mask = previous })) (λ _. set_mask s.mask)
      (deliver-Runs (record s { mask = previous }) d (Runs-mask s previous r) fits)
      (λ u s' r'. Runs-restored r r')

pub is_zero_false : {n : ℕ} → n ≢ 0 → (n == 0) ≡ false
is_zero_false h = ground arith

Runs-deliveries :
    {Known : ℤ → Type 0} {m : Mask} (s : Shell) (ds : List Delivery)
    → Runs Known m s
    → Runs Known m (record s { deliveries = ds })
Runs-deliveries s ds r = record {
  init = r.init;
  valid = r.valid;
  memory = r.memory;
  quiet = r.quiet;
  masked = r.masked;
  known = r.known;
}

pub wait_loop-Ready :
    {Known : ℤ → Type 0} {m : Mask} (previous : Mask) (s : Shell) (ds : List Delivery)
    → Runs Known m s
    → blocks_three m ≡ true
    → DeliveriesFit Known ds
    → Ends (λ _ s'. Ready m s') (wait_loop previous ds s)
unfolding wait_loop
wait_loop-Ready previous s [] r b fits = elim (ℕ_discrete (find_fg s.jobs) 0) [
  | yes none_fg ↦
      rw (fg_job-ok (Runs-guarded r b), none_fg) (Runs-weaken r (λ q k. absurd k), none_fg)
  | no there ↦ rw (fg_job-ok (Runs-guarded r b), is_zero_false there) tt
]
wait_loop-Ready previous s (d ∷ ds) r b fits = elim (ℕ_discrete (find_fg s.jobs) 0) [
  | yes none_fg ↦
      rw (fg_job-ok (Runs-guarded r b), none_fg) (Runs-weaken r (λ q k. absurd k), none_fg)
  | no there ↦
      rw (fg_job-ok (Runs-guarded r b), is_zero_false there)
        (Ends-bind _ (suspend previous d (record s { deliveries = ds }))
          (λ _. wait_loop previous ds)
          (suspend-Runs previous (record s { deliveries = ds }) d (Runs-deliveries s ds r) fits.0)
          (λ u s' r'. wait_loop-Ready previous s' ds r' b fits.1))
]
