-- ===== src/Tsh/Shell/Eval.antt =====
-- The commands that are built in, and `eval` of tsh.c.
use computer_systems_project.Base.{
  ℕ, ◌≢◌, ◌≡◌, Bool, true, false, if◌then◌else◌, Option, none, some, List,
}
use computer_systems_project.Base.Int.{ℤ, is_neg}
use computer_systems_project.Tsh.State.{Job, Mask, Shell}
use computer_systems_project.Tsh.Jobs.{find_fg, find_pid}
use computer_systems_project.Tsh.Parse.{
  Builtin, builtin_none, builtin_jobs, ParseResult, parsed_fg, parsed_bg, parsed_empty, parse_error,
}
use computer_systems_project.Tsh.Shell.{Answers, with_mask_three}
use computer_systems_project.Tsh.Shell.Ends.{Ends, Runs}
use computer_systems_project.Tsh.Shell.Wait.{Ready}
use computer_systems_project.Tsh.Shell.Command.{HasJob, HasJobOr}

-- What `parse_argument` leaves behind: the id of a process with a job and the mask untouched, or the
-- old mask.
abbrev Target : (ℤ → Type 0) → (previous c : Mask) → Shell → Option ℤ → Shell → Type 0
Target Known previous c s none s' = Ready previous s'
Target Known previous c s (some pid) s' =
    Runs Known c s'
    × (find_fg s'.jobs ≡ 0)
    × (find_pid pid s'.jobs ≢ 0)
    × (s'.deliveries ≡ s.deliveries)

-- The mask after `jobs`: where the output file cannot be opened, three signals stay blocked.
abbrev pub mask_after_jobs : Answers → Option (List ℕ) → Mask → Mask
mask_after_jobs a none m = m
mask_after_jobs a (some file) m = if is_neg a.opened then with_mask_three m else m

abbrev pub is_external : Builtin → Bool
is_external builtin_none = true
is_external _ = false

abbrev pub lists_jobs : Builtin → Bool
lists_jobs builtin_jobs = true
lists_jobs _ = false

-- A command line that starts a program.
abbrev pub runs_program : ParseResult → Bool
runs_program parsed_empty = false
runs_program parse_error = false
runs_program (parsed_fg t) = is_external t.builtin
runs_program (parsed_bg t) = is_external t.builtin

-- The processes of which a stop can be reported: those with a job, and a new child.
abbrev pub Expected : Bool → ℤ → List Job → ℤ → Type 0
Expected true pid jobs = HasJobOr pid jobs
Expected false pid jobs = HasJob jobs

abbrev pub mask_after : Answers → ParseResult → Mask → Mask
mask_after a parsed_empty m = m
mask_after a parse_error m = m
mask_after a (parsed_fg t) m = if lists_jobs t.builtin then mask_after_jobs a t.outfile m else m
mask_after a (parsed_bg t) m = if lists_jobs t.builtin then mask_after_jobs a t.outfile m else m
