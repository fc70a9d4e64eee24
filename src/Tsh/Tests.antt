-- ===== src/Tsh/Tests.antt =====
-- Runs of the shell at concrete inputs.
use computer_systems_project.Base.{
  ℕ, ◌≡◌, ◌≢◌, refl, subst, true, false, ◌==◌, if◌then◌else◌, none, some, List, [], ◌∷◌, ◌++◌,
  get_or, replicate, arith,
}
use computer_systems_project.Base.Int.{ℤ, pos, negsuc}
use computer_systems_project.Tsh.State.{
  JobState, fg, st, no_job, Mask, Shell, Status, stopped, signaled, exited_normally, Delivery,
  children, sigint, ok,
}
use computer_systems_project.Tsh.Jobs.{
  max_jobs, exists_in, find_from, find_pid, add_job, delete_job, job_set_state,
}
use computer_systems_project.Tsh.Jobs.Inv.{JobsValid, replicate-JobsValid}
use computer_systems_project.Tsh.Jobs.Query.{IsGuarded}
use computer_systems_project.Tsh.Jobs.Add.{stored, stored-JobsValid}
use computer_systems_project.Tsh.Contract.{
  Returns, Added, add_job-Added, delete_job-removes, job_set_state-sets,
}
use computer_systems_project.Tsh.Parse.{
  Tokens, builtin_bg, builtin_jobs, ends_in_amp, parsed_fg, parsed_bg, parse_loop, out_of_fuel,
  no_tokens, Builtin, parse_bytes, normal,
}
use computer_systems_project.Tsh.Parse.Bounds.{parse_loop_enough, GoodArgv, parse_bytes-GoodArgv}
use computer_systems_project.Tsh.Parse.RoundTrip.{
  Part, argument, output, bare, in_quotes, command_line, add_parts, PartsValid, read_back,
  ampersand, Names, parse_bytes_foreground, parse_bytes_background,
}
use computer_systems_project.Tsh.Shell.{Answers, mask_all, forward}
use computer_systems_project.Tsh.Shell.Ends.{Ends, Runs}
use computer_systems_project.Tsh.Shell.Handlers.{sent, forward-sent}

abbrev open_mask : Mask
open_mask = record { chld = false; int = false; tstp = false; rest = false }

-- The shell after `init_job_list`, with what is still to arrive.
abbrev new_shell : Mask → List Delivery → Shell
new_shell m ds = record {
  init = true;
  jobs = replicate max_jobs no_job;
  next_jid = 1;
  mask = m;
  warned = false;
  out_of_memory = false;
  deliveries = ds;
  events = [];
}

abbrev guarded : (ds : List Delivery) → IsGuarded (new_shell mask_all ds)
guarded ds = record { init = refl; blocked = refl }

-- One job in the given state, with the process id 7.
abbrev one_job : Mask → JobState → List Delivery → Shell
one_job m state ds = stored (pos 7) state (b'a' ∷ []) (new_shell m ds)

abbrev guarded_one : (state : JobState) (ds : List Delivery) → IsGuarded (one_job mask_all state ds)
guarded_one state ds = record { init = refl; blocked = refl }

one_valid_st : JobsValid (one_job mask_all st []).jobs 2
one_valid_st =
    stored-JobsValid (guarded []) (pos 7) st (b'a' ∷ []) replicate-JobsValid tt refl (omega arith)

one_valid_fg : JobsValid (one_job mask_all fg []).jobs 2
unfolding find_from
one_valid_fg =
    stored-JobsValid (guarded []) (pos 7) fg (b'a' ∷ []) replicate-JobsValid refl refl (omega arith)

abbrev Seven : ℤ → Type 0
Seven q = q ≡ pos 7

add_job-Added_example :
    Returns
      (λ jid s'. Added (pos 9) (one_job mask_all st []) jid s')
      (add_job (pos 9) fg (some (b'b' ∷ [])) (one_job mask_all st []))
unfolding find_from
add_job-Added_example =
    add_job-Added (guarded_one st []) (pos 9) fg (b'b' ∷ []) one_valid_st refl refl refl refl

delete_job-removes_example :
    Returns
      (λ there s'.
        (there ≡ exists_in (one_job mask_all st []).jobs 1)
        × JobsValid s'.jobs s'.next_jid
        × ((k : ℕ)
            → exists_in s'.jobs k
              ≡ (if 1 == k then false else exists_in (one_job mask_all st []).jobs k)))
      (delete_job 1 (one_job mask_all st []))
delete_job-removes_example = delete_job-removes (guarded_one st []) 1 one_valid_st

job_set_state-sets_example :
    Returns
      (λ u s'.
        JobsValid s'.jobs s'.next_jid
        × (get_or s'.jobs 0 no_job
            ≡ record (get_or (one_job mask_all st []).jobs 0 no_job) { state = fg })
        × ((i : ℕ)
            → i ≢ 0
            → get_or s'.jobs i no_job ≡ get_or (one_job mask_all st []).jobs i no_job))
      (job_set_state 1 fg (one_job mask_all st []))
unfolding find_from exists_in
job_set_state-sets_example = job_set_state-sets (guarded_one st []) 1 fg one_valid_st refl refl

Runs-fg : (m : Mask) (ds : List Delivery) → Runs Seven m (one_job m fg ds)
unfolding find_from
Runs-fg m ds = record {
  init = refl;
  valid = one_valid_fg;
  memory = refl;
  quiet = refl;
  masked = refl;
  known = λ q e gone.
      let found : find_pid (pos 7) (one_job m fg ds).jobs ≡ 1 = refl in
      let lost : find_pid (pos 7) (one_job m fg ds).jobs ≡ 0 =
        subst (λ p. find_pid p (one_job m fg ds).jobs ≡ 0) e gone in
      omega (arith, found, lost);
}

-- `a` runs in the foreground and exits.
abbrev exits : List Delivery
exits = children ((pos 7, exited_normally 0) ∷ []) ∷ []

abbrev stops : List (ℤ × Status)
stops = (pos 7, stopped 20) ∷ (pos 7, signaled 9) ∷ []

abbrev answers : Answers
answers = record { forked = pos 7; opened = negsuc 0; written = 64 }

forward-sent_example :
    let s = one_job open_mask fg [] in
    forward sigint s ≡ ok tt (record s { events = sent sigint s })
forward-sent_example = forward-sent (one_job open_mask fg []) sigint (Runs-fg open_mask [])

abbrev bg_seven : Tokens
bg_seven = record {
  argv = (b'f' ∷ b'g' ∷ []) ∷ (b'7' ∷ []) ∷ [];
  infile = none;
  outfile = none;
  builtin = builtin_bg;
}

abbrev jobs_into : Tokens
jobs_into = record {
  argv = (b'j' ∷ []) ∷ [];
  infile = none;
  outfile = some (b'/' ∷ []);
  builtin = builtin_jobs;
}

-- `a b` and then `&`.
abbrev parts : List Part
parts = argument (bare b'a' []) ∷ output (bare b'o' []) ∷ argument (in_quotes b'"' (b' ' ∷ [])) ∷ []

abbrev line_of_parts : List ℕ
line_of_parts = b'a' ∷ b' ' ∷ b'>' ∷ b'o' ∷ b' ' ∷ b'"' ∷ b' ' ∷ b'"' ∷ []

parse_loop_enough_example : parse_loop 9 line_of_parts normal no_tokens ≢ out_of_fuel
parse_loop_enough_example = parse_loop_enough line_of_parts

parse_bytes-GoodArgv_example : GoodArgv (parse_bytes line_of_parts)
parse_bytes-GoodArgv_example = parse_bytes-GoodArgv line_of_parts

parse_bytes_foreground_example :
    (b : Builtin) × Names (b'a' ∷ []) b
    × (parse_bytes (command_line parts) ≡ parsed_fg (record (read_back parts) { builtin = b }))
unfolding command_line add_parts PartsValid ends_in_amp
parse_bytes_foreground_example =
    parse_bytes_foreground parts (b'a' ∷ []) ((b' ' ∷ []) ∷ [])
      (((refl, tt), omega arith), (((refl, tt), refl), (((refl, (refl, tt)), omega arith), tt)))
      (omega arith) refl refl

parse_bytes_background_example :
    (b : Builtin) × Names (b'a' ∷ []) b
    × (parse_bytes (command_line (parts ++ (ampersand ∷ [])))
        ≡ parsed_bg (record (read_back parts) { builtin = b }))
unfolding command_line add_parts PartsValid
parse_bytes_background_example =
    parse_bytes_background parts (b'a' ∷ []) ((b' ' ∷ []) ∷ [])
      (
        ((refl, tt), omega arith),
        (((refl, tt), refl), (((refl, (refl, tt)), omega arith), (((refl, tt), omega arith), tt))),
      )
      (omega arith) refl
