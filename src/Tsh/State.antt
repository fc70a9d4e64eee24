-- ===== src/Tsh/State.antt =====
-- The state of the shell process, and the monad of the functions that use it.
use computer_systems_project.Base.{ℕ, Bool, ◌&&◌, Option, none, List}
use computer_systems_project.Base.Int.{ℤ, pos}

-- `job_state` of tsh_helper.h.
pub data JobState : Type 0 where
  undef fg bg st : JobState

-- `struct job_t` of tsh_helper.c.
pub record Job : Type 0 where
  pub pid : ℤ
  pub jid : ℕ
  pub state : JobState
  pub cmdline : Option (List ℕ)

abbrev pub no_job : Job
no_job = record { pid = pos 0; jid = 0; state = undef; cmdline = none }

-- The signals that are blocked: the three of the job list, and all others.
pub record Mask : Type 0 where
  pub chld : Bool
  pub int : Bool
  pub tstp : Bool
  pub rest : Bool

pub data Signal : Type 0 where
  sigint sigtstp sigcont : Signal

-- What `waitpid` reports of a child.
pub data Status : Type 0 where
  stopped : ℕ → Status
  signaled : ℕ → Status
  exited_normally : ℕ → Status

-- A signal that arrives while the shell sleeps; with SIGCHLD, what `waitpid` then returns in turn.
pub data Delivery : Type 0 where
  children : List (ℤ × Status) → Delivery
  ctrl_c ctrl_z : Delivery

-- A line of the job listing.
pub record JobLine : Type 0 where
  pub jid : ℕ
  pub pid : ℤ
  pub state : JobState
  pub cmdline : Option (List ℕ)

-- What the shell prints and sends.
pub data Event : Type 0 where
  sent_group : ℤ → Signal → Event
  job_stopped : ℕ → ℤ → ℕ → Event
  job_terminated : ℕ → ℤ → ℕ → Event
  job_started : ℕ → ℤ → Option (List ℕ) → Event
  listing : ℤ → List JobLine → Event
  needs_argument : List ℕ → Event
  bad_argument : List ℕ → Event
  no_such_job : List ℕ → Event
  no_such_process : List ℕ → Event
  open_error : List ℕ → Event
  write_error : ℤ → Event

pub record Shell : Type 0 where
  pub init : Bool
  pub jobs : List Job
  pub next_jid : ℕ
  pub mask : Mask
  -- `check_blocked` has printed a warning.
  pub warned : Bool
  -- `realloc` returns NULL.
  pub out_of_memory : Bool
  -- What is still to arrive, in order.
  pub deliveries : List Delivery
  -- Newest first.
  pub events : List Event

-- How a function of the shell ends: it returns, calls `abort`, exits, or sleeps for ever.
pub data Run (A : Type 0) : Type 0 where
  ok : A → Shell → Run A
  aborted : Run A
  exited : ℕ → Run A
  asleep : Run A

abbrev pub M : Type 0 → Type 0
M A = Shell → Run A

abbrev pub pure : {A : Type 0} → A → M A
pure a s = ok a s

abbrev pub abort : {A : Type 0} → M A
abort s = aborted

module _ {A B : Type 0} where
  abbrev pub and_then : Run A → (A → M B) → Run B
  and_then (ok a s) k = k a s
  and_then aborted k = aborted
  and_then (exited n) k = exited n
  and_then asleep k = asleep

  infixl 5 ◌>>=◌ ◌>>◌
  abbrev pub ◌>>=◌ : M A → (A → M B) → M B
  m >>= k = λ s. and_then (m s) k

  abbrev pub ◌>>◌ : M A → M B → M B
  m >> n = m >>= λ _. n

abbrev pub modify_state : (Shell → Shell) → M (Unit {0})
modify_state f s = ok tt (f s)

abbrev pub emit : Event → M (Unit {0})
emit e s = ok tt (record s { events = List.◌∷◌ e s.events })

-- The three signals of the job list are blocked.
abbrev pub blocks_three : Mask → Bool
blocks_three m = m.chld && m.int && m.tstp
