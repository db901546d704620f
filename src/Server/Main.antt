-- ===== src/Server/Main.antt =====
-- Server/src/main.cpp: what the program does with its options. Their parsing is a library's; what
-- `fork` and `setsid` come to is a parameter.
use reminder_suite.Prelude.{ℕ, Bool, true, false, ◌||◌, ◌==◌, [], Option, none, some, if◌then◌else◌}
use reminder_suite.Prelude.Fault.{Fault, undefined, out_of_range, Result, ok, err}
use reminder_suite.Text.{Bytes, equal}
use reminder_suite.Server.{Server, Started, running, thrown, faulted}

pub record Options : Type 0 where
  pub help : Bool
  pub port : ℕ
  pub dp_type : Bytes
  pub data_path : Bytes
  pub is_debug : Bool

pub data Fork : Type 0 where
  fork_failed parent child : Fork

-- How the life of the server ended: the loop had no more to do, an exception was caught, or
-- behaviour is undefined.
pub data Outcome : Type 0 where
  left caught broken : Outcome

abbrev pub fault_outcome : Fault → Outcome
fault_outcome undefined = broken
fault_outcome out_of_range = caught

-- The `try` around the server and its `run`.
unfoldable pub serve {ℓ} :
    {S : Type 0} {A : Type ℓ} → (Server S → Result A) → Started (Server S) → Outcome
serve run (thrown what) = caught
serve run (faulted fault) = fault_outcome fault
serve run (running server) = elim (run server) [ ok x ↦ left | err fault ↦ fault_outcome fault ]

-- The exit status, and the outcome of the server if there was one.
abbrev pub as_daemon : Fork → Bool → Outcome → ℕ × Option Outcome
as_daemon fork_failed has_session outcome = (1, none)
as_daemon parent has_session outcome = (0, none)
as_daemon child false outcome = (1, none)
as_daemon child true outcome = (0, some outcome)

unfoldable pub main : Options → Fork → Bool → Outcome → ℕ × Option Outcome
main options fork has_session outcome =
    if options.help
    then (0, none)
    else if options.port == 0 || equal options.dp_type [] || equal options.data_path []
    then (0, none)
    else if options.is_debug
    then (0, some outcome)
    else as_daemon fork has_session outcome
