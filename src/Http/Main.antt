-- ===== src/Http/Main.antt =====
-- HttpWrapper/src/main.cpp and config.h: what the HTTP server's program does with its options. Their
-- parsing is a library's. An option of a number that was not given leaves its variable as it was,
-- which is not initialised: to read it is undefined.
use reminder_suite.Prelude.{ℕ, Bool, true, false, ◌||◌, ◌==◌, [], Option, none, some, if◌then◌else◌}
use reminder_suite.Prelude.Fault.{Result, ok, err, undefined, out_of_range, ◌>>=◌}
use reminder_suite.Text.{Bytes, equal}
use reminder_suite.Http.Reply.Decimal.{to_decimal}
use reminder_suite.Server.Main.{Outcome, left, caught}

pub record DataProviderConf : Type 0 where
  pub port : ℕ
  pub host : Bytes

pub record Options : Type 0 where
  pub help : Bool
  pub port : Option ℕ
  pub host : Bytes
  pub docs_root : Bytes
  pub data_port : Option ℕ
  pub data_host : Bytes

abbrev pub number_of : Option ℕ → Result ℕ
number_of none = err undefined
number_of (some n) = ok n

-- The second number is read only where the first is not zero.
abbrev pub data_missing : Options → ℕ → Result Bool
data_missing options port =
    let more = number_of options.data_port >>= λ data_port. ok (
      data_port == 0
      || equal options.data_host []
      || equal options.host []
      || equal options.docs_root []) in
    if port == 0 then ok true else more

abbrev pub not_enough : Options → Result Bool
not_enough options = do port ← number_of options.port; data_missing options port

-- The `try`: whether the server could be made, and what its `run` comes to.
abbrev pub tried : Bool → Result (Unit {0}) → Result (ℕ × Option Outcome)
tried false run = ok (0, some caught)
tried true (ok u) = ok (0, some left)
tried true (err out_of_range) = ok (0, some caught)
tried true (err undefined) = err undefined

-- `listens` tells whether an acceptor could be bound to a host and a port; `run` is the server with
-- the settings of the data provider and the document root.
module _ (listens : Bytes → Bytes → Bool) (run : DataProviderConf → Bytes → Result (Unit {0})) where
  abbrev pub configured : Options → Bool → Result (ℕ × Option Outcome)
  configured options true = ok (0, none)
  configured options false = do
    port ← number_of options.port
    data_port ← number_of options.data_port
    tried (listens options.host (to_decimal port))
        (run (record { port = data_port; host = options.data_host }) options.docs_root)

  -- The exit status, and the outcome of the server if there was one.
  unfoldable pub main : Options → Result (ℕ × Option Outcome)
  main options =
      let checked = not_enough options >>= configured options in
      if options.help then ok (0, none) else checked
