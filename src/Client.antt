-- ===== src/Client.antt =====
-- ClientLib/src/library.cpp: the client's side of one command to the data server.
--
-- The socket is a parameter: what each call does to all that lies behind it, and whether it
-- succeeds. The calls that the source makes report their errors and do not throw.
use reminder_suite.Prelude.{ℕ, Bool, true, false, List, ◌++◌, Option, none, some}
use reminder_suite.Text.{Bytes, tokens}

pub record Network (S : Type 0) : Type 0 where
  pub connect : S → S × Bool
  pub send : S → Bytes → S × Bool
  pub read_some : S → ℕ → S × Option Bytes
  pub close : S → S

-- `_streamBuf`
abbrev pub stream_size : ℕ
stream_size = 8192

module _ {S : Type 0} (net : Network S) where
  open net use {connect, send, read_some, close}

  abbrev pub answered : List Bytes → S × Option Bytes → S × Option (List Bytes)
  answered result (s, none) = (close s, none)
  answered result (s, some text) = (close s, some (result ++ tokens b'\n' text))

  abbrev pub sent : List Bytes → S × Bool → S × Option (List Bytes)
  sent result (s, false) = (close s, none)
  sent result (s, true) = answered result (read_some s stream_size)

  -- A failed `connect` leaves the socket as it is.
  abbrev pub connected : Bytes → List Bytes → S × Bool → S × Option (List Bytes)
  connected cmd result (s, false) = (s, none)
  connected cmd result (s, true) = sent result (send s cmd)

  -- `executeCmd(cmd, result)`: `result` with the lines appended, or `none` for `return false`.
  unfoldable pub execute_cmd : S → Bytes → List Bytes → S × Option (List Bytes)
  execute_cmd s cmd result = connected cmd result (connect s)
