-- ===== src/Server.antt =====
-- Server/src/server.cpp: the data server, from its start to the requests of all its clients.
--
-- The system is a parameter: the path of the running program as `readlink` gives it, empty where it
-- fails, which paths `stat` finds, and what `dlopen` and `dlsym` give for a path.
pub mod Interleaving
pub mod Start
pub mod Main
mod Tests
use reminder_suite.Prelude.{
  ℕ, Bool, true, false, List, [], ◌∷◌, ◌++◌, Option, none, some, take, set, get_elem?,
  if◌then◌else◌,
}
use reminder_suite.Prelude.Fault.{Fault, undefined, out_of_range, Result, ok, err, ◌>>=◌}
use reminder_suite.Text.{Bytes, bytes, equal, c_str}
use reminder_suite.Provider.{DbLibrary}
use reminder_suite.Session.{parse_request}
use reminder_suite.Http.Handler.{find_last}

-- A loaded library: its functions `create` and `destroy`, where it has them, and what the objects
-- that `create` makes can do.
pub record Library (S : Type 0) : Type 0 where
  pub create : Option (Bytes → Option S)
  pub has_destroy : Bool
  pub operations : DbLibrary S

pub record System (S : Type 0) : Type 0 where
  pub exe_path : Bytes
  pub exists : Bytes → Bool
  pub load : Bytes → Option (Library S)
  pub reason : Bytes

-- What the constructor comes to: the object, a `runtime_error`, or a fault.
pub data Started {ℓ} (A : Type ℓ) : Type ℓ where
  running : A → Started A
  thrown : Bytes → Started A
  faulted : Fault → Started A

abbrev pub library_name : Bytes → Option Bytes
library_name kind =
    if equal kind (bytes "file")
    then some (bytes "libTextFileProvider.so")
    else if equal kind (bytes "sqlite")
    then some (bytes "libDBSQLiteProvider.so")
    else none

abbrev pub first_existing : (Bytes → Bool) → Bytes → Bytes → Option Bytes
first_existing exists path path' =
    if exists (c_str path) then some path else if exists (c_str path') then some path' else none

abbrev pub library_in : (Bytes → Bool) → Bytes → Option Bytes → Option Bytes
library_in exists dir none = none
library_in exists dir (some name) =
    first_existing exists (dir ++ (b'/' ∷ name)) (dir ++ (bytes "/../lib/" ++ name))

-- `_exePath.erase(_exePath.find_last_of('/'))`
abbrev pub directory : Bytes → Option ℕ → Result Bytes
directory path none = err out_of_range
directory path (some i) = ok (take i path)

-- `setLibraryPath`: the path of the library, or `none` for `return false`.
unfoldable pub set_library_path : Bytes → (Bytes → Bool) → Bytes → Result (Option Bytes)
unfolding find_last
set_library_path [] exists kind = ok none
set_library_path (c ∷ cs) exists kind = do
  dir ← directory (c ∷ cs) (find_last b'/' (c ∷ cs))
  ok (library_in exists dir (library_name kind))

-- One client: what is left in the buffer of its last answer.
pub record Server (S : Type 0) : Type 0 where
  pub provider : S
  pub accepting : Bool
  pub responses : List Bytes

-- What the event loop completes: an accept, the signal, or a read of one of the clients.
pub data Event : Type 0 where
  accepted : Bool → Event
  signalled : Event
  received : ℕ → Bytes → Event

module _ {S : Type 0} where
  abbrev pub read_done : Result (S × Bool) → Started (Server S)
  read_done (err fault) = faulted fault
  read_done (ok (s, false)) = thrown (bytes "Failed to read data")
  read_done (ok (s, true)) = running (record { provider = s; accepting = true; responses = [] })

  abbrev pub created : DbLibrary S → Option S → Started (Server S)
  created ops none = thrown (bytes "Cannot create DataProvider library instance")
  created ops (some s) = read_done (ops.read s)

  -- `loadFunction` takes its `errPtr` by value, so the text that is thrown is a null pointer.
  abbrev pub with_functions :
      Bytes → DbLibrary S → Option (Bytes → Option S) → Bool → Started (Server S)
  with_functions rdb_path ops none destroy = faulted undefined
  with_functions rdb_path ops (some create) false = faulted undefined
  with_functions rdb_path ops (some create) true = created ops (create rdb_path)

  abbrev pub loaded : System S → Bytes → Bytes → Option (Library S) → Started (Server S)
  loaded sys rdb_path path none =
      thrown
        (bytes "Failed to open DataProvider library: " ++ path ++ bytes "; Reason: " ++ sys.reason)
  loaded sys rdb_path path (some lib) =
      with_functions rdb_path lib.operations lib.create lib.has_destroy

  abbrev pub with_path : System S → Bytes → Bytes → Result (Option Bytes) → Started (Server S)
  with_path sys kind rdb_path (err fault) = faulted fault
  with_path sys kind rdb_path (ok none) =
      thrown (bytes "Failed to find DataProvider library for " ++ kind)
  with_path sys kind rdb_path (ok (some path)) = loaded sys rdb_path path (sys.load (c_str path))

  -- The constructor.
  unfoldable pub start : System S → Bytes → Bytes → Started (Server S)
  unfolding set_library_path
  start sys kind rdb_path =
      with_path sys kind rdb_path (set_library_path sys.exe_path sys.exists kind)

  abbrev pub on_accept : Server S → Bool → Bool → Server S
  on_accept server false fine = server
  on_accept server true false = server
  on_accept server true true = record server { responses = server.responses ++ [] ∷ [] }

  module _ (ops : DbLibrary S) where
    -- A read of a client that is not there does not complete.
    abbrev pub on_read : Server S → ℕ → Bytes → Option Bytes → Result (Server S × List Bytes)
    on_read server i request none = ok (server, [])
    on_read server i request (some response) = do
      (s, text) ← parse_request ops server.provider response request
      ok (record server { provider = s; responses = set server.responses i text }, text ∷ [])

    -- The server afterwards, and what is written to a client.
    unfoldable pub on_event : Server S → Event → Result (Server S × List Bytes)
    on_event server (accepted fine) = ok (on_accept server server.accepting fine, [])
    on_event server signalled = ok (record server { accepting = false }, [])
    on_event server (received i request) = on_read server i request (get_elem? server.responses i)

    -- `run`
    unfoldable pub run : Server S → List Event → Result (Server S × List Bytes)
    unfolding on_event
    run server [] = ok (server, [])
    run server (event ∷ events) = do
      (server', texts) ← on_event server event
      (server'', texts') ← run server' events
      ok (server'', texts ++ texts')
