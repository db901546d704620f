-- ===== src/Chain.antt =====
-- HttpWrapper/src/rdb_handler.cpp, ClientLib/src/library.cpp and Server/src/session.cpp together: a
-- call under "/rdb/" on its way to the table of the data server and back.
pub mod Rows
pub mod Json
pub mod Page
pub mod Store
mod Tests
use reminder_suite.Prelude.{
  ℕ, ◌≤◌, true, List, [], ◌∷◌, ◌++◌, All, All-append, Option, none, some, append_assoc, length, ◌≡◌,
  ◌≢◌, refl, ◌∙◌, ap,
}
use reminder_suite.Prelude.Fault.{Result, ok}
use reminder_suite.Text.{Bytes, bytes, Free, equal, tokens, write_each}
use reminder_suite.Text.Tokens.{tokens-append_last, tokens-write_each}
use reminder_suite.Provider.TextFile.{DbTextFile, Disk, text_file, fields, get_all}
use reminder_suite.Session.{
  do_write, write_lines, parse_request, run_command, request_parts, drop_eol,
}
use reminder_suite.Client.{Network, stream_size, execute_cmd}

abbrev pub Server : Type 0
Server = DbTextFile × Disk

-- The calls of one command, when they go well.
pub record Exchange {S : Type 0} (net : Network S) (behind : S → Server) (s : S) (cmd text : Bytes)
    (after : Server) : Type 0 where
  pub opened : S
  pub asked : S
  pub told : S
  pub connects : net.connect s ≡ (opened, true)
  pub sends : net.send opened cmd ≡ (asked, true)
  pub reads : net.read_some asked stream_size ≡ (told, some text)
  pub closes : behind (net.close told) ≡ after

-- The server listens; it gets a short command in one read, and a short answer arrives in one read.
abbrev pub Delivers : {S : Type 0} → Network S → (S → Server) → Type 0
Delivers {S} net behind =
    (s : S) (cmd text : Bytes) (after : Server)
    → length cmd ≤ stream_size
    → length text ≤ stream_size
    → parse_request text_file (behind s) [] cmd ≡ ok (after, text)
    → Exchange net behind s cmd text after

module _ {S : Type 0} (net : Network S) (behind : S → Server) where
  pub execute_cmd-Exchange :
      (s : S) {cmd text : Bytes} {after : Server}
      → Exchange net behind s cmd text after
      → (s' : S) × (execute_cmd net s cmd [] ≡ (s', some (tokens b'\n' text))) × (behind s' ≡ after)
  unfolding execute_cmd
  execute_cmd-Exchange s x = rw (x.connects, x.sends, x.reads) (net.close x.told, refl, x.closes)

pub fields_answer :
    (st : Server)
    → parse_request text_file st [] (bytes "/fields") ≡ ok (st, do_write (fields st.0))
unfolding parse_request run_command request_parts drop_eol tokens equal
fields_answer st = refl

pub get_answer :
    (st : Server)
    → parse_request text_file st [] (bytes "/get") ≡ ok (st, do_write (write_lines (get_all st.0)))
unfolding parse_request run_command request_parts drop_eol tokens equal
get_answer st = refl

write_lines-last :
    (ls : List Bytes) → do_write (write_lines ls) ≡ write_each (b'\n' ∷ []) (ls ++ [] ∷ [])
unfolding write_each
write_lines-last [] = refl
write_lines-last (l ∷ ls) =
    append_assoc l (b'\n' ∷ write_lines ls) (b'\n' ∷ [])
    ∙ ap (λ t. l ++ (b'\n' ∷ t)) (write_lines-last ls)

-- An answer of lines is read as the lines and an empty one.
pub tokens-write_lines :
    (ls : List Bytes)
    → All (Free b'\n') ls
    → tokens b'\n' (do_write (write_lines ls)) ≡ ls ++ [] ∷ []
tokens-write_lines [] h = unfold tokens in refl
tokens-write_lines (l ∷ ls) h = rw (write_lines-last (l ∷ ls)) (
    tokens-write_each b'\n' l (ls ++ [] ∷ [])
      (h.0, All-append (Free b'\n') ls ([] ∷ []) h.1 (tt, tt)))
