-- ===== src/Session/Database.antt =====
-- Server/src/session.cpp over DataProvider/DBSQLite/src/DBSQLite.cpp: what comes of a "commit".
use reminder_suite.Prelude.{false, List, [], ◌∷◌, ◌≡◌}
use reminder_suite.Text.{Bytes, bytes, equal}
use reminder_suite.Provider.Sqlite.{Sqlite}

-- The request is no "commit".
abbrev pub IsOther : List Bytes → Type 0
IsOther [] = Unit
IsOther (verb ∷ args) = equal verb (bytes "commit") ≡ false
