-- ===== src/Session/Stored.antt =====
-- Server/src/session.cpp over DataProvider/DBSQLite/src/DBSQLite.cpp: a row that a client stores, and
-- then asks for.
mod Tests
use reminder_suite.Prelude.{All}
use reminder_suite.Prelude.Fault.{Result, ◌>>=◌}
use reminder_suite.Provider.Sqlite.{Sqlite}
use reminder_suite.Provider.Sqlite.Relational.{Relational}
use reminder_suite.Provider.Sqlite.Relational
use reminder_suite.Session.{request_parts}
use reminder_suite.Session.Requests.{drop_eol-path}
