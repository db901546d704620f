-- ===== src/Provider.antt =====
-- DataProvider/DPInterface.h: the operations that a data provider offers to a session. `S` is
-- what the provider keeps, the files that it may reach included.
pub mod Entry
pub mod TextFile
pub mod Sqlite
pub mod Factory
pub mod Tests
use reminder_suite.Prelude.{Bool, List}
use reminder_suite.Prelude.Fault.{Result}
use reminder_suite.Text.{Bytes}

pub record DbLibrary (S : Type 0) : Type 0 where
  pub fields : S → Result (S × Bytes)
  pub get_all : S → Result (S × List Bytes)
  pub get : S → Bytes → Bytes → Result (S × Bytes)
  pub set_entry : S → Bytes → Bytes → Result (S × Bool)
  pub set_field : S → Bytes → Bytes → Bytes → Result (S × Bool)
  pub erase : S → Bytes → Result (S × Bool)
  pub read : S → Result (S × Bool)
  pub save : S → Result (S × Bool)
