-- ===== src/Provider/Factory.antt =====
-- DataProvider/DPFactory/DBLibrary.cpp: the factory of libDataProvider.so, which knows one type.
use reminder_suite.Prelude.{Option, none, some, if◌then◌else◌}
use reminder_suite.Text.{Bytes, bytes, equal}
use reminder_suite.Provider.TextFile.{DbTextFile}
use reminder_suite.Provider.TextFile

-- `none` is the null pointer.
abbrev pub create_as : Bytes → Bytes → Option DbTextFile
create_as kind db_path = if equal kind (bytes "file") then some (TextFile.create db_path) else none
