-- ===== src/Server/Start.antt =====
-- Server/src/server.cpp: a start over the text file.
use reminder_suite.Prelude.{true, some}
use reminder_suite.Provider.TextFile.{DbTextFile, Disk, create, text_file}
use reminder_suite.Server.{Library}

-- What `dlopen` gives for libTextFileProvider.so, by a process that sees this disk.
abbrev pub text_library : Disk → Library (DbTextFile × Disk)
text_library disk = record {
  create = some (λ path. some (create path, disk));
  has_destroy = true;
  operations = text_file;
}
