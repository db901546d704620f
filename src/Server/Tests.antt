-- ===== src/Server/Tests.antt =====
-- A server of the type "file" that is started, and serves two clients.
use reminder_suite.Prelude.{true, List, [], ◌∷◌, some, ◌≡◌, refl}
use reminder_suite.Text.{bytes}
use reminder_suite.Provider.TextFile.{DbTextFile, Disk, text_file}
use reminder_suite.Provider.Tests.{table, disk_of}
use reminder_suite.Session.{converse}
use reminder_suite.Server.{Server, System, Event, accepted, signalled, received, run}
use reminder_suite.Server.Interleaving.{arrivals, provided, run-converse}
use reminder_suite.Server.Start.{text_library}

abbrev disk : Disk
disk = disk_of (bytes "name:type:\nmilk:food:\n")

abbrev installed : System (DbTextFile × Disk)
installed = record {
  exe_path = bytes "/opt/bin/server";
  exists = λ p. true;
  load = λ p. some (text_library disk);
  reason = [];
}

abbrev serving : Server (DbTextFile × Disk)
serving = record { provider = (table, disk); accepting = true; responses = [] }

abbrev events : List Event
events =
    accepted true
    ∷ accepted true
    ∷ received 1 (bytes "/set/run:sport")
    ∷ received 0 (bytes "/get/run")
    ∷ signalled
    ∷ accepted true
    ∷ received 2 (bytes "/get")
    ∷ received 1 (bytes "/delete")
    ∷ []

-- The third client came too late.
events_arrive :
    arrivals 0 true events ≡ bytes "/set/run:sport" ∷ bytes "/get/run" ∷ bytes "/delete" ∷ []
events_arrive = refl

run-converse_example :
    provided text_file (run text_file serving events)
    ≡ converse text_file (table, disk) [] (arrivals 0 true events)
run-converse_example = run-converse text_file serving events
