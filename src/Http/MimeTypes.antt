-- ===== src/Http/MimeTypes.antt =====
-- HttpWrapper/src/mime_types.cpp
use reminder_suite.Prelude.{List, [], ◌∷◌, if◌then◌else◌}
use reminder_suite.Text.{Bytes, bytes, equal}

pub record Mapping : Type 0 where
  pub extension : Bytes
  pub mime_type : Bytes

abbrev mapping : Bytes → Bytes → Mapping
mapping e t = record { extension = e; mime_type = t }

abbrev pub mappings : List Mapping
mappings =
    mapping (bytes "gif") (bytes "image/gif")
    ∷ mapping (bytes "htm") (bytes "text/html")
    ∷ mapping (bytes "html") (bytes "text/html")
    ∷ mapping (bytes "jpg") (bytes "image/jpeg")
    ∷ mapping (bytes "png") (bytes "image/png")
    ∷ mapping (bytes "css") (bytes "text/css")
    ∷ []

type_in : Bytes → List Mapping → Bytes
type_in extension [] = bytes "text/plain"
type_in extension (m ∷ ms) =
    if equal m.extension extension then m.mime_type else type_in extension ms

unfoldable pub extension_to_type : Bytes → Bytes
unfolding type_in
extension_to_type extension = type_in extension mappings
