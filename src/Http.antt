-- ===== src/Http.antt =====
-- HttpWrapper/src: what the parts of the HTTP server share, header.hpp and request.hpp.
pub mod Parser
pub mod Reply
pub mod Url
pub mod MimeTypes
pub mod Rdb
pub mod Handler
pub mod Connection
pub mod Server
pub mod Main
mod Tests
use reminder_suite.Prelude.{ℕ, List}
use reminder_suite.Text.{Bytes}

pub record Header : Type 0 where
  pub name : Bytes
  pub value : Bytes

-- The version numbers are `int`s; neither is negative, since a digit is all that is ever added.
pub record Request : Type 0 where
  pub method : Bytes
  pub uri : Bytes
  pub http_version_major : ℕ
  pub http_version_minor : ℕ
  pub headers : List Header
