-- ===== src/Lib.antt =====
-- Reminder suite: a table of reminders kept by a data server, which clients reach over a line
-- protocol, and an HTTP server that hands such requests on and serves files.
--
-- The parts, and where they are modelled:
--
--   Prelude    shared types, lists over the native numbers, Boolean tests, and Fault: undefined
--              behaviour and the out_of_range of vector::at as the error of a Result.
--   Text       std::string as a list of bytes, and what the code uses of it from the C++ library.
--   Provider   DataProvider/DPInterface.h: DbLibrary, the operations that a provider offers.
--     Entry      DataProvider/DBTextFile/src/entry.cpp: rows (getValue is get_value, and so on).
--     TextFile   DataProvider/DBTextFile/src/DBTextFile.cpp and filehandler.cpp. The overloads of
--                get are get_all and get, those of set are set_entry and set_field. The disk is
--                explicit; text_file is this provider as a DbLibrary. Under it: Lookup and Update
--                (operations against a lookup by key), Fields, Keys, Storage, Invariant.
--     Sqlite     DataProvider/DBSQLite/src/DBSQLite.cpp: the provider over a database file, with the
--                overloads named as those of TextFile. Under it: Texts (what it builds and reads),
--                Statements and Lexer (the form of the statements, and how SQL reads a text), Reading
--                (what SQL reads in them), Relational and Stored (a sqlite3 that keeps a table), and
--                Handles (which handles are open). sqlite_library is it as a DbLibrary.
--     Factory    DataProvider/DPFactory/DBLibrary.cpp.
--   Session    Server/src/session.cpp: parseRequest is parse_request, over any DbLibrary, with one
--              function for each command and its answers. Under it: Requests (texts of requests),
--              Outcome, Safety, Replies; Spec is an abstract meaning of the commands, Refinement and
--              Conversation compare with it. converse is the loop of do_read and do_write. Database and
--              Stored are about a session over Sqlite.
--   Server     Server/src/server.cpp: start is the constructor with setLibraryPath, on_event the
--              handlers, run the loop over what completes. Under it: Start, Interleaving, and Main
--              (Server/src/main.cpp).
--   Http       HttpWrapper/src/header.hpp and request.hpp.
--     Parser     request_parser.cpp and request_parser.hpp: consume is one step of the machine,
--                parse the loop over the input.
--     Reply      reply.cpp and reply.hpp; Reply.Wire is what stands on the socket.
--     Url        url_decode of request_handler.cpp, with the reading of hexadecimal by a stream.
--     MimeTypes  mime_types.cpp.
--     Rdb        rdb_handler.cpp: isRDBcall, isValidCall, and parse with getResponse as parse_call.
--     Handler    handle_request of request_handler.cpp.
--     Connection connection.cpp, and what connection_manager.cpp does to one connection: on_read and
--                on_write are the completion handlers. Under it: Serving (reads one after the other)
--                and Lifetime (a step relation of all that can happen to one connection).
--     Server     server.cpp, and the set of connection_manager.cpp: on_completion runs one handler, and
--                Runs is the event loop. Under it: Invariant, Outstanding, Shutdown, Peers and
--                Isolation (one connection among the others).
--     Main       main.cpp and config.h: the program, from its options on.
--   Client     ClientLib/src/library.cpp: executeCmd is execute_cmd, over a Network.
--   Chain      Http.Rdb, Client and Session put together, over the text file. Under it: Rows (the
--              JSON trees of rows), Json (the answers of "/rdb/fields" and "/rdb/get"), Page and Store
--              (the whole way, from the bytes that a client of the HTTP server sends to its reply).
--
-- How they meet: Http.Connection feeds bytes to Http.Parser, an accepted request goes to
-- Http.Handler, which serves a file or calls Http.Rdb; that one sends commands through Client to
-- the data server, where Session runs them on a provider. Session knows the provider by DbLibrary
-- alone.
--
-- Parameters: sqlite3 (Provider.Sqlite.Sqlite; what its documentation says of handles is
-- Documented in Handles, what SQL says of the statements on a plain table is Relational), the
-- paths and shared objects that the data server finds (Server.System), what fork and setsid come
-- to, whether an address can be bound, the file system under the document root, Boost's property
-- trees and JSON writer, and the socket of the client library. The call of executeCmd is a
-- parameter of Http.Rdb and the call of Http.Rdb one of Http.Handler, whose own call is one of
-- Http.Connection and Http.Server; Chain puts execute_cmd in the place of the first, and
-- Chain.Page and Chain.Store all of them together. There the network is supposed to deliver
-- (Chain.Delivers): a command and an answer of at most 8192 bytes each arrive whole in one read,
-- and the server that answers is the one behind the socket. Where a theorem is about a disk, what
-- its paths hold and permit is arbitrary.
--
-- Numbers: an int that only counts up from 0 is a natural number with its limit written out, and to
-- exceed the limit is the fault "undefined". The byte that url_decode makes is taken modulo 256.
--
-- Events: an operation of a connection is aborted only when the manager closed its socket, and one
-- that was begun on a closed socket does not succeed; all other orders of events are allowed. This
-- is what Http.Connection.Lifetime.Step and Http.Server.Occurs say.
--
-- Fuel: read_loop of Http.Handler has one round more than the file has bytes, and each round but the
-- last takes a byte; the decimal digits of a number n have fuel n + 1, and each digit makes it
-- smaller. All other loops are recursion on their input.
--
-- Not modelled: sockets and the event loop of Boost itself; the parsing of options, settings and
-- what is printed for the operator. A request to the data server is what one read of at most 8192
-- bytes delivered, whatever its bytes. Of the thread that reads the fields of a database only its
-- end is modelled, and its race for the fields; its race for the return code dbRC_ is left out.
pub mod Prelude
pub mod Text
pub mod Provider
pub mod Session
pub mod Http
pub mod Client
pub mod Server
pub mod Chain
