-- ===== src/Lib.antt =====
-- A model of curlion, a C++ wrapper of libcurl, and of what keeps it correct.
--
-- The program. A `Connection` (src/connection.h, src/connection.cpp) holds an easy handle of
-- libcurl's with its options, what is sent, and what was received; libcurl calls it back while a
-- transfer runs. An `HttpConnection` (src/http_connection.cpp) adds request headers, a form and the
-- parsing of response headers. An `HttpForm` (src/http_form.cpp) hands its parts to libcurl and
-- retains them. A `ConnectionManager` (src/connection_manager.cpp) runs many connections over
-- libcurl's multi interface, a timer, a socket watcher and a socket factory of the program's.
-- example/asio.cpp implements these three on boost::asio: an `AsioTimer`, and an
-- `AsioSocketManager` with an `AsioSingleSocketWatcher` for each socket that it watches. A
-- `Connection` and a `ConnectionManager` log what they do (src/log.h, src/log.cpp).
-- example/easy.cpp makes one blocking request.
--
-- The files.
--   Common: shared names; tests, lists and integers over the native numbers. A `size_t` has 64 bits
--     and wraps around (Common.Words), and so does the sum with a `curl_off_t`.
--   Curl: the part of libcurl's vocabulary that the code uses. An easy handle is the list of the
--     `curl_easy_setopt` calls since its creation, the latest first, and `in_force` reads an
--     option.
--   Connection: State has the members, the constructor, `WillStart`, `DidFinish` and the resets;
--     Body has `ReadBody`, `SeekBody`, `WriteHeader`, `WriteBody`, `Progress` and `Debug`;
--     Callbacks has the static functions that libcurl calls, a transfer as a list of those calls,
--     and `Start`; Options has the setters, and Calls lists them as data. Reading, Seeking, Quiet,
--     Response, Lifecycle, Wiring, Tracing and Refusals are about these; Running, Public, Keeping,
--     Starting and Ready are about what public calls, also those of callbacks, leave as it is.
--   Http: Text has `SplitString` and `MakeHttpHeaderLine`, Multimap the `std::multimap`, State the
--     class. Split and Pieces are about splitting, Headers about response headers, Requests about
--     the request headers, the form and the options, Running and Kept about what public calls and a
--     transfer leave as it is, Transfer about a whole request.
--   Form: State has `CreateOptions` and `AddPart`, and Contents, Options and Parts are about them.
--     Owners has the forms of a program with the shared pointers to them and the destructor, and
--     Lifetime, Serving and Shared are about these. Error has the error conditions (src/error.h).
--   Manager: Table is `running_connections_`, State the manager with the objects that it refers to,
--     Step its methods, Sockets the socket factory's callbacks, and Obeys what src/timer.h and
--     src/socket_watcher.h ask of it. Cases, Watching, Registered, Consistent, Termination,
--     Behaviour and Finishing are about these, and Run is about histories. Every, Wired, Ready,
--     Life, Sound and Reads are about histories of a whole program, in which libcurl's calls on the
--     connections, public calls and blocking starts come between the manager's steps. Queue, Round
--     and Delivery are about the messages that libcurl holds, and Request is about a whole request,
--     with libcurl's calls on the connection. Example is a libcurl to try the theorems on.
--   Asio: State has the members of `AsioSocketManager` and of its watchers, Step their methods, and
--     Timer `AsioTimer`. Live and Waits have the invariants, Continual keeps the second, and
--     History is about histories of calls and completions. Reports is about what a watcher makes of
--     a completion. Contract has what a manager asks of the two, Loop the whole program that the
--     `main` of example/asio.cpp puts together; Promise, Watched and Answers are about it,
--     with Manager.Effects. Main has the request that this `main` makes.
--   Easy: State has example/easy.cpp, and Prints is about it.
--   Slists: State has the `curl_slist`s of a connection, `dns_resolve_items_` and
--     `request_headers_`, by their addresses, with the destructors. Ownership and Safety, and
--     Contents, Shows and Refinement are about them.
--   Log: State has the logger, which may be an empty function, and `LoggerProxy`, and Lines is about
--     the expressions that log.
--
-- libcurl itself is not modelled. A transfer of one connection is any list of calls. The multi
-- interface, `curl_slist_append` and `curl_formadd` are parameters, and what libcurl documents of
-- them stands in `SocketLaws`, `MessageLaws`, `QueueLaws`, `SlistLaws`, `FormLaws` and `KeepsHead`.
-- boost::asio is not modelled either: a log has the calls on it and the completions that it
-- reports, in any order and with any error. The functions of the program's own that curlion calls
-- are parameters, too (`Client`, `Handlers`, `Callbacks`, `SocketFactory`).
--
-- A read out of bounds is `none` (`memcpy`). Two loops run on fuel: `SplitString` on one round more
-- than there are bytes, since each round moves on, and `CheckFinishedConnections` on any number
-- above that of the messages that libcurl holds, since each round takes one away and none is added.
--
-- Not modelled: the destructor of `ConnectionManager`, which is empty; `GetResponseCode`, which
-- only asks libcurl; the log without `CURLION_VERBOSE`, where nothing is written. libcurl
-- documents that a message is freed when its handle is removed: `CheckFinishedConnections` reads
-- one behind `curl_multi_remove_handle`, and `handle_message` reads it as it was before. That a
-- `curl_slist` is freed, and by which address it is known, is represented in Slists alone:
-- elsewhere such a list is a value, and to release it is to hold the empty one. What a call of
-- libcurl's does to connections and what it does to the manager are steps of their own, although
-- libcurl makes both from within one call of the multi interface. A callback of a connection
-- changes that connection by the methods of `Connection`; a finished callback that a manager
-- calls may start, abort and change any. The histories of a whole program have no blocking start
-- of an HTTP connection that ends with a finished callback set.
pub mod Common
pub mod Curl
pub mod Connection
pub mod Error
pub mod Http
pub mod Form
pub mod Manager
pub mod Asio
pub mod Easy
pub mod Log
pub mod Slists
