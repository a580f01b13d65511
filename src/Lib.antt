-- ===== src/Lib.antt =====
-- webwire-go is an asynchronous duplex messaging library: a binary message protocol, a server that
-- handles requests, signals and sessions, and a client that awaits replies.
--
-- The files follow the program's parts:
--   Base, Runtime    shared names and lemmas; byte slices, panics, checked reads and writes of Go
--   Map              Go's maps as lists of entries with distinct keys
--   Payload          payload/encoding.go, payload/payload.go; Payload/Text is its method Utf8
--   Message          message/message.go; its children hold the other files of message/:
--     Bodies, Parse      parse.go: the parser of each kind, and Parse
--     Compose            new*.go: the constructors, as writes into a buffer
--     Layout, Validity   what the constructors return, and when
--     Memory             reads stay inside the message
--     Whole, Reading     what the parsers read from a message that is laid out as documented
--     RoundTrip, Silent  Parse after a constructor
--     Generators         testutil.go: random messages, against the constructors
--   Registry         sessionRegistry.go: sessions and the connections that share them
--   Errors           errors.go, translateContextError.go
--   RequestManager   requestManager/requestManager.go, and the parts of client/sendRequest.go and
--                    client/handle.go that use it, as steps of goroutines
--   Connection       connection.go: the session, and the tasks, closing and unlinking as steps
--     Encoded                  session.go, sessionInfoToVarMap.go: the session as it is encoded
--     Encoded                  session.go, sessionInfoToVarMap.go: the session as it is encoded
--     Encoded                  session.go, sessionInfoToVarMap.go: the session as it is encoded
--   Server           the server; its children hold its files:
--     Operations, Goroutines   the counter of handleMessage.go, handleSignal.go and Shutdown in
--                              server.go: the critical sections, and the goroutines around them
--     Replies, Handlers        failMsg and its like in handleMessage.go; handleRequest.go,
--                              handleSessionRestore.go, handleSessionClosure.go
--     Dispatch                 handleMessage of handleMessage.go, from bytes to replies
--     Creation                 CreateSession of connection.go, NewSession of session.go
--     Sessions                 CloseSession of server.go and of connection.go
--     Counting, Uncounted, Draining   Shutdown, with and without signals during it, and its end
--     Slots                    the limit of handlers of a connection, in handleMessage.go
--     Signals                  Signal of connection.go
--     Construction             newServer.go, and SessionConnections of server.go
--     Answers, Service         replies to a request
--     Restoration, Restored, Created, Closure   what becomes of sessions on the server
--     Synchrony, Survival                       and on the client that they belong to
--   Serving          serveHttp.go, handleMetadata.go, connectionOptions.go: one HTTP request
--     Added, Runs              what one request adds, and any number, one after the other
--     Interleaved              requests that are served at the same time
--     Deadlines                serveHttp.go, heartbeat.go: the read deadline and the pings, in time
--   Client           client/handle.go: what a message of the server is to a client
--     Requests, Sending        client/sendRequest.go, sendNamelessRequest.go,
--                              scanPayloadEncoding.go, Signal in client.go
--     Sessions                 the session, in client/handle.go, client.go, connect.go
--     Reconnection, Attempts   client/dam.go, tryAutoconnect.go, backgroundReconnect.go
--     Link, Readers            client/connect.go and the status of client/client.go
--     Connecting               client/newClient.go, verifyProtocolVersion.go, connect.go, and
--                              Connect and Close in client.go
--   Socket           socketImpl.go
--   Options          serverOptions.go, client/options.go
--   SessionInfo      genericSessionInfo.go, sessionInfoToVarMap.go
--   SessionManager   defaultSessionManager.go, over a file system
--   ChatRoom         examples/chatroom/server/implementation.go: an application of the server
--   Echo             examples/echo/server/server.go: a request from the client to its reply
--
-- The server's Dispatch parses a message with Message.Parse, counts it with Server.Operations and
-- Connection, and hands it to a handler, which uses the Registry and composes a reply with
-- Message.Compose. Client parses the reply with the same parser and gives it to the RequestManager.
--
-- A constructor or a parser of Go is a function of the same name in snake_case. A Go panic is the
-- value `panic`; an error is an `Option`. Slice expressions are checked against the length of the
-- slice, which is stricter than Go's check of the capacity. A nil slice is an empty list. Numbers are
-- natural numbers; where the code works on machine words, the wrap-around is written out. Mutexes are
-- modelled by the size of the steps: what a method does under one lock is one step. Request
-- identifiers come from a 64-bit counter; the steps of Create are modelled up to its wrap-around.
-- No definition runs on fuel: every loop is a recursion on a list or a value. Goroutines that do
-- the same are counted by where they stand.
--
-- The application, the session manager, the JSON encoder and decoder, the socket's failures, the
-- clock and the generator of session keys are arguments of what uses them; the record
-- Server.Handlers.Setup holds those of the handlers. A theorem that relies on one of them names what
-- it relies on among its hypotheses.
--
-- Serving is the outermost part: its requests become connections, whose messages go to Dispatch, each
-- in a goroutine of its own. Client.Connecting.Versions sets the client's check of the protocol
-- version against the answer of Serving, and ChatRoom uses CreateSession and Signal.
--
-- Not modelled: the texts of errors and logs, the methods of the TCP listener, Run of the server, which
-- only calls net/http, the flags and the main functions of the examples, and the pubsub example, which
-- uses the server as the chatroom does, with less of it.
pub mod Base
pub mod Runtime
pub mod Map
pub mod Payload
pub mod Message
pub mod Registry
pub mod Errors
pub mod RequestManager
pub mod Connection
pub mod Server
pub mod Options
pub mod Socket
pub mod Serving
pub mod Client
pub mod SessionInfo
pub mod SessionManager
pub mod ChatRoom
pub mod Echo
