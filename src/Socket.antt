-- ===== src/Socket.antt =====
-- socketImpl.go: the socket of a client, or of a connection of the server, over a connection of the
-- vendored websocket library, which is a number here. What that library's calls return is an
-- argument; a call on a nil connection panics. Each method that takes the lock is one function.
pub mod Health
use webwire_go.Base.{if◌then◌else◌, ℕ, Bool, true, false, not, Option, none, some}
use webwire_go.Runtime.{Bytes, nil_dereference, Go, value, panic, ◌>>=◌}

pub record Socket : Type 0 where
  pub connected : Bool
  pub conn : Option ℕ

-- `NewSocket`
abbrev pub new_socket : Socket
new_socket = record { connected = false; conn = none }

-- `newConnectedSocket`
unfoldable pub new_connected_socket : Option ℕ → Socket
new_connected_socket none = record { connected = false; conn = none }
new_connected_socket (some c) = record { connected = true; conn = some c }

-- A method of the connection is called.
abbrev pub use_conn : Option ℕ → Go ℕ
use_conn none = panic nil_dereference
use_conn (some c) = value c

-- `Dial`, where the library's dialer returns a connection, or an error and nil; the second component
-- says that it returned an error.
abbrev pub after_dial : Bool → Option ℕ → Socket × Bool
after_dial connected none = (record { connected = connected; conn = none }, true)
after_dial connected (some c) = (record { connected = true; conn = some c }, false)

unfoldable pub dial : Option ℕ → Socket → Go (Socket × Bool)
dial result sock =
    if sock.connected
    then (do c ← use_conn sock.conn; value (after_dial sock.connected result))
    else value (after_dial sock.connected result)

-- `Write`: true if it returns an error; `fails` says whether the library's call would.
unfoldable pub write_socket : Bool → Socket → Go Bool
write_socket fails sock =
    if not sock.connected then value true else (do c ← use_conn sock.conn; value fails)

-- `Read`: the message, or nothing for an error.
unfoldable pub read_socket : Option Bytes → Socket → Go (Option Bytes)
read_socket result sock = do c ← use_conn sock.conn; value result

-- `IsConnected`
unfoldable pub is_connected : Socket → Bool
is_connected sock = sock.connected

-- `Close`: true if it returns an error.
unfoldable pub close_socket : Bool → Socket → Go (Socket × Bool)
close_socket fails sock = do
  c ← use_conn sock.conn
  value (record sock { connected = false }, fails)

-- `RemoteAddr`; `address` is the library's.
unfoldable pub remote_addr : (ℕ → ℕ) → Socket → Option ℕ
remote_addr address sock = elim sock.conn [ none ↦ none | some c ↦ some (address c) ]

-- `SetReadDeadline`, `OnPong`, `OnPing` and `WritePing`, which only call the library.
unfoldable pub call_conn : Bool → Socket → Go Bool
call_conn fails sock = do c ← use_conn sock.conn; value fails

-- `Upgrade`
unfoldable pub upgrade_conn : Option ℕ → Option Socket
unfolding new_connected_socket
upgrade_conn none = none
upgrade_conn (some c) = some (new_connected_socket (some c))

-- An error of Go: the library's close error with its code, a sockReadErr around another, or any other.
pub data SocketError : Type 0 where
  close_error : ℕ → SocketError
  sock_read_err : SocketError → SocketError
  any_error : SocketError

-- `IsAbnormalCloseErr` of a sockReadErr, which hands itself, not its cause, to the library's test for a
-- close error with another code than those for a peer that is going away (1001) and for an abnormal closure (1006).
unfoldable pub is_abnormal_close_err : (SocketError → ℕ → ℕ → Bool) → SocketError → Bool
is_abnormal_close_err is_unexpected cause = is_unexpected (sock_read_err cause) 1001 1006
