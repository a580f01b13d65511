-- ===== src/Server/Signals.antt =====
-- connection.go: `Signal`, by which the application sends a signal to the client of a connection, and
-- what the client makes of it.
use webwire_go.Base.{length, ◌≡◌, refl, ◌≤◌, Bool, false, [], ◌∷◌, ◌++◌}
use webwire_go.Client.{on_signal, react}
use webwire_go.Client.Understanding.{Understands, handle_message-received}
use webwire_go.Message.Compose.{new_signal_message, signal_type}
use webwire_go.Message.Layout.{signal_layout}
use webwire_go.Message.RoundTrip.{received, parse-new_signal_message}
use webwire_go.Message.Validity.{IsSignal, new_signal_message-eq_value}
use webwire_go.Payload.{Encoding, binary, utf8, utf16, Payload}
use webwire_go.Runtime.{Bytes, Go, value, make, ◌>>=◌}
use webwire_go.Server.Handlers.{World, Setup, sock_write}

-- The second component says that it returned an error.
unfoldable pub signal : Setup → Bytes → Payload → World → Go (World × Bool)
signal srv name payload w = do
  m ← new_signal_message name payload.encoding payload.bytes
  value (sock_write srv m w)

-- The client hands its program the signal with that name, encoding and content.
abbrev pub IsSignalled : Bytes → Encoding → Bytes → Bytes → Type 0
IsSignalled name encoding content m =
    Understands m
      (on_signal (received (signal_type encoding) (make 8) name encoding content).message)

-- The composed signal, as the client takes it.
pub new_signal_message-IsSignalled :
    (name : Bytes) (encoding : Encoding) (content m : Bytes)
    → 1 ≤ length content
    → new_signal_message name encoding content ≡ value m
    → IsSignalled name encoding content m
unfolding react
new_signal_message-IsSignalled name binary content m h e =
    handle_message-received _ _ _ _ _ m _ (parse-new_signal_message name binary content m h e) refl
new_signal_message-IsSignalled name utf8 content m h e =
    handle_message-received _ _ _ _ _ m _ (parse-new_signal_message name utf8 content m h e) refl
new_signal_message-IsSignalled name utf16 content m h e =
    handle_message-received _ _ _ _ _ m _ (parse-new_signal_message name utf16 content m h e) refl

-- A signal with a printable name of at most 255 bytes and a payload that is not empty, and even if it
-- is UTF16, over a socket that works: exactly one message is sent, and the client hands its
-- program a signal with that name, encoding and content.
pub signal_lem :
    (srv : Setup) (name : Bytes) (payload : Payload) (w : World)
    → IsSignal name payload.encoding payload.bytes
    → 1 ≤ length payload.bytes
    → ((m : Bytes) → srv.write_fails m w ≡ false)
    → (m : Bytes) × (signal srv name payload w
        ≡ value (record w { sent = w.sent ++ (m ∷ []) }, false))
      × IsSignalled name payload.encoding payload.bytes m
unfolding signal sock_write
signal_lem srv name payload w v h works =
    let m = signal_layout name payload.encoding payload.bytes in
    let made = (new_signal_message-eq_value name payload.encoding payload.bytes m).1 (v, refl) in
    (
      _,
      rw (made, works) refl,
      new_signal_message-IsSignalled name payload.encoding payload.bytes _ h made,
    )
