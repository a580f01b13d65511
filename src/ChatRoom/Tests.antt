-- ===== src/ChatRoom/Tests.antt =====
-- A chatroom with one account, and the theorems on it.
use webwire_go.Connection.{session_key}
use webwire_go.Registry.{register}
use webwire_go.Server.Handlers.{World}
use webwire_go.ChatRoom.Auth.{handle_auth-answers}
use webwire_go.Message.{msg_session_created}
use webwire_go.Payload.{binary}
use webwire_go.Payload.Text.{utf8_text}
use webwire_go.Runtime.{bytes_discrete}
use webwire_go.Base.{
  ◌==◌, ◌||◌, ◌≡◌, refl, true, false, if◌then◌else◌, Option, none, some, [], ◌∷◌, ◌++◌, arith,
}
use webwire_go.ChatRoom.{
  Credentials, Environment, handle_auth, broadcast_message, on_client_connected,
}
use webwire_go.ChatRoom.Auth.{IsAuthentic, handle_auth-safe}
use webwire_go.ChatRoom.Broadcast.{Rooms, empty, joins, copies_to, broadcast_reaches}
use webwire_go.Errors.{RequestError}
use webwire_go.Map.{Distinct, find}
use webwire_go.Message.{Message}
use webwire_go.Payload.{Payload, utf8}
use webwire_go.Registry.{ConnId}
use webwire_go.Runtime.{Bytes, value}
use webwire_go.Server.Examples.{opened, setup}
use webwire_go.Server.Handlers.{Setup, answered, rejected}
use webwire_go.Server.Signals.{IsSignalled}
use native.Mathlib.Decide.{ℕ_discrete}

-- The account 65 with the password 66; a text is taken as a name and a password of one byte each.
abbrev one_name : Bytes → Option Credentials
one_name (x ∷ y ∷ []) = some (record { name = x ∷ []; password = y ∷ [] })
one_name _ = none

abbrev env : Environment
env = record {
  unmarshal = one_name;
  marshal_chat = λ name text. some (123 ∷ (name ++ text));
  sprintf = λ format argument. format ++ argument;
  decoding_error = [];
  accounts = (65 ∷ [], 66 ∷ []) ∷ [];
  is_connected = true;
  hook = λ w. w;
  info_of = λ name. 9;
  username = λ info. some (65 ∷ []);
  key = 75 ∷ [];
  now = 4;
}

abbrev srv : Setup
srv = setup (answered none)

abbrev login : Message
login = record {
  kind = 127;
  identifier = 1 ∷ 0 ∷ 0 ∷ 0 ∷ 0 ∷ 0 ∷ 0 ∷ 0 ∷ [];
  name = [];
  payload = record { encoding = utf8; bytes = 65 ∷ 66 ∷ [] };
}

-- What the right password leaves.
abbrev logged_in : World
logged_in = record opened {
  con = record (opened.con) {
    session = some (record { key = 75 ∷ []; creation = 4; last_lookup = 4; info = some 9 });
  };
  asr = (register opened.asr (75 ∷ []) 7).0;
  sent = (msg_session_created ∷ 75 ∷ []) ∷ [];
}

login-answered :
    handle_auth env srv login opened
    ≡ value (logged_in, answered (some (record { encoding = binary; bytes = 75 ∷ [] })))
unfolding utf8_text find bytes_discrete session_key
login-answered =
    handle_auth-answers env srv login opened (65 ∷ 66 ∷ []) (75 ∷ [])
      (record { name = 65 ∷ []; password = 66 ∷ [] }) refl refl refl refl refl refl (omega arith)
      refl (omega arith) refl

handle_auth-safe_example :
    ((err : RequestError)
      → handle_auth env srv login opened ≡ value (logged_in, rejected err)
      → logged_in ≡ opened)
    × ((p : Option Payload)
        → handle_auth env srv login opened ≡ value (logged_in, answered p)
        → IsAuthentic env login)
handle_auth-safe_example = handle_auth-safe env srv login opened logged_in

two_clients :
    Rooms (λ j. 4 == j || (3 == j || false)) (on_client_connected 4 (on_client_connected 3 []))
two_clients = joins 4 (joins 3 empty refl) refl

broadcast_reaches_example :
    let room = on_client_connected 4 (on_client_connected 3 []) in
    (m : Bytes) × (broadcast_message env srv (65 ∷ []) (72 ∷ []) room ≡ value (copies_to m room))
    × Distinct ℕ_discrete room
    × ((id : ConnId)
        → find ℕ_discrete id room ≡ (if 4 == id || (3 == id || false) then some tt else none))
    × IsSignalled [] utf8 (123 ∷ 65 ∷ 72 ∷ []) m
broadcast_reaches_example =
    broadcast_reaches env srv (65 ∷ []) (72 ∷ []) (123 ∷ 65 ∷ 72 ∷ []) two_clients refl
      (omega arith)
