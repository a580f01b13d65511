-- ===== src/Server/SessionTests.antt =====
-- A session that is created on a connection, and one that is restored on it.
use webwire_go.Base.{length, ◌≡◌, refl, true, false, none, some, [], ◌∷◌, ◌++◌, arith, ℕ, Option}
use webwire_go.Client.{fulfills}
use webwire_go.Client.Sessions.{zero_time, held, receive}
use webwire_go.Client.Understanding.{Understands}
use webwire_go.Connection.{Session}
use webwire_go.Connection.Encoded.{
  VarMap, EncodedSession, var_map_of, fill_info, field_of, field_in,
}
use webwire_go.Map.{find, insert}
use webwire_go.Message.{Message}
use webwire_go.Message.Compose.{fill_reply, new_reply_message, write_padding}
use webwire_go.Message.RoundTrip.{received}
use webwire_go.Payload.{Payload, binary}
use webwire_go.Registry.{ConnId, Key, deregister, register, session_connections_num}
use webwire_go.Registry.View.{registered}
use webwire_go.Runtime.{Bytes, bytes_discrete, value, write}
use webwire_go.Runtime.Buffers.{write_bytes}
use webwire_go.Server.Creation.{create_session}
use webwire_go.Server.Examples.{told, one_field, greeting, opened, setup, some_id}
use webwire_go.Server.Handlers.{
  parse_info, World, answered, Setup, handle_session_closure, handle_session_restore, sock_write,
}
use webwire_go.Server.Replies.{fulfill_msg}
use webwire_go.Server.Restored.{IsFound, stored, with_session}
use webwire_go.Server.Synchrony.{closed_synchronised, created_synchronised}
use webwire_go.Client.Requests.{prepare_nameless_request}
use webwire_go.Client.Sessions.{session_after_connect}
use webwire_go.Message.{zero_message}
use webwire_go.Message.Parse.{parse}
use webwire_go.RequestManager.{create, little_endian, new_request_manager}
use webwire_go.Message.Validity.{IsSignal}
use webwire_go.Server.Signals.{IsSignalled, signal, signal_lem}
use webwire_go.Server.Survival.{session_survives}
use mathlib.Core.Logic.{ite}
use native.Mathlib.Decide.{ℕ_discrete}

abbrev quiet : Setup
quiet = setup (answered none)

abbrev fresh_session : Session
fresh_session = record { key = greeting; creation = 4; last_lookup = 4; info = some 5 }

-- The identifier of a client's first request.
abbrev first_id : Bytes
first_id = 1 ∷ 0 ∷ 0 ∷ 0 ∷ 0 ∷ 0 ∷ 0 ∷ 0 ∷ []

abbrev restore : Message
restore = (received 32 first_id [] binary greeting).message

restore-IsFound :
    IsFound quiet restore opened opened 1 2 told greeting (192 ∷ (first_id ++ greeting))
unfolding session_connections_num find fulfill_msg new_reply_message fill_reply write write_bytes
    write_padding
restore-IsFound = record {
  enabled = refl;
  room = refl;
  looked_up = refl;
  marshalled = refl;
  still_room = refl;
  composed = refl;
}

-- The JSON of a session is its key here, by which the rest is known.
abbrev decode : ℕ → ℕ → Bytes → Option EncodedSession
decode creation last_lookup bytes =
    some (record { key = bytes; creation = creation; last_lookup = last_lookup; info = told })

created_synchronised_example :
    (m : Bytes) × (create_session quiet true (λ x. x) (some 5) greeting 4 opened
      ≡ value (
        record opened {
          con = record (opened.con) { session = some fresh_session };
          asr = (register opened.asr greeting 7).0;
          sent = m ∷ [];
        },
        none,
      ))
    × ((info : Option VarMap) × (receive (decode 4 4) (some length) m none
          ≡ value (
              some (record {
                key = greeting;
                creation = 4;
                last_lookup = zero_time;
                info = parse_info (some length) info;
              })))
        × ((field : Bytes) → field_in info field ≡ field_of one_field (some 5) field))
unfolding var_map_of fill_info insert
created_synchronised_example =
    created_synchronised (decode 4 4) (some length) quiet (λ x. x) (some 5) greeting 4 opened
      greeting none refl refl (omega arith) refl refl (omega arith) refl

abbrev with_fresh : World
with_fresh = record opened { con = record (opened.con) { session = some fresh_session } }

abbrev close : Message
close = (received 31 some_id [] binary []).message

closed_synchronised_example :
    (handle_session_closure quiet close with_fresh
      ≡ value (record with_fresh {
        con = record (with_fresh.con) { session = none };
        asr = (deregister with_fresh.asr (some greeting) 7).0;
        sent = (22 ∷ []) ∷ (191 ∷ some_id) ∷ [];
      }))
    × (receive (decode 4 4) none (22 ∷ []) (some fresh_session) ≡ value none)
    × Understands (191 ∷ some_id) (fulfills some_id (record { encoding = binary; bytes = [] }))
unfolding fulfill_msg new_reply_message fill_reply write write_bytes write_padding
closed_synchronised_example =
    closed_synchronised (decode 4 4) none quiet close with_fresh fresh_session (191 ∷ some_id)
      (some fresh_session) refl refl refl (λ m v. refl) refl

abbrev greeted : Session
greeted = record { key = greeting; creation = 1; last_lookup = 0; info = none }

session_survives_example :
    let arrived = received 32 first_id [] binary greeting in
    let u = with_session quiet restore opened 1 2 told in
    ((m : Bytes) × (prepare_nameless_request 32 greeting 5 new_request_manager
        ≡ value ((create new_request_manager 5).0, (create new_request_manager 5).1, m))
      × (parse zero_message m ≡ value arrived))
    × (handle_session_restore quiet restore opened
        ≡ value (sock_write quiet (192 ∷ (first_id ++ greeting)) u).0)
    × ((k : Key) (c : ConnId)
        → registered u.asr k c
          ≡ ite
              (bytes_discrete greeting k)
              (ite (ℕ_discrete opened.con.id c) (some tt) (registered opened.asr k c))
              (registered opened.asr k c))
    × ((payload : Payload) × Understands (192 ∷ (first_id ++ greeting)) (fulfills first_id payload)
        × (session_after_connect (decode 1 2) none (some payload) (some greeted)
            ≡ some (held none (stored restore 1 2 told))))
unfolding create new_request_manager little_endian
session_survives_example =
    session_survives (decode 1 2) none new_request_manager 5 greeted quiet opened opened 1 2 told
      greeting (192 ∷ (first_id ++ greeting)) (omega arith) restore-IsFound refl

-- A nameless signal of one byte.
signal_lem_example :
    let payload : Payload = record { encoding = binary; bytes = 9 ∷ [] } in
    (m : Bytes) × (signal quiet [] payload opened
      ≡ value (record opened { sent = opened.sent ++ (m ∷ []) }, false))
    × IsSignalled [] binary (9 ∷ []) m
signal_lem_example =
    let payload : Payload = record { encoding = binary; bytes = 9 ∷ [] } in
    let valid : IsSignal [] binary (9 ∷ []) = record {
      short = omega arith;
      aligned = tt;
      printable = tt;
    } in
    signal_lem quiet [] payload opened valid (omega arith) (λ m. refl)
