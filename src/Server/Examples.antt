-- ===== src/Server/Examples.antt =====
-- A server with one connection, whose application does nothing but answer, and the
-- theorems on what it does.
use webwire_go.Base.{
  Option, ◌+◌, ◌≡◌, refl, ◌≢◌, inl, true, false, none, some, [], ◌∷◌, ◌++◌, arith,
}
use webwire_go.Client.{fulfills, fails}
use webwire_go.Client.Understanding.{Understands}
use webwire_go.Connection.{accept_connection}
use webwire_go.Connection.Encoded.{VarMap, InfoMethods}
use webwire_go.Errors.{sess_not_found_err, req_srv_shutdown_err}
use webwire_go.Message.{Message, requires_reply}
use webwire_go.Message.Bodies.{parse_request, read_identifier}
use webwire_go.Message.Compose.{
  fill_reply, new_reply_message, new_special_request_reply_message, write_padding,
}
use webwire_go.Message.Parse.{form_of, parse, parse_form, parse_kind}
use webwire_go.Message.RoundTrip.{received}
use webwire_go.Payload.{Payload, binary, utf8}
use webwire_go.Runtime.{
  Bytes, panic, read_byte, session_connections_exceeded, slice_from, value, write,
}
use webwire_go.Runtime.Buffers.{write_bytes}
use webwire_go.Server.Dispatch.{handle_message}
use webwire_go.Server.Handlers.{
  RequestResult, Setup, World, fulfill_with, answered, found, handle_request,
  handle_session_restore, rejected,
}
use webwire_go.Server.Operations.{new_operations}
use webwire_go.Server.Replies.{error_reply_for, fail_msg, fail_msg_shutdown, fulfill_msg}
use webwire_go.Server.Restoration.{handle_session_restore-returns}
use webwire_go.Server.Service.{
  Behaves, Carries, IsReady, request_in_shutdown, request_rejected, request_served,
}

abbrev pub some_id : Bytes
some_id = 1 ∷ 2 ∷ 3 ∷ 4 ∷ 5 ∷ 6 ∷ 7 ∷ 8 ∷ []

abbrev pub greeting : Bytes
greeting = b'h' ∷ b'i' ∷ []

abbrev pub request_bytes : Bytes
request_bytes = 127 ∷ 1 ∷ 2 ∷ 3 ∷ 4 ∷ 5 ∷ 6 ∷ 7 ∷ 8 ∷ 0 ∷ b'h' ∷ b'i' ∷ []

abbrev the_request : Message
the_request = (received 127 some_id [] binary greeting).message

the_request-Carries : Carries request_bytes the_request
unfolding parse parse_kind parse_form form_of parse_request read_identifier read_byte slice_from
the_request-Carries = refl

abbrev the_answer : Payload
the_answer = record { encoding = utf8; bytes = greeting }

-- Information with one field, "u".
abbrev pub user_field : Bytes
user_field = b'u' ∷ []

abbrev pub one_field : InfoMethods
one_field = record { fields = λ info. user_field ∷ []; value_of = λ info field. info + 1 }

abbrev pub told : Option VarMap
told = some ((user_field, 6) ∷ [])

abbrev pub setup : RequestResult → Setup
setup result = record {
  sessions_enabled = true;
  on_request = λ m w. (w, result);
  on_signal = λ m w. w;
  on_session_lookup = λ key w. (w, found 1 2 told);
  info_methods = one_field;
  marshal = λ session. some session.key;
  session_info_parser = none;
  before_register = λ w. w.asr;
  write_fails = λ m w. false;
}

abbrev pub opened : World
opened = record {
  ops = new_operations;
  con = accept_connection 0 7;
  asr = record { max_conns = 1; registry = [] };
  sent = [];
}

pub opened-IsReady : IsReady opened
opened-IsReady = record {
  active = refl;
  running = refl;
  slots = inl refl;
  few_ops = omega arith;
  few_tasks = omega arith;
}

setup-Behaves : (message : Message) (result : RequestResult) → Behaves (setup result) message result
setup-Behaves message result = record { answers = λ w. refl; writes = λ m w. refl }

request_served_example :
    (handle_message (setup (answered (some the_answer))) request_bytes opened
      ≡ value (some (record opened { sent = (192 ∷ (some_id ++ greeting)) ∷ [] })))
    × Understands (192 ∷ (some_id ++ greeting)) (fulfills some_id the_answer)
unfolding requires_reply fulfill_msg new_reply_message fill_reply write write_bytes write_padding
request_served_example =
    request_served (setup (answered (some the_answer))) request_bytes the_request the_answer opened
      (192 ∷ (some_id ++ greeting)) refl refl the_request-Carries opened-IsReady
      (setup-Behaves the_request (answered (some the_answer))) refl

request_rejected_example :
    (handle_message (setup (rejected sess_not_found_err)) request_bytes opened
      ≡ value (some (record opened { sent = (3 ∷ some_id) ∷ [] })))
    × Understands (3 ∷ some_id) (fails some_id sess_not_found_err)
unfolding requires_reply fail_msg error_reply_for new_special_request_reply_message write
    write_bytes
request_rejected_example =
    request_rejected (setup (rejected sess_not_found_err)) request_bytes the_request
      sess_not_found_err opened (3 ∷ some_id) refl refl the_request-Carries opened-IsReady
      (setup-Behaves the_request (rejected sess_not_found_err)) refl

abbrev stopping : World
stopping = record opened { ops = record new_operations { current_ops = 1; shutdown = true } }

request_in_shutdown_example :
    (handle_message (setup (answered none)) request_bytes stopping
      ≡ value (some (record stopping { sent = (1 ∷ some_id) ∷ (191 ∷ some_id) ∷ [] })))
    × Understands (1 ∷ some_id) (fails some_id req_srv_shutdown_err)
unfolding fail_msg_shutdown new_special_request_reply_message write write_bytes handle_request
    fulfill_msg new_reply_message fill_reply write_padding fulfill_with
request_in_shutdown_example =
    request_in_shutdown (setup (answered none)) request_bytes the_request stopping (1 ∷ some_id)
      refl refl the_request-Carries refl refl refl refl

handle_session_restore-returns_example :
    handle_session_restore
      (setup (answered none))
      (received 32 some_id [] binary greeting).message
      opened
    ≢ panic session_connections_exceeded
handle_session_restore-returns_example =
    handle_session_restore-returns (setup (answered none))
      (received 32 some_id [] binary greeting).message opened session_connections_exceeded refl refl
      (omega arith)
