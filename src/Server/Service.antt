-- ===== src/Server/Service.antt =====
-- What becomes of a message, from its bytes to its reply: handleMessage.go and the handlers.
use webwire_go.Client.{fails}
use webwire_go.Base.{
  ltb, ◌==◌, if◌then◌else◌, length, ◌+◌, ◌^◌, ◌<◌, ◌≡◌, refl, ◌⊎◌, Bool, true, false, ◌||◌, none,
  some, List, [], ◌∷◌, ◌++◌, arith,
}
use webwire_go.Client.Understanding.{
  understood, understood_reply, Understands, fulfill_msg-understood, fail_msg-understood,
  fail_msg_shutdown-understood,
}
use webwire_go.Connection.{register_task, deregister_task}
use webwire_go.Errors.{RequestError, req_srv_shutdown_err}
use webwire_go.Message.{
  msg_request_binary, msg_request_utf8, msg_request_utf16, Message, zero_message, requires_reply,
}
use webwire_go.Message.Parse.{parse}
use webwire_go.Payload.{Payload}
use webwire_go.Server.Dispatch.{
  registered, unregistered, acquire_slot, release_slot, after_count, register_handler,
  deregister_handler, dispatch, after_registration, after_parsing, handle_message,
}
use webwire_go.Runtime.{Bytes, value, ◌>>=◌}
use webwire_go.Server.Handlers.{
  World, RequestResult, answered, rejected, Setup, sock_write, fail_with, fulfill_with,
  after_request, handle_request,
}
use webwire_go.Server.Operations.{enter_handler, leave}
use webwire_go.Server.Replies.{fail_msg, fulfill_msg, fail_msg_shutdown}

abbrev pub is_request : Message → Bool
is_request message =
    message.kind == msg_request_binary
    || message.kind == msg_request_utf8
    || message.kind == msg_request_utf16

-- A message that `Parse` accepts.
abbrev pub Carries : Bytes → Message → Type 0
Carries m message =
    parse zero_message m ≡ value (record { message = message; type_parsed = true; error = none })

-- There is room for one more handler, on an active connection of a server that is not stopping.
pub record IsReady (w : World) : Type 0 where
  pub active : w.con.is_active ≡ true
  pub running : w.ops.shutdown ≡ false
  pub slots : (w.con.concurrency_limit ≡ 0) ⊎ (w.con.slots_used < w.con.concurrency_limit)
  pub few_ops : w.ops.current_ops + 1 < 2 ^ 32
  pub few_tasks : w.con.tasks + 1 < 2 ^ 31

request_requires_reply :
    (message : Message) → is_request message ≡ true → requires_reply message ≡ true
unfolding requires_reply
request_requires_reply message h = ground arith

dispatch-request :
    (srv : Setup) (message : Message) (w : World)
    → is_request message ≡ true
    → dispatch srv message w ≡ handle_request srv message w
unfolding dispatch
dispatch-request srv message w h = ground arith

unfoldable entered : World → World
entered w = record w {
  ops = record (w.ops) { current_ops = w.ops.current_ops + 1 };
  con = record (w.con) {
    tasks = w.con.tasks + 1;
    slots_used = if ltb 0 w.con.concurrency_limit then w.con.slots_used + 1 else w.con.slots_used;
  };
}

register_handler-ready :
    (srv : Setup) (message : Message) (w : World)
    → IsReady w
    → register_handler srv message w ≡ value (registered (entered w))
unfolding register_handler acquire_slot enter_handler register_task entered
register_handler-ready srv message w r =
    ground (arith, r.active, r.running, r.slots, r.few_ops, r.few_tasks)

deregister_handler-entered :
    (w : World) (sent : List Bytes)
    → IsReady w
    → deregister_handler (record (entered w) { sent = sent }) ≡ value (record w { sent = sent })
unfolding deregister_handler leave deregister_task release_slot entered
deregister_handler-entered w sent r =
    ground (arith, r.active, r.running, r.slots, r.few_ops, r.few_tasks)

handle_message-parsed :
    (srv : Setup) (m : Bytes) (message : Message) (w : World)
    → Carries m message
    → handle_message srv m w ≡ (
        register_handler srv message w
        >>= (λ registration. after_registration srv message registration))
unfolding handle_message after_parsing
handle_message-parsed srv m message w h = rw h refl

-- A request that reaches a server with room for its handler, whose handler changes nothing but what
-- was sent, leaves the counters, the connection and the registry as they were.
handle_message-ready :
    (srv : Setup) (m : Bytes) (message : Message) (w : World) (sent : List Bytes)
    → Carries m message
    → IsReady w
    → dispatch srv message (entered w) ≡ value (record (entered w) { sent = sent })
    → handle_message srv m w ≡ value (some (record w { sent = sent }))
unfolding after_registration
handle_message-ready srv m message w sent h r d =
    rw
      (
        handle_message-parsed srv m message w h,
        register_handler-ready srv message w r,
        d,
        deregister_handler-entered w sent r,
      )
      refl

-- The application answers the request with this result, in any state, and changes nothing itself,
-- and the socket can be written to.
pub record Behaves (srv : Setup) (message : Message) (result : RequestResult) : Type 0 where
  pub answers : (w : World) → srv.on_request message w ≡ (w, result)
  pub writes : (m : Bytes) (w : World) → srv.write_fails m w ≡ false

-- On a server with room for its handler, over a socket that can be written to, for an application
-- that answers a request with a payload and changes nothing itself, and if a reply can be composed
-- of that payload (of UTF16 data of odd length none can): the request is answered with exactly one
-- message, which the client takes as the fulfilment of the request of that identifier with that
-- payload, and all counters are as before.
pub request_served :
    (srv : Setup) (m : Bytes) (message : Message) (payload : Payload) (w : World) (reply : Bytes)
    → length message.identifier ≡ 8
    → is_request message ≡ true
    → Carries m message
    → IsReady w
    → Behaves srv message (answered (some payload))
    → fulfill_msg message payload.encoding payload.bytes ≡ value reply
    → (handle_message srv m w ≡ value (some (record w { sent = w.sent ++ (reply ∷ []) })))
      × Understands reply (understood_reply message.identifier payload)
unfolding handle_request after_request fulfill_with sock_write entered
request_served srv m message payload w reply n q h r b f = (
  handle_message-ready srv m message w (w.sent ++ (reply ∷ [])) h r (
      rw
        (
          dispatch-request srv message (entered w) q,
          b.answers (entered w),
          f,
          b.writes reply (entered w),
        )
        refl),
  fulfill_msg-understood message n payload.encoding payload.bytes reply f,
)

-- On a server with room for its handler, over a socket that can be written to, for an application
-- that rejects a request with an error and changes nothing itself, and if a reply can be composed of
-- that error (of a code that is empty, overlong or unprintable none can): the request is answered
-- with exactly one message, which means to the client what that error is understood as, and all
-- counters are as before.
pub request_rejected :
    (srv : Setup) (m : Bytes) (message : Message) (err : RequestError) (w : World) (reply : Bytes)
    → length message.identifier ≡ 8
    → is_request message ≡ true
    → Carries m message
    → IsReady w
    → Behaves srv message (rejected err)
    → fail_msg message (some err) ≡ value (some reply)
    → (handle_message srv m w ≡ value (some (record w { sent = w.sent ++ (reply ∷ []) })))
      × Understands reply (understood message.identifier (some err))
unfolding handle_request after_request fail_with sock_write entered
request_rejected srv m message err w reply n q h r b f = (
  handle_message-ready srv m message w (w.sent ++ (reply ∷ [])) h r (
      rw
        (
          dispatch-request srv message (entered w) q,
          b.answers (entered w),
          f,
          b.writes reply (entered w),
        )
        refl),
  fail_msg-understood message n (some err) reply f,
)

register_handler-in_shutdown :
    (srv : Setup) (message : Message) (w : World) (reply : Bytes)
    → requires_reply message ≡ true
    → w.con.is_active ≡ true
    → w.con.concurrency_limit ≡ 0
    → w.ops.shutdown ≡ true
    → fail_msg_shutdown message ≡ value reply
    → register_handler srv message w ≡ value (unregistered (sock_write srv reply w).0)
unfolding register_handler acquire_slot enter_handler after_count
register_handler-in_shutdown srv message w reply q a l s f = ground arith

-- On a server that is stopping, a request over an active connection without a limit of handlers is
-- answered with a reply that tells the client of the shutdown, and is then handled by the application
-- all the same.
pub request_in_shutdown :
    (srv : Setup) (m : Bytes) (message : Message) (w : World) (reply : Bytes)
    → length message.identifier ≡ 8
    → is_request message ≡ true
    → Carries m message
    → w.con.is_active ≡ true
    → w.con.concurrency_limit ≡ 0
    → w.ops.shutdown ≡ true
    → fail_msg_shutdown message ≡ value reply
    → (handle_message srv m w
        ≡ (do done ← handle_request srv message (sock_write srv reply w).0; value (some done)))
      × Understands reply (fails message.identifier req_srv_shutdown_err)
unfolding after_registration
request_in_shutdown srv m message w reply n q h a l s f = (
  rw
      (
        handle_message-parsed srv m message w h,
        register_handler-in_shutdown srv message w reply (request_requires_reply message q) a l s f,
        dispatch-request srv message (sock_write srv reply w).0 q,
      )
      refl,
  fail_msg_shutdown-understood message n reply f,
)
