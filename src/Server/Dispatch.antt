-- ===== src/Server/Dispatch.antt =====
-- handleMessage.go: the registration of a handler, and the dispatch of a message to it.
-- What `registerHandler` comes to. It blocks as long as all handler slots are taken.
use webwire_go.Base.{ltb, ◌==◌, if◌then◌else◌, ◌+◌, ◌-◌, Bool, not, ◌&&◌, ◌||◌, Option, none, some}
use webwire_go.Connection.{Connection, register_task, deregister_task, unlink_if}
use webwire_go.Errors.{RequestError, protocol_err}
use webwire_go.Message.{
  msg_close_session, msg_restore_session, msg_signal_binary, msg_signal_utf8, msg_signal_utf16,
  msg_request_binary, msg_request_utf8, msg_request_utf16, Message, zero_message, requires_reply,
}
use webwire_go.Message.Parse.{Parsed, parse}
use webwire_go.Registry.{SessionRegistry}
use webwire_go.Runtime.{Bytes, Go, value, ◌>>=◌}
use webwire_go.Server.Handlers.{
  World, Setup, sock_write, fail_with, handle_request, handle_session_closure,
  handle_session_restore,
}
use webwire_go.Server.Operations.{Operations, enter_handler, enter_signal, leave}
use webwire_go.Server.Replies.{fail_msg_shutdown}

pub data Registration : Type 0 where
  blocked : Registration
  registered unregistered : World → Registration

-- `con.handlerSlots.Acquire`, if the number of handlers is limited; `none` if it blocks.
unfoldable pub acquire_slot : Connection → Option Connection
acquire_slot con =
    if ltb 0 con.concurrency_limit
    then if ltb con.slots_used con.concurrency_limit
      then some (record con { slots_used = con.slots_used + 1 })
      else none
    else some con

unfoldable pub release_slot : Connection → Connection
release_slot con =
    if ltb 0 con.concurrency_limit then record con { slots_used = con.slots_used - 1 } else con

unfoldable pub after_count : Setup → Message → World → Operations × Bool → Go Registration
after_count srv message w (ops, fail) =
    if fail && requires_reply message
    then (do
      m ← fail_msg_shutdown message
      value (unregistered (sock_write srv m (record w { ops = ops })).0))
    else value (registered (record w { ops = ops; con = register_task w.con }))

unfoldable pub register_handler : Setup → Message → World → Go Registration
unfolding after_count
register_handler srv message w =
    if not w.con.is_active then value (unregistered w) else elim (acquire_slot w.con) [
      | none ↦ value blocked
      | some con ↦
          after_count srv message (record w { con = con }) (enter_handler con.is_active w.ops)
    ]

unfoldable pub after_task : World → SessionRegistry × Connection → World
after_task w (asr, con) = record w { asr = asr; con = release_slot con }

unfoldable pub deregister_handler : World → Go World
unfolding after_task
deregister_handler w = do
  ops ← leave w.ops
  value (after_task (record w { ops = ops }) (unlink_if w.asr (deregister_task w.con)))

unfoldable pub after_signal_entry : Setup → Message → World → Operations × Bool → Go World
after_signal_entry srv message w (ops, goes_on) = if not goes_on then value w else (do
  let after = srv.on_signal message (record w { ops = ops })
  left ← leave after.ops
  value (record after { ops = left }))

unfoldable pub handle_signal : Setup → Message → World → Go World
unfolding after_signal_entry
handle_signal srv message w = after_signal_entry srv message w (enter_signal w.ops)

-- The `switch` of `handleMessage`, which has no case for what only a server sends.
unfoldable pub dispatch : Setup → Message → World → Go World
dispatch srv message w =
    if message.kind == msg_signal_binary
      || message.kind == msg_signal_utf8
      || message.kind == msg_signal_utf16
    then handle_signal srv message w
    else if message.kind == msg_request_binary
        || message.kind == msg_request_utf8
        || message.kind == msg_request_utf16
    then handle_request srv message w
    else if message.kind == msg_restore_session
    then handle_session_restore srv message w
    else if message.kind == msg_close_session
    then handle_session_closure srv message w
    else value w

-- `none` if the handler blocks for a slot.
unfoldable pub after_registration : Setup → Message → Registration → Go (Option World)
after_registration srv message blocked = value none
after_registration srv message (registered w) = do
  done ← dispatch srv message w
  left ← deregister_handler done
  value (some left)
after_registration srv message (unregistered w) = do
  done ← dispatch srv message w
  value (some done)

abbrev malformed : Option RequestError
malformed = some protocol_err

unfoldable pub after_parsing : Setup → World → Parsed → Go (Option World)
unfolding after_registration
after_parsing srv w parsed = if not parsed.type_parsed then value (some w) else elim parsed.error [
  | some _ ↦ (do done ← fail_with srv parsed.message malformed w; value (some done))
  | none ↦ (do
    registration ← register_handler srv parsed.message w
    after_registration srv parsed.message registration)
]

unfoldable pub handle_message : Setup → Bytes → World → Go (Option World)
unfolding after_parsing
handle_message srv message w = do parsed ← parse zero_message message; after_parsing srv w parsed
