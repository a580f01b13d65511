-- ===== src/RequestManager/Steps.antt =====
-- The goroutines around a request manager: the callers of `AwaitReply`, one for each request, and
-- the client's reader, which is the one that calls `Fulfill` and `Fail`. Each access to the manager
-- under its lock, each choice of a `select` and each hand-over through a request's channel is a
-- step. The channel has no buffer, so a hand-over takes a sender and a receiver at once.
use webwire_go.Base.{ℕ, ◌+◌, ◌^◌, ◌<◌, ◌≡◌, true, false}
use webwire_go.Errors.{
  RequestError, req_trans_err, timeout_err, ContextError, translate_context_error,
}
use webwire_go.Payload.{Payload}
use webwire_go.RequestManager.{
  deregister, RequestIdentifier, RequestManager, new_request_manager, create, is_pending,
}
use webwire_go.Runtime.{bytes_discrete}
use mathlib.Core.Logic.{ite}

-- `reply` of requestManager.go: a payload or an error.
pub data Reply : Type 0 where
  fulfilled : Payload → Reply
  failed : RequestError → Reply

-- What `AwaitReply` returns.
pub data Result : Type 0 where
  replied : Payload → Result
  errored : RequestError → Result

abbrev pub result_of : Reply → Result
result_of (fulfilled payload) = replied payload
result_of (failed error) = errored error

-- A requester between `Create` and its return: about to write the message, in the `select` of
-- `AwaitReply`, about to deregister after a timeout or a cancelled context, and returned.
pub data Phase : Type 0 where
  absent : Phase
  sending : Phase
  awaiting : Phase
  leaving : RequestError → Phase
  finished : Result → Phase

-- The reader between two messages, about to send on a request's channel, and about to deregister.
pub data Reader : Type 0 where
  idle : Reader
  delivering : RequestIdentifier → Reply → Reader
  cleaning : RequestIdentifier → Reader

pub record State : Type 0 where
  pub manager : RequestManager
  pub phase : RequestIdentifier → Phase
  pub reader : Reader

abbrev pub update :
    (RequestIdentifier → Phase) → RequestIdentifier → Phase → RequestIdentifier → Phase
update phase id p k = ite (bytes_discrete id k) p (phase k)

-- The errors of the first two cases of the `select`.
pub data Expires : RequestError → Type 0 where
  timed_out : Expires timeout_err
  done : (c : ContextError) → Expires (translate_context_error c)

pub data Step (s : State) : State → Type 0 where
  start :
      (timeout : ℕ)
      → s.manager.last_id + 1 < 2 ^ 64
      → Step s (record s {
        manager = (create s.manager timeout).0;
        phase = update s.phase (create s.manager timeout).1.identifier sending;
      })
  send :
      {id : RequestIdentifier}
      → s.phase id ≡ sending
      → Step s (record s { phase = update s.phase id awaiting })
  -- `return nil, webwire.NewReqTransErr(err)`
  send_fails :
      {id : RequestIdentifier}
      → s.phase id ≡ sending
      → Step s (record s { phase = update s.phase id (finished (errored req_trans_err)) })
  expire :
      {id : RequestIdentifier} {e : RequestError}
      → s.phase id ≡ awaiting
      → Expires e
      → Step s (record s { phase = update s.phase id (leaving e) })
  leave :
      {id : RequestIdentifier} {e : RequestError}
      → s.phase id ≡ leaving e
      → Step s (record s {
        manager = deregister s.manager id;
        phase = update s.phase id (finished (errored e));
      })
  look_up :
      (id : RequestIdentifier) (r : Reply)
      → s.reader ≡ idle
      → is_pending s.manager id ≡ true
      → Step s (record s { reader = delivering id r })
  -- The reply is for no pending request: `Fulfill` and `Fail` return false.
  miss : (id : RequestIdentifier) → s.reader ≡ idle → is_pending s.manager id ≡ false → Step s s
  hand_over :
      {id : RequestIdentifier} {r : Reply}
      → s.reader ≡ delivering id r
      → s.phase id ≡ awaiting
      → Step s
          (record s { phase = update s.phase id (finished (result_of r)); reader = cleaning id })
  clean :
      {id : RequestIdentifier}
      → s.reader ≡ cleaning id
      → Step s (record s { manager = deregister s.manager id; reader = idle })

unfoldable pub initial : State
initial = record { manager = new_request_manager; phase = λ id. absent; reader = idle }

pub data Reach (s : State) : State → Type 0 where
  here : Reach s s
  next : {t u : State} → Reach s t → Step t u → Reach s u
