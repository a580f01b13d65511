-- ===== src/Errors.antt =====
-- errors.go and translateContextError.go: the errors that a request can end with. The texts of
-- causes are not modelled.
use webwire_go.Base.{Bool, true, false}
use webwire_go.Runtime.{Bytes}

pub data RequestError : Type 0 where
  conn_incomp_err : RequestError
  req_trans_err : RequestError
  req_srv_shutdown_err : RequestError
  req_internal_err : RequestError
  timeout_err : RequestError
  deadline_exceeded_err : RequestError
  req_err : Bytes → Bytes → RequestError
  sessions_disabled_err : RequestError
  sess_not_found_err : RequestError
  max_sess_conns_reached_err : RequestError
  disconnected_err : RequestError
  protocol_err : RequestError
  canceled_err : RequestError
  other_err : RequestError

-- `context.DeadlineExceeded`, `context.Canceled` and any other error of a context.
pub data ContextError : Type 0 where
  exceeded cancelled unexpected : ContextError

unfoldable pub translate_context_error : ContextError → RequestError
translate_context_error exceeded = deadline_exceeded_err
translate_context_error cancelled = canceled_err
translate_context_error unexpected = other_err

unfoldable pub is_timeout_err : RequestError → Bool
is_timeout_err timeout_err = true
is_timeout_err deadline_exceeded_err = true
is_timeout_err _ = false

unfoldable pub is_canceled_err : RequestError → Bool
is_canceled_err canceled_err = true
is_canceled_err _ = false
