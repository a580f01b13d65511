-- ===== src/Server/Answers.antt =====
-- When failMsg of handleMessage.go has an answer.
-- What the application has to respect in an error that it returns from `OnRequest`.
use webwire_go.Base.{length, ℕ, ◌≡◌, refl, ◌↔◌, true, Option, none, some, ◌∷◌, append-nil, arith}
use webwire_go.Errors.{
  RequestError, conn_incomp_err, req_trans_err, req_srv_shutdown_err, req_internal_err, timeout_err,
  deadline_exceeded_err, req_err, sessions_disabled_err, sess_not_found_err,
  max_sess_conns_reached_err, disconnected_err, protocol_err, canceled_err, other_err,
}
use webwire_go.Message.{
  msg_internal_error, msg_session_not_found, msg_max_sess_conns_reached, msg_sessions_disabled,
  msg_reply_protocol_error, Message, requires_reply,
}
use webwire_go.Message.Compose.{is_special, new_special_request_reply_message}
use webwire_go.Message.Layout.{new_special_request_reply_message-layout}
use webwire_go.Message.Validity.{IsErrorCode, new_error_reply_message-eq_value}
use webwire_go.Runtime.{Bytes, Panic, Go, value, panic}
use webwire_go.Server.Replies.{error_reply_for, fail_msg}

abbrev pub IsSendable : Option RequestError → Type 0
IsSendable (some (req_err code text)) = IsErrorCode code
IsSendable _ = Unit

module _ (identifier : Bytes) (id_length : length identifier ≡ 8) where
  special_sent :
      (kind : ℕ)
      → is_special kind ≡ true
      → (m : Bytes) × (new_special_request_reply_message kind identifier ≡ value m)
  special_sent kind h = (
    kind ∷ identifier,
    ground (
      arith,
      new_special_request_reply_message-layout identifier id_length kind,
      append-nil identifier,
    ),
  )

  pub error_reply-sent :
      (err : Option RequestError)
      → IsSendable err
      → (m : Bytes) × (error_reply_for identifier err ≡ value m)
  unfolding error_reply_for
  error_reply-sent (some (req_err code text)) h =
      (_, (new_error_reply_message-eq_value identifier id_length code text _).1 (h, refl))
  error_reply-sent (some max_sess_conns_reached_err) h =
      special_sent msg_max_sess_conns_reached refl
  error_reply-sent (some sess_not_found_err) h = special_sent msg_session_not_found refl
  error_reply-sent (some sessions_disabled_err) h = special_sent msg_sessions_disabled refl
  error_reply-sent (some protocol_err) h = special_sent msg_reply_protocol_error refl
  error_reply-sent (some conn_incomp_err) h = special_sent msg_internal_error refl
  error_reply-sent (some req_trans_err) h = special_sent msg_internal_error refl
  error_reply-sent (some req_srv_shutdown_err) h = special_sent msg_internal_error refl
  error_reply-sent (some req_internal_err) h = special_sent msg_internal_error refl
  error_reply-sent (some timeout_err) h = special_sent msg_internal_error refl
  error_reply-sent (some deadline_exceeded_err) h = special_sent msg_internal_error refl
  error_reply-sent (some disconnected_err) h = special_sent msg_internal_error refl
  error_reply-sent (some canceled_err) h = special_sent msg_internal_error refl
  error_reply-sent (some other_err) h = special_sent msg_internal_error refl
  error_reply-sent none h = special_sent msg_internal_error refl

  sendable :
      (err : Option RequestError) (m : Bytes)
      → error_reply_for identifier err ≡ value m
      → IsSendable err
  unfolding error_reply_for
  sendable (some (req_err code text)) m h =
      ((new_error_reply_message-eq_value identifier id_length code text m).0 h).0
  sendable (some max_sess_conns_reached_err) m h = tt
  sendable (some sess_not_found_err) m h = tt
  sendable (some sessions_disabled_err) m h = tt
  sendable (some protocol_err) m h = tt
  sendable (some conn_incomp_err) m h = tt
  sendable (some req_trans_err) m h = tt
  sendable (some req_srv_shutdown_err) m h = tt
  sendable (some req_internal_err) m h = tt
  sendable (some timeout_err) m h = tt
  sendable (some deadline_exceeded_err) m h = tt
  sendable (some disconnected_err) m h = tt
  sendable (some canceled_err) m h = tt
  sendable (some other_err) m h = tt
  sendable none m h = tt

refused :
    (message : Message) (err : Option RequestError) (r : Go Bytes)
    → length message.identifier ≡ 8
    → error_reply_for message.identifier err ≡ r
    → requires_reply message ≡ true
    → ¬ (IsSendable err)
    → (p : Panic) × (fail_msg message err ≡ panic p)
unfolding fail_msg
refused message err (value m) n e h s = absurd (s (sendable message.identifier n err m e))
refused message err (panic p) n e h s = (p, rw (h, e) refl)

-- failMsg answers a message that requires a reply exactly if its error is not a ReqErr with a code
-- that is empty, longer than 255 bytes or not printable; for such a code, it panics.
fail_msg-answers :
    (message : Message) (err : Option RequestError)
    → length message.identifier ≡ 8
    → requires_reply message ≡ true
    → (((m : Bytes) × (fail_msg message err ≡ value (some m))) ↔ IsSendable err)
      × (¬ (IsSendable err) → (p : Panic) × (fail_msg message err ≡ panic p))
unfolding fail_msg
fail_msg-answers message err n h = (
  (
    λ (m, e). sendable message.identifier n err m (ground arith),
    λ s. let (m, e) = error_reply-sent message.identifier n err s in (m, rw (h, e) refl),
  ),
  refused message err _ n refl h,
)
