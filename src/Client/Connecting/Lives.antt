-- ===== src/Client/Connecting/Lives.antt =====
-- client/client.go and client/newClient.go: a client over any sequence of calls of Connect and Close
-- and of losses of its connection, one after the other.
use webwire_go.Connection.Encoded.{VarMap, EncodedSession}
use webwire_go.Base.{
  if◌then◌else◌, ◌==◌, ◌≡◌, ◌≢◌, inl, inr, true, false, not, Bool, ℕ, Option, none, arith,
}
use webwire_go.Client.Connecting.{
  Client, Attempt, connect_client, connect, after_dialing, close, new_client, autoconnect_disabled,
  autoconnect_deactivated, autoconnect_enabled,
}
use webwire_go.Client.Link.{disconnected, connected}
use webwire_go.Errors.{RequestError}
use webwire_go.Options.{ClientOptions, Objects, option_disabled, set_client_defaults}
use webwire_go.Runtime.{Bytes, Go-cases, value}
use webwire_go.Socket.{dial, close_socket}

module _ (unmarshal : Bytes → Option EncodedSession) (parser : Option (VarMap → ℕ)) where
  -- The Boolean says whether Close was called after the last call of Connect.
  pub data Life (s : Client) : Bool → Client → Type 0 where
    begins : Life s false s
    connects :
        {closed : Bool} {t u : Client} (a : Attempt) (err : Option RequestError)
        → Life s closed t
        → connect_client unmarshal parser a t ≡ value (u, err)
        → Life s false u
    closes :
        {closed : Bool} {t u : Client} (fails : Bool)
        → Life s closed t
        → close fails t ≡ value u
        → Life s true u
    -- a reader has met an error
    loses :
        {closed : Bool} {t : Client}
        → Life s closed t
        → Life s closed (record t { status = disconnected })

  record Inv (autoconnects closed : Bool) (t : Client) : Type 0 where
    status_now : t.autoconnect ≡ (
        if autoconnects
        then (if closed then autoconnect_deactivated else autoconnect_enabled)
        else autoconnect_disabled)
    has_conn : t.status ≡ connected → t.conn.conn ≢ none

  connect_client-Inv :
      {on closed : Bool} {t u : Client} (a : Attempt) (err : Option RequestError)
      → connect_client unmarshal parser a t ≡ value (u, err)
      → Inv on closed t
      → Inv on false u
  unfolding connect_client connect after_dialing dial
  connect_client-Inv a err e i = record {
    status_now = ground (arith, e, i.status_now);
    has_conn = λ c. ground (arith, e, i.has_conn, c);
  }

  close-Inv :
      {on closed : Bool} {t u : Client} (fails : Bool)
      → close fails t ≡ value u
      → Inv on closed t
      → Inv on true u
  unfolding close close_socket
  close-Inv fails e i = record {
    status_now = ground (arith, e, i.status_now);
    has_conn = ground (arith, e, i);
  }

  Life-Inv : {s t : Client} {on closed : Bool} → Inv on false s → Life s closed t → Inv on closed t
  Life-Inv i begins = i
  Life-Inv i (connects a err l e) = connect_client-Inv a err e (Life-Inv i l)
  Life-Inv i (closes fails l e) = close-Inv fails e (Life-Inv i l)
  Life-Inv i (loses l) =
      let j = Life-Inv i l in record { status_now = j.status_now; has_conn = λ h. cc }

  close-returns :
      (fails : Bool) (t : Client)
      → (t.status ≡ connected → t.conn.conn ≢ none)
      → (u : Client) × (close fails t ≡ value u)
  unfolding close close_socket
  close-returns fails t h = elim (Go-cases (close fails t)) [
    | inl ok ↦ ok
    | inr (p, e) ↦ absurd (ground (arith, e, h))
  ]

  new_client-starts :
      (objects : Objects) (opts : ClientOptions)
      → (new_client objects opts).1 ≡ not (opts.autoconnect == option_disabled)
  unfolding new_client set_client_defaults
  new_client-starts objects opts = ground arith

  new_client-Inv :
      (objects : Objects) (opts : ClientOptions)
      → Inv (new_client objects opts).1 false (new_client objects opts).0
  unfolding new_client set_client_defaults
  new_client-Inv objects opts = record { status_now = ground arith; has_conn = λ h. cc }

  -- Over any sequence of calls of Connect and Close and of losses of the connection: a new client
  -- starts to connect by itself exactly if autoconnect is not disabled in its options; if it is
  -- disabled, it stays so; otherwise it is deactivated while Close was called after the last call
  -- of Connect, and enabled else; and Close, up to its wait for the reader, never panics.
  pub autoconnect_follows :
      (objects : Objects) (opts : ClientOptions) {closed : Bool} {t : Client}
      → Life (new_client objects opts).0 closed t
      → (opts.autoconnect ≡ option_disabled → t.autoconnect ≡ autoconnect_disabled)
        × (opts.autoconnect ≢ option_disabled
            → t.autoconnect ≡ (if closed then autoconnect_deactivated else autoconnect_enabled))
        × ((new_client objects opts).1 ≡ not (opts.autoconnect == option_disabled))
        × ((fails : Bool) → (u : Client) × (close fails t ≡ value u))
  autoconnect_follows objects opts l =
      let i = Life-Inv (new_client-Inv objects opts) l in
      let starts = new_client-starts objects opts in
      (
        (λ h. ground (arith, i.status_now, starts, h)),
        (λ h. ground (arith, i.status_now, starts, h)),
        starts,
        λ fails. close-returns fails _ i.has_conn,
      )
