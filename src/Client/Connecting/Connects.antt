-- ===== src/Client/Connecting/Connects.antt =====
-- client/connect.go: when `connect` returns, and with what.
use webwire_go.Connection.Encoded.{VarMap, EncodedSession}
use webwire_go.Base.{◌≡◌, refl, ◌≢◌, ◌↔◌, ◌+◌, true, false, Bool, ℕ, Option, none, some, arith}
use webwire_go.Client.Connecting.{Client, Attempt, connect, after_dialing}
use webwire_go.Client.Link.{disconnected, connected}
use webwire_go.Errors.{RequestError, disconnected_err}
use webwire_go.Runtime.{Bytes, Go, value, panic, nil_dereference, ◌>>=◌}
use webwire_go.Socket.{dial}
use webwire_go.Socket.Health.{IsHealthy}

-- Nothing but the socket has changed.
abbrev pub IsUnconnected : Client → Client → Type 0
IsUnconnected before after = after ≡ record before { conn = after.conn }

some-ne-none : {A : Type 0} (a : A) → some a ≢ none
some-ne-none a = λ h. cc

module _ (unmarshal : Bytes → Option EncodedSession) (parser : Option (VarMap → ℕ)) where
  going_on : Attempt → Client → Go (Client × Option RequestError)
  going_on a clt = elim a.version_err [
    | some err ↦ value (clt, some err)
    | none ↦ (do d ← dial a.dialed clt.conn; value (after_dialing unmarshal parser a clt d))
  ]

  connect-goes_on :
      (a : Attempt) (clt : Client)
      → clt.status ≢ connected
      → connect unmarshal parser a clt ≡ going_on a clt
  unfolding connect going_on
  connect-goes_on a clt h = ground (arith, h)

  Outcome : Attempt → Client → Go (Client × Option RequestError) → Type 0
  Outcome a clt g =
      (after : Client) × (err : Option RequestError) × (g ≡ value (after, err))
      × ((err ≡ none) ↔ ((a.version_err ≡ none) × (a.dialed ≢ none)))
      × (err ≡ none
          → (after.status ≡ connected)
            × (after.readers ≡ clt.readers + 1)
            × (after.conn ≡ record { connected = true; conn = a.dialed }))
      × (err ≢ none
          → (after ≡ record clt { conn = after.conn })
            × (err ≡ (elim a.version_err [ none ↦ some disconnected_err | some e ↦ some e ])))

  going_on-Outcome :
      (a : Attempt) (clt : Client) (version_err : Option RequestError) (dialed : Option ℕ)
      (is_connected : Bool) (conn : Option ℕ)
      → IsHealthy (record { connected = is_connected; conn = conn })
      → let a' = record a { version_err = version_err; dialed = dialed } in
        let clt' = record clt { conn = record { connected = is_connected; conn = conn } } in
        Outcome a' clt' (going_on a' clt')
  unfolding Outcome going_on dial after_dialing
  going_on-Outcome a clt (some e) d k c h = (
    _,
    _,
    refl,
    ((λ x. absurd (some-ne-none _ x)), λ x. absurd (some-ne-none _ x.0)),
    (λ x. absurd (some-ne-none _ x)),
    λ x. (refl, refl),
  )
  going_on-Outcome a clt none d true none h = absurd (h refl refl)
  going_on-Outcome a clt none none true (some c) h = (
    _,
    _,
    refl,
    ((λ x. absurd (some-ne-none _ x)), λ x. absurd (x.1 refl)),
    (λ x. absurd (some-ne-none _ x)),
    λ x. (refl, refl),
  )
  going_on-Outcome a clt none none false c h = (
    _,
    _,
    refl,
    ((λ x. absurd (some-ne-none _ x)), λ x. absurd (x.1 refl)),
    (λ x. absurd (some-ne-none _ x)),
    λ x. (refl, refl),
  )
  going_on-Outcome a clt none (some d) true (some c) h = (
    _,
    _,
    refl,
    ((λ x. (refl, some-ne-none _)), λ x. refl),
    (λ x. (refl, refl, refl)),
    λ x. absurd (x refl),
  )
  going_on-Outcome a clt none (some d) false c h = (
    _,
    _,
    refl,
    ((λ x. (refl, some-ne-none _)), λ x. refl),
    (λ x. (refl, refl, refl)),
    λ x. absurd (x refl),
  )

  -- On a client that is not connected, with a healthy socket, `connect` returns: without an error
  -- exactly if the version was verified and the dialing succeeded, and then the client is connected
  -- over what was dialed and has one more reader; otherwise the error is that of the verification or a
  -- DisconnectedErr, and nothing but the socket has changed.
  pub connect_lem :
      (a : Attempt) (clt : Client)
      → clt.status ≢ connected
      → IsHealthy clt.conn
      → (after : Client) × (err : Option RequestError) × (connect unmarshal parser a clt
          ≡ value (after, err))
        × ((err ≡ none) ↔ ((a.version_err ≡ none) × (a.dialed ≢ none)))
        × (err ≡ none
            → (after.status ≡ connected)
              × (after.readers ≡ clt.readers + 1)
              × (after.conn ≡ record { connected = true; conn = a.dialed }))
        × (err ≢ none
            → (after ≡ record clt { conn = after.conn })
              × (err ≡ (elim a.version_err [ none ↦ some disconnected_err | some e ↦ some e ])))
  unfolding Outcome
  connect_lem a clt n h =
      rw (connect-goes_on a clt n)
        (going_on-Outcome a clt a.version_err a.dialed clt.conn.connected clt.conn.conn h)

  -- A client that has connected, lost its connection, and failed to dial at its first attempt to
  -- connect again, panics at the next attempt at which it finds the server compatible.
  pub reconnect_panics :
      (first second third : Attempt) (before clt : Client)
      → before.status ≢ connected
      → connect unmarshal parser first before ≡ value (clt, none)
      → second.version_err ≡ none
      → second.dialed ≡ none
      → third.version_err ≡ none
      → (connect unmarshal parser second (record clt { status = disconnected })
          >>= (λ r. connect unmarshal parser third r.0))
        ≡ panic nil_dereference
  unfolding connect dial after_dialing
  reconnect_panics first second third before clt n h v d w = ground (arith, n, h, v, d, w)
