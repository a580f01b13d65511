-- ===== src/Socket/Health.antt =====
-- When the methods of socketImpl.go are safe to call.
use webwire_go.Base.{
  ℕ, ◌≡◌, refl, ◌≢◌, ◌↔◌, ◌⊎◌, inl, inr, Bool, true, false, Option, none, some, arith,
}
use mathlib.Core.Bool.{false≢true}
use webwire_go.Runtime.{nil_dereference, value, panic, ◌>>=◌}
use webwire_go.Socket.{Socket, dial, write_socket}

-- A socket that says it is connected has a connection.
abbrev pub IsHealthy : Socket → Type 0
IsHealthy sock = sock.connected ≡ true → sock.conn ≢ none

abbrev DialsWell : Option ℕ → Socket → Type 0
DialsWell result s =
    (t : Socket) × (e : Bool) × (dial result s ≡ value (t, e))
    × ((e ≡ true) ↔ (result ≡ none))
    × (IsHealthy t ↔ ((s.connected ≡ false) ⊎ (result ≢ none)))

dial_cases :
    (result : Option ℕ) (connected : Bool) (conn : Option ℕ)
    → IsHealthy (record { connected = connected; conn = conn })
    → DialsWell result (record { connected = connected; conn = conn })
unfolding dial
dial_cases result true none h = absurd (h refl refl)
dial_cases none true (some c) h =
    (_, _, refl, ((λ x. refl), λ x. refl), ((λ x. absurd (x refl refl)), λ x. ground arith))
dial_cases none false conn h =
    (_, _, refl, ((λ x. refl), λ x. refl), ((λ x. inl refl), λ x y. absurd (false≢true y)))
dial_cases (some r) true (some c) h =
    (_, _, refl, ((λ x. absurd (false≢true x)), λ x. cc), ((λ x. inr (λ y. cc)), λ x y z. cc))
dial_cases (some r) false conn h =
    (_, _, refl, ((λ x. absurd (false≢true x)), λ x. cc), ((λ x. inl refl), λ x y z. cc))

-- Dial on a healthy socket returns, with an error exactly if the library's dialer fails; the socket
-- is healthy after it unless it said that it was connected and the dialer failed.
dial-IsHealthy :
    (result : Option ℕ) (s : Socket)
    → IsHealthy s
    → (t : Socket) × (e : Bool) × (dial result s ≡ value (t, e))
      × ((e ≡ true) ↔ (result ≡ none))
      × (IsHealthy t ↔ ((s.connected ≡ false) ⊎ (result ≢ none)))
dial-IsHealthy result s h = dial_cases result s.connected s.conn h

-- A socket whose connection was lost says that it is connected until it is closed: if dialing it anew
-- fails, the next Dial and the next Write panic.
dial_again_panics :
    (s : Socket) (result : Option ℕ) (fails : Bool)
    → s.connected ≡ true
    → s.conn ≢ none
    → ((dial none s >>= (λ r. dial result r.0)) ≡ panic nil_dereference)
      × ((dial none s >>= (λ r. write_socket fails r.0)) ≡ panic nil_dereference)
unfolding dial write_socket
dial_again_panics s result fails h k = ground (arith, h, k)
