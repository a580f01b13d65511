-- ===== src/ChatRoom/Broadcast.antt =====
-- examples/chatroom/server/implementation.go: who gets a broadcast message, and what.
use webwire_go.Base.{
  ◌==◌, ◌||◌, ◌&&◌, not, if◌then◌else◌, ◌∙◌, length, ℕ, ◌≡◌, refl, ◌≤◌, Bool, true, false, List, [],
  ◌∷◌, none, some, Option, arith,
}
use webwire_go.ChatRoom.{
  Environment, on_client_connected, on_client_disconnected, send_all, broadcast_message,
}
use webwire_go.Map.{Distinct, find, find-insert, find-delete, insert-Distinct, delete-Distinct}
use webwire_go.Message.Compose.{new_signal_message}
use webwire_go.Message.Layout.{signal_layout}
use webwire_go.Message.Validity.{IsSignal, new_signal_message-eq_value}
use webwire_go.Payload.{utf8}
use webwire_go.Registry.{ConnId, ConnSet}
use webwire_go.Runtime.{Bytes, value}
use webwire_go.Server.Handlers.{Setup}
use webwire_go.Server.Signals.{IsSignalled, new_signal_message-IsSignalled}
use mathlib.Core.List.{map}
use mathlib.Core.Logic.{ite}
use native.Mathlib.Decide.{ℕ_discrete}

-- The clients that are present, and the map of the application, over its hooks, which a server calls
-- for a client that is not present, and for one that is.
pub data Rooms : (ConnId → Bool) → ConnSet → Type 0 where
  empty : Rooms (λ id. false) []
  joins :
      {present : ConnId → Bool} {room : ConnSet} (id : ConnId)
      → Rooms present room
      → present id ≡ false
      → Rooms (λ j. id == j || present j) (on_client_connected id room)
  leaves :
      {present : ConnId → Bool} {room : ConnSet} (id : ConnId)
      → Rooms present room
      → present id ≡ true
      → Rooms (λ j. not (id == j) && present j) (on_client_disconnected id room)

abbrev pub copies_to : Bytes → ConnSet → List (ConnId × Bytes)
copies_to m room = map (λ entry. (entry.0, m)) room

send_all-value :
    (encoded m : Bytes) (room : ConnSet)
    → new_signal_message [] utf8 encoded ≡ value m
    → send_all encoded room ≡ value (copies_to m room)
unfolding send_all
send_all-value encoded m [] h = refl
send_all-value encoded m ((id, u) ∷ room) h = rw (h, send_all-value encoded m room h) refl

Rooms-Distinct :
    {present : ConnId → Bool} {room : ConnSet} → Rooms present room → Distinct ℕ_discrete room
unfolding on_client_connected on_client_disconnected
Rooms-Distinct empty = tt
Rooms-Distinct (joins id r e) = insert-Distinct ℕ_discrete id tt _ (Rooms-Distinct r)
Rooms-Distinct (leaves id r e) = delete-Distinct ℕ_discrete id _ (Rooms-Distinct r)

abbrev entry_if : Bool → Option (Unit {0})
entry_if b = if b then some tt else none

ite-entry_if :
    (i j : ℕ) (b : Bool) → ite (ℕ_discrete i j) (some tt) (entry_if b) ≡ entry_if (i == j || b)
ite-entry_if i j b = ground arith

ite-none-entry_if :
    (i j : ℕ) (b : Bool) → ite (ℕ_discrete i j) none (entry_if b) ≡ entry_if (not (i == j) && b)
ite-none-entry_if i j b = ground arith

find-present :
    {present : ConnId → Bool} {room : ConnSet} (j : ConnId)
    → Rooms present room
    → find ℕ_discrete j room ≡ entry_if (present j)
unfolding on_client_connected on_client_disconnected find
find-present j empty = refl
find-present j (joins {present} {room} id r e) =
    find-insert ℕ_discrete j id tt room ∙ (rw (find-present j r) (ite-entry_if id j (present j)))
find-present j (leaves {present} {room} id r e) =
    find-delete ℕ_discrete j id room (Rooms-Distinct r)
    ∙ (rw (find-present j r) (ite-none-entry_if id j (present j)))

-- Over any calls of the hooks: a broadcast of a message whose JSON is not empty returns; it sends one
-- and the same message once to each client that is present, and to nobody else; and a client hands
-- its program the JSON as a nameless UTF8 signal.
pub broadcast_reaches :
    (env : Environment) (srv : Setup) (name text encoded : Bytes) {present : ConnId → Bool}
    {room : ConnSet}
    → Rooms present room
    → env.marshal_chat name text ≡ some encoded
    → 1 ≤ length encoded
    → (m : Bytes) × (broadcast_message env srv name text room ≡ value (copies_to m room))
      × Distinct ℕ_discrete room
      × ((id : ConnId) → find ℕ_discrete id room ≡ (if present id then some tt else none))
      × IsSignalled [] utf8 encoded m
unfolding broadcast_message
broadcast_reaches env srv name text encoded {room = room} r e h =
    let valid : IsSignal [] utf8 encoded = record {
      short = omega arith;
      aligned = tt;
      printable = tt;
    } in
    let made =
      (new_signal_message-eq_value [] utf8 encoded (signal_layout [] utf8 encoded)).1
        (valid, refl) in
    (
      _,
      rw (broadcast_message, e, send_all-value encoded _ room made) refl,
      Rooms-Distinct r,
      (λ id. find-present id r),
      new_signal_message-IsSignalled [] utf8 encoded _ h made,
    )
