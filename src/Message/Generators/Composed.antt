-- ===== src/Message/Generators/Composed.antt =====
-- message/testutil.go: the random messages against the constructors that they stand in for.
use webwire_go.Base.{length, ℕ, ◌%◌, ◌≤◌, ◌≡◌, refl, ◌⊎◌, inl, inr, [], arith}
use webwire_go.Message.{zero_message}
use webwire_go.Message.Compose.{
  request_type, signal_type, reply_type, new_request_message, new_signal_message, new_reply_message,
}
use webwire_go.Message.Generators.{
  Generated, gen_rnd_byte_string, gen_rnd_name, rnd_request_msg, rnd_request_msg_utf16,
  rnd_reply_msg, rnd_reply_msg_utf16, rnd_signal_msg, rnd_signal_msg_utf16,
}
use webwire_go.Message.Layout.{byte-length, request_layout, signal_layout, reply_layout}
use webwire_go.Message.Parse.{parse}
use webwire_go.Message.RoundTrip.{
  received, parse-new_request_message, parse-new_signal_message, parse-new_reply_message,
}
use webwire_go.Message.Validity.{
  IsAligned, new_request_message-eq_value, new_signal_message-eq_value, new_reply_message-eq_value,
}
use webwire_go.Payload.{Encoding, binary, utf8, utf16}
use webwire_go.Runtime.{Bytes, Go, make, value}
use webwire_go.Message.Generators.Bounds.{IsRandom, IsDrawn, gen_rnd_byte_string_bounds}

-- The messages that the tests generate, each with a payload in one of the encodings.
pub data Kind : Type 0 where
  request reply signal : Encoding → Kind

abbrev pub unit_of : Encoding → ℕ
unit_of utf16 = 2
unit_of _ = 1

abbrev pub encoding_of : Kind → Encoding
encoding_of (request e) = e
encoding_of (reply e) = e
encoding_of (signal e) = e

-- The call that generates a message of a kind.
abbrev pub rnd_msg : (ℕ → ℕ → ℕ) → Kind → ℕ → ℕ → Bytes → ℕ → Go Generated
rnd_msg intn (request utf16) min max id next = rnd_request_msg_utf16 intn min max id next
rnd_msg intn (request e) min max id next = rnd_request_msg intn (request_type e) min max id next
rnd_msg intn (reply utf16) min max id next = rnd_reply_msg_utf16 intn min max id next
rnd_msg intn (reply e) min max id next = rnd_reply_msg intn (reply_type e) min max id next
rnd_msg intn (signal utf16) min max id next = rnd_signal_msg_utf16 intn min max next
rnd_msg intn (signal e) min max id next = rnd_signal_msg intn (signal_type e) min max next

-- The constructor of a kind, on the parts of a generated message.
abbrev pub composed : Kind → Generated → Go Bytes
composed (request e) g = new_request_message g.identifier g.name e g.payload.bytes
composed (reply e) g = new_reply_message g.identifier e g.payload.bytes
composed (signal e) g = new_signal_message g.name e g.payload.bytes

abbrev pub type_of : Kind → ℕ
type_of (request e) = request_type e
type_of (reply e) = reply_type e
type_of (signal e) = signal_type e

unit_cases : (e : Encoding) → (unit_of e ≡ 1) ⊎ (unit_of e ≡ 2)
unit_cases binary = inl refl
unit_cases utf8 = inl refl
unit_cases utf16 = inr refl

whole-IsAligned :
    (e : Encoding) (content : Bytes) → length content % unit_of e ≡ 0 → IsAligned e content
whole-IsAligned binary content h = tt
whole-IsAligned utf8 content h = tt
whole-IsAligned utf16 content h = h

-- What a generator returns for these parts is what the constructor composes from them, and `Parse`
-- takes it apart into them.
abbrev Stands : Kind → Generated → Type 0
Stands kind g =
    (composed kind g ≡ value g.encoded)
    × (parse zero_message g.encoded
        ≡ value (received (type_of kind) g.identifier g.name (encoding_of kind) g.payload.bytes))

abbrev made : Kind → Bytes → Bytes → Bytes → Bytes → Generated
made kind encoded id name content = record {
  encoded = encoded;
  identifier = id;
  name = name;
  payload = record { encoding = encoding_of kind; bytes = content };
}

request-Stands :
    (e : Encoding) (id name content : Bytes)
    → length id ≡ 8
    → IsDrawn 1 255 1 name
    → IsAligned e content
    → Stands (request e) (made (request e) (request_layout id name e content) id name content)
request-Stands e id name content n d a =
    let c = (new_request_message-eq_value id n name e content _).1 (
      record {
        something = omega (arith, d.at_least);
        short = d.at_most;
        aligned = a;
        printable = d.printable;
      },
      refl,
    ) in
    (c, parse-new_request_message id n name e content _ c)

signal-Stands :
    (e : Encoding) (name content : Bytes)
    → IsDrawn 1 255 1 name
    → IsAligned e content
    → 1 ≤ length content
    → Stands (signal e) (made (signal e) (signal_layout name e content) (make 8) name content)
signal-Stands e name content d a h =
    let c =
      (new_signal_message-eq_value name e content _).1
        (record { short = d.at_most; aligned = a; printable = d.printable }, refl) in
    (c, parse-new_signal_message name e content _ h c)

reply-Stands :
    (e : Encoding) (id content : Bytes)
    → length id ≡ 8
    → IsAligned e content
    → Stands (reply e) (made (reply e) (reply_layout id e content) id [] content)
reply-Stands e id content n a =
    let c = (new_reply_message-eq_value id n e content _).1 (a, refl) in
    (c, parse-new_reply_message id n e content _ c)

module _ (intn : ℕ → ℕ → ℕ) (min max next : ℕ) (id : Bytes) where
  rnd_request_msg-made :
      (e : Encoding)
      → (drawn last : ℕ) (name content : Bytes)
      → gen_rnd_byte_string intn 1 255 1 next ≡ value (name, drawn)
      → gen_rnd_byte_string intn min max (unit_of e) drawn ≡ value (content, last)
      → length name ≤ 255
      → rnd_msg intn (request e) min max id next
        ≡ value (made (request e) (request_layout id name e content) id name content)
  unfolding rnd_request_msg rnd_request_msg_utf16 gen_rnd_name
  rnd_request_msg-made binary drawn last name content a b h = rw (a, b, byte-length name h) refl
  rnd_request_msg-made utf8 drawn last name content a b h = rw (a, b, byte-length name h) refl
  rnd_request_msg-made utf16 drawn last name content a b h = rw (a, b, byte-length name h) refl

  rnd_signal_msg-made :
      (e : Encoding) (drawn last : ℕ) (name content : Bytes)
      → gen_rnd_byte_string intn 1 255 1 next ≡ value (name, drawn)
      → gen_rnd_byte_string intn min max (unit_of e) drawn ≡ value (content, last)
      → length name ≤ 255
      → rnd_msg intn (signal e) min max id next
        ≡ value (made (signal e) (signal_layout name e content) (make 8) name content)
  unfolding rnd_signal_msg rnd_signal_msg_utf16 gen_rnd_name
  rnd_signal_msg-made binary drawn last name content a b h = rw (a, b, byte-length name h) refl
  rnd_signal_msg-made utf8 drawn last name content a b h = rw (a, b, byte-length name h) refl
  rnd_signal_msg-made utf16 drawn last name content a b h = rw (a, b, byte-length name h) refl

  rnd_reply_msg-made :
      (e : Encoding) (last : ℕ) (content : Bytes)
      → gen_rnd_byte_string intn min max (unit_of e) next ≡ value (content, last)
      → rnd_msg intn (reply e) min max id next
        ≡ value (made (reply e) (reply_layout id e content) id [] content)
  unfolding rnd_reply_msg rnd_reply_msg_utf16
  rnd_reply_msg-made binary last content b = rw b refl
  rnd_reply_msg-made utf8 last content b = rw b refl
  rnd_reply_msg-made utf16 last content b = rw b refl

-- With a random source that keeps its promise and bounds of the payload in units of its encoding, the
-- lower of them positive: each of the six generators returns a message, whose payload is a printable
-- string within the bounds; the constructor composes the same bytes from its parts, and Parse takes
-- them apart again.
pub generated-composed :
    (intn : ℕ → ℕ → ℕ) (kind : Kind) (min max next : ℕ) (id : Bytes)
    → IsRandom intn
    → length id ≡ 8
    → 1 ≤ min
    → min ≤ max
    → min % unit_of (encoding_of kind) ≡ 0
    → max % unit_of (encoding_of kind) ≡ 0
    → (g : Generated) × (rnd_msg intn kind min max id next ≡ value g)
      × IsDrawn min max (unit_of (encoding_of kind)) g.payload.bytes
      × (composed kind g ≡ value g.encoded)
      × (parse zero_message g.encoded
          ≡ value (received (type_of kind) g.identifier g.name (encoding_of kind) g.payload.bytes))
generated-composed intn (request e) min max next id random n one h a b =
    let (name, drawn, called, d) =
      gen_rnd_byte_string_bounds intn random 1 255 1 next (inl refl) (omega arith) refl refl in
    let (content, last, filled, c) =
      gen_rnd_byte_string_bounds intn random min max (unit_of e) drawn (unit_cases e) h a b in
    let (same, read) = request-Stands e id name content n d (whole-IsAligned e content c.whole) in
    (
      _,
      rnd_request_msg-made intn min max next id e drawn last name content called filled d.at_most,
      c,
      same,
      read,
    )
generated-composed intn (signal e) min max next id random n one h a b =
    let (name, drawn, called, d) =
      gen_rnd_byte_string_bounds intn random 1 255 1 next (inl refl) (omega arith) refl refl in
    let (content, last, filled, c) =
      gen_rnd_byte_string_bounds intn random min max (unit_of e) drawn (unit_cases e) h a b in
    let (same, read) =
      signal-Stands e name content d (whole-IsAligned e content c.whole)
        (omega (arith, c.at_least)) in
    (
      _,
      rnd_signal_msg-made intn min max next id e drawn last name content called filled d.at_most,
      c,
      same,
      read,
    )
generated-composed intn (reply e) min max next id random n one h a b =
    let (content, last, filled, c) =
      gen_rnd_byte_string_bounds intn random min max (unit_of e) next (unit_cases e) h a b in
    let (same, read) = reply-Stands e id content n (whole-IsAligned e content c.whole) in
    (_, rnd_reply_msg-made intn min max next id e last content filled, c, same, read)
