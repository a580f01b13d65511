-- ===== src/Message/Generators.antt =====
-- message/testutil.go: random messages for the tests, composed byte by byte and without the
-- constructors. `intn k n` is what the k-th call of rand.Intn, with n, returns. The identifier, which
-- rand.Read fills, is an argument. The counts `next` say how many calls were made.
pub mod Bounds
pub mod Composed
mod Tests
use webwire_go.Base.{
  ltb, ◌==◌, if◌then◌else◌, length, ℕ, zero, suc, ◌+◌, ◌-◌, ◌%◌, not, ◌||◌, [], ◌∷◌, ◌++◌,
}
use webwire_go.Message.{
  msg_signal_binary, msg_signal_utf8, msg_signal_utf16, msg_request_binary, msg_request_utf8,
  msg_request_utf16, msg_reply_binary, msg_reply_utf8, msg_reply_utf16,
}
use webwire_go.Payload.{Encoding, binary, utf8, utf16, Payload}
use webwire_go.Runtime.{Bytes, invalid_bounds, invalid_message_type, Go, value, panic, ◌>>=◌, make}

-- `encodedMessage`, `id`, `name` and `payload`; a reply has no name and a signal no identifier.
pub record Generated : Type 0 where
  pub encoded : Bytes
  pub identifier : Bytes
  pub name : Bytes
  pub payload : Payload

-- `len(letters)`
abbrev pub letter_count : ℕ
letter_count = 95

-- `letters[i]`: the characters from the space to the tilde in their order
abbrev pub letter : ℕ → ℕ
letter i = 32 + i

-- The encoding for the type of a message that is not UTF16; a type of another kind is a panic.
abbrev pub encoding_for : ℕ → ℕ → ℕ → Go Encoding
encoding_for binary_type utf8_type message_type =
    if message_type == binary_type
    then value binary
    else if message_type == utf8_type
    then value utf8
    else panic (invalid_message_type message_type)

-- `append(encodedMessage, byte(0))`, only when the length of the name is odd
abbrev pub header_padding : Bytes → Bytes
header_padding name = if not (length name % 2 == 0) then 0 ∷ [] else []

module _ (intn : ℕ → ℕ → ℕ) where
  unfoldable pub random_letters : ℕ → ℕ → Bytes
  random_letters zero next = []
  random_letters (suc n) next = letter (intn next letter_count) ∷ random_letters n (next + 1)

  unfoldable pub random_length : ℕ → ℕ → ℕ → ℕ × ℕ
  random_length min max next =
      if max == min then (min, next) else (min + intn next (max - min), next + 1)

  -- After the checks; `power` is 1 or 2 in every call.
  unfoldable pub random_string : ℕ → ℕ × ℕ → Bytes × ℕ
  unfolding random_letters
  random_string power (drawn, next) =
      let size = drawn + drawn % power in (random_letters size next, next + size)

  unfoldable pub gen_rnd_byte_string : ℕ → ℕ → ℕ → ℕ → Go (Bytes × ℕ)
  unfolding random_string random_length
  gen_rnd_byte_string min max power next =
      if not (min % power == 0)
      then panic (invalid_bounds min power)
      else if not (max % power == 0)
      then panic (invalid_bounds max power)
      else if ltb max min
      then panic (invalid_bounds min max)
      else value (random_string power (random_length min max next))

  unfoldable pub gen_rnd_name : ℕ → ℕ → ℕ → Go (Bytes × ℕ)
  gen_rnd_name min max next =
      if ltb 255 max || ltb max min
      then panic (invalid_bounds min max)
      else gen_rnd_byte_string min max 1 next

  -- The bounds of the name are not used.
  unfoldable pub rnd_request_msg : ℕ → ℕ → ℕ → Bytes → ℕ → Go Generated
  rnd_request_msg message_type min_payload_len max_payload_len id next = do
    (name, drawn) ← gen_rnd_name 1 255 next
    encoding ← encoding_for msg_request_binary msg_request_utf8 message_type
    (content, last) ← gen_rnd_byte_string min_payload_len max_payload_len 1 drawn
    value (record {
      encoded = message_type ∷ (id ++ ((length name % 256) ∷ (name ++ content)));
      identifier = id;
      name = name;
      payload = record { encoding = encoding; bytes = content };
    })

  unfoldable pub rnd_request_msg_utf16 : ℕ → ℕ → Bytes → ℕ → Go Generated
  rnd_request_msg_utf16 min_payload_len max_payload_len id next = do
    (name, drawn) ← gen_rnd_name 1 255 next
    (content, last) ← gen_rnd_byte_string min_payload_len max_payload_len 2 drawn
    value (record {
      encoded =
          msg_request_utf16
          ∷ (id ++ ((length name % 256) ∷ (name ++ (header_padding name ++ content))));
      identifier = id;
      name = name;
      payload = record { encoding = utf16; bytes = content };
    })

  unfoldable pub rnd_reply_msg : ℕ → ℕ → ℕ → Bytes → ℕ → Go Generated
  rnd_reply_msg message_type min_payload_len max_payload_len id next = do
    encoding ← encoding_for msg_reply_binary msg_reply_utf8 message_type
    (content, last) ← gen_rnd_byte_string min_payload_len max_payload_len 1 next
    value (record {
      encoded = message_type ∷ (id ++ content);
      identifier = id;
      name = [];
      payload = record { encoding = encoding; bytes = content };
    })

  unfoldable pub rnd_reply_msg_utf16 : ℕ → ℕ → Bytes → ℕ → Go Generated
  rnd_reply_msg_utf16 min_payload_len max_payload_len id next = do
    (content, last) ← gen_rnd_byte_string min_payload_len max_payload_len 2 next
    value (record {
      encoded = msg_reply_utf16 ∷ (id ++ (0 ∷ content));
      identifier = id;
      name = [];
      payload = record { encoding = utf16; bytes = content };
    })

  unfoldable pub rnd_signal_msg : ℕ → ℕ → ℕ → ℕ → Go Generated
  rnd_signal_msg message_type min_payload_len max_payload_len next = do
    (name, drawn) ← gen_rnd_name 1 255 next
    encoding ← encoding_for msg_signal_binary msg_signal_utf8 message_type
    (content, last) ← gen_rnd_byte_string min_payload_len max_payload_len 1 drawn
    value (record {
      encoded = message_type ∷ ((length name % 256) ∷ (name ++ content));
      identifier = make 8;
      name = name;
      payload = record { encoding = encoding; bytes = content };
    })

  unfoldable pub rnd_signal_msg_utf16 : ℕ → ℕ → ℕ → Go Generated
  rnd_signal_msg_utf16 min_payload_len max_payload_len next = do
    (name, drawn) ← gen_rnd_name 1 255 next
    (content, last) ← gen_rnd_byte_string min_payload_len max_payload_len 2 drawn
    value (record {
      encoded =
          msg_signal_utf16 ∷ ((length name % 256) ∷ (name ++ (header_padding name ++ content)));
      identifier = make 8;
      name = name;
      payload = record { encoding = utf16; bytes = content };
    })
