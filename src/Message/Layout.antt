-- ===== src/Message/Layout.antt =====
-- The constructors against the byte layouts that message/message.go documents.
use webwire_go.Base.{
  if◌then◌else◌, length, length-append, ℕ, suc, ◌+◌, ◌%◌, ◌≤◌, ◌≡◌, refl, ap, ◌∙◌, Bool, true,
  false, Option, none, some, [], ◌∷◌, ◌++◌, append_assoc, append-nil, arith,
}
use webwire_go.Message.{msg_error_reply}
use webwire_go.Message.Compose.{
  is_utf16, needs_padding, request_type, signal_type, reply_type, write_padding, fill_request,
  fill_signal, fill_reply, fill_error_reply, new_empty_request_message,
  new_nameless_request_message, is_special, new_special_request_reply_message,
}
use webwire_go.Payload.{Encoding}
use webwire_go.Runtime.{Bytes, not_a_special_reply, value, panic, ◌>>=◌, write, make}
use webwire_go.Runtime.Buffers.{
  write_bytes, write_name, first_unsupported, checked, write-filled, write_bytes-filled,
  write_name-filled,
}

-- One zero byte in front of the payload, if it has to be aligned.
abbrev pub padding : Bool → Bytes
padding padded = if padded then 0 ∷ [] else []

abbrev pub request_layout : Bytes → Bytes → Encoding → Bytes → Bytes
request_layout identifier name encoding content =
    request_type encoding
    ∷ (identifier ++ (length name ∷ (name ++ (padding (needs_padding encoding name) ++ content))))

abbrev pub signal_layout : Bytes → Encoding → Bytes → Bytes
signal_layout name encoding content =
    signal_type encoding
    ∷ (length name ∷ (name ++ (padding (needs_padding encoding name) ++ content)))

abbrev pub reply_layout : Bytes → Encoding → Bytes → Bytes
reply_layout identifier encoding content =
    reply_type encoding ∷ (identifier ++ (padding (is_utf16 encoding) ++ content))

abbrev pub error_reply_layout : Bytes → Bytes → Bytes → Bytes
error_reply_layout identifier code text =
    msg_error_reply ∷ (identifier ++ (length code ∷ (code ++ text)))

write_padding-filled :
    (padded : Bool) (front : Bytes) (m k i : ℕ)
    → m ≡ length (padding padded) + k
    → i ≡ length front
    → write_padding padded (front ++ make m) i ≡ value ((front ++ padding padded) ++ make k)
unfolding write_padding
write_padding-filled true front m k i hm hi = write-filled front m k i 0 (omega arith) hi
write_padding-filled false front m k i hm hi =
    rw append-nil (ap (λ n. value (front ++ make n)) (omega arith))

-- Behind the name: the padding and the payload fill what is left of the buffer.
write_tail-filled :
    (padded : Bool) (front content : Bytes) (m i j : ℕ)
    → m ≡ length (padding padded) + length content
    → i ≡ length front
    → j ≡ i + length (padding padded)
    → (write_padding padded (front ++ make m) i >>= λ buf. write_bytes buf j content)
      ≡ value (front ++ (padding padded ++ content))
write_tail-filled padded front content m i j hm hi hj = rw (
  write_padding-filled padded front m (length content) i hm hi,
  write_bytes-filled content (front ++ padding padded) (length content) 0 j (omega arith)
      (omega (arith, length-append front (padding padded))),
  append-nil,
  append_assoc,
)

plus_padding : (padded : Bool) (n : ℕ) → (if padded then n + 1 else n) ≡ n + length (padding padded)
plus_padding true n = refl
plus_padding false n = omega arith

-- `byte(len(name))`
pub byte-length : (name : Bytes) → length name ≤ 255 → length name % 256 ≡ length name
byte-length name h = omega arith

-- The tail behind a name that the loop has checked: nothing is written behind an unsupported byte.
checked_tail :
    (bad : Option ℕ) (padded : Bool) (front content : Bytes) (m i j : ℕ)
    → m ≡ length (padding padded) + length content
    → i ≡ length front
    → j ≡ i + length (padding padded)
    → (checked bad (front ++ make m) >>= λ buf.
        write_padding padded buf i >>= λ aligned. write_bytes aligned j content)
      ≡ checked bad (front ++ (padding padded ++ content))
checked_tail none padded front content m i j hm hi hj =
    write_tail-filled padded front content m i j hm hi hj
checked_tail (some c) padded front content m i j hm hi hj = refl

-- The part that signals, requests and error replies share: a length flag, the text of that length,
-- the padding and the rest of the message.
module _ (padded : Bool) (front name content : Bytes) where
  abbrev part_rest : ℕ
  part_rest = length (padding padded) + length content

  named_part :
      (m i i1 i2 j : ℕ)
      → length name ≤ 255
      → m ≡ suc (length name + part_rest)
      → i ≡ length front
      → i1 ≡ i + 1
      → i2 ≡ i1 + length name
      → j ≡ i2 + length (padding padded)
      → (write (front ++ make m) i (length name % 256) >>= λ flagged.
          write_name flagged i1 name >>= λ named.
          write_padding padded named i2 >>= λ aligned. write_bytes aligned j content)
        ≡ checked
            (first_unsupported name)
            (front ++ (length name ∷ (name ++ (padding padded ++ content))))
  named_part m i i1 i2 j hn hm hi h1 h2 hj =
      let flagged : Bytes = front ++ (length name ∷ []) in
      rw
        (
          byte-length name hn,
          write-filled front m (length name + part_rest) i (length name) hm hi,
          write_name-filled name flagged (length name + part_rest) part_rest i1 refl
              (omega (arith, length-append front (length name ∷ []))),
        )
        (checked_tail (first_unsupported name) padded (flagged ++ name) content part_rest i2 j refl
            (omega (arith, length-append flagged name, length-append front (length name ∷ []))) hj
          ∙ simp append_assoc)

module _ (identifier : Bytes) (id_length : length identifier ≡ 8) where
  -- The first two writes: the type and the identifier.
  identified_part :
      (kind m k : ℕ)
      → m ≡ suc (8 + k)
      → (write (make m) 0 kind >>= λ typed. write_bytes typed 1 identifier)
        ≡ value ((kind ∷ identifier) ++ make k)
  identified_part kind m k hm = rw (
    write-filled [] m (8 + k) 0 kind hm refl,
    write_bytes-filled identifier (kind ∷ []) (8 + k) k 1 (omega arith) refl,
  )

  pub fill_request-layout :
      (name : Bytes) (encoding : Encoding) (content : Bytes)
      → length name ≤ 255
      → fill_request identifier name encoding content
        ≡ checked (first_unsupported name) (request_layout identifier name encoding content)
  unfolding fill_request
  fill_request-layout name encoding content hn =
      let padded = needs_padding encoding name in
      let rest = length (padding padded) + length content in
      rw
        (
          plus_padding padded (10 + length name + length content),
          plus_padding padded (10 + length name),
          write-filled [] (10 + length name + length content + length (padding padded))
              (8 + suc (length name + rest)) 0 (request_type encoding) (omega arith) refl,
          write_bytes-filled identifier (request_type encoding ∷ []) (8 + suc (length name + rest))
              (suc (length name + rest)) 1 (omega arith) refl,
        )
        (named_part padded (request_type encoding ∷ identifier) name content _ 9 10
          (10 + length name) (10 + length name + length (padding padded)) hn refl (omega arith) refl
          refl refl)

  pub fill_error_reply-layout :
      (code text : Bytes)
      → length code ≤ 255
      → fill_error_reply identifier code text
        ≡ checked (first_unsupported code) (error_reply_layout identifier code text)
  unfolding fill_error_reply
  fill_error_reply-layout code text hn =
      rw
        (
          write-filled [] (10 + length code + length text) (8 + suc (length code + length text)) 0
              msg_error_reply (omega arith) refl,
          write_bytes-filled identifier (msg_error_reply ∷ []) (8 + suc (length code + length text))
              (suc (length code + length text)) 1 (omega arith) refl,
        )
        (unfold write_padding in
          named_part false (msg_error_reply ∷ identifier) code text
            (suc (length code + length text)) 9 10 (10 + length code) (10 + length code) hn
            (omega arith) (omega arith) refl refl (omega arith))

  pub fill_reply-layout :
      (encoding : Encoding) (content : Bytes)
      → fill_reply identifier encoding content ≡ value (reply_layout identifier encoding content)
  unfolding fill_reply
  fill_reply-layout encoding content =
      let padded = is_utf16 encoding in
      let rest = length (padding padded) + length content in
      rw
        (
          plus_padding padded (9 + length content),
          write-filled [] (9 + length content + length (padding padded)) (8 + rest) 0
              (reply_type encoding) (omega arith) refl,
          write_bytes-filled identifier (reply_type encoding ∷ []) (8 + rest) rest 1 (omega arith)
              refl,
        )
        (write_tail-filled padded (reply_type encoding ∷ identifier) content rest 9
          (if padded then 10 else 9) refl (omega arith) (ground arith))

  pub new_nameless_request_message-layout :
      (kind : ℕ) (content : Bytes)
      → new_nameless_request_message kind identifier content
        ≡ value (kind ∷ (identifier ++ content))
  unfolding new_nameless_request_message
  new_nameless_request_message-layout kind content = rw (
    write-filled [] (9 + length content) (8 + length content) 0 kind (omega arith) refl,
    write_bytes-filled identifier (kind ∷ []) (8 + length content) (length content) 1 (omega arith)
        refl,
    write_bytes-filled content (kind ∷ identifier) (length content) 0 9 (omega arith) (omega arith),
    append-nil,
  )

  pub new_empty_request_message-layout :
      (kind : ℕ) → new_empty_request_message kind identifier ≡ value (kind ∷ identifier)
  unfolding new_empty_request_message
  new_empty_request_message-layout kind = identified_part kind 9 0 refl ∙ rw append-nil

  pub new_special_request_reply_message-layout :
      (kind : ℕ)
      → new_special_request_reply_message kind identifier
        ≡ (if is_special kind then value (kind ∷ identifier) else panic (not_a_special_reply kind))
  unfolding new_special_request_reply_message
  new_special_request_reply_message-layout kind = rw (identified_part kind 9 0 refl, append-nil)

pub fill_signal-layout :
    (name : Bytes) (encoding : Encoding) (content : Bytes)
    → length name ≤ 255
    → fill_signal name encoding content
      ≡ checked (first_unsupported name) (signal_layout name encoding content)
unfolding fill_signal
fill_signal-layout name encoding content hn =
    let padded = needs_padding encoding name in
    let rest = length (padding padded) + length content in
    rw
      (
        plus_padding padded (2 + length name + length content),
        plus_padding padded (2 + length name),
        write-filled [] (2 + length name + length content + length (padding padded))
            (suc (length name + rest)) 0 (signal_type encoding) (omega arith) refl,
      )
      (named_part padded (signal_type encoding ∷ []) name content (suc (length name + rest)) 1 2
        (2 + length name) (2 + length name + length (padding padded)) hn refl refl refl refl refl)
