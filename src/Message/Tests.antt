-- ===== src/Message/Tests.antt =====
-- Concrete messages, and the theorems at concrete inputs.
use webwire_go.Base.{◌≡◌, refl, ◌≢◌, true, some, [], ◌∷◌}
use webwire_go.Message.{zero_message}
use webwire_go.Message.Bodies.{
  too_short_for_name, raw, read_identifier, parse_request, parse_request_utf16,
}
use webwire_go.Message.Compose.{write_padding, fill_request, new_request_message}
use webwire_go.Message.Memory.{parse-ne-panic}
use webwire_go.Message.Parse.{form_of, parse_form, parse_kind, parse}
use webwire_go.Message.RoundTrip.{received, parse-new_request_message}
use webwire_go.Payload.{utf16}
use webwire_go.Runtime.{Bytes, out_of_range, value, panic, slice_from, write, read_byte}
use webwire_go.Runtime.Buffers.{write_bytes, write_name}

abbrev some_id : Bytes
some_id = 1 ∷ 2 ∷ 3 ∷ 4 ∷ 5 ∷ 6 ∷ 7 ∷ 8 ∷ []

-- "abc", a name of odd length.
abbrev abc : Bytes
abc = b'a' ∷ b'b' ∷ b'c' ∷ []

abbrev two_units : Bytes
two_units = 0x61 ∷ 0 ∷ 0x62 ∷ 0 ∷ []

abbrev padded_request : Bytes
padded_request =
    129 ∷ 1 ∷ 2 ∷ 3 ∷ 4 ∷ 5 ∷ 6 ∷ 7 ∷ 8 ∷ 3 ∷ b'a' ∷ b'b' ∷ b'c' ∷ 0 ∷ 0x61 ∷ 0 ∷ 0x62 ∷ 0 ∷ []

composed : new_request_message some_id abc utf16 two_units ≡ value padded_request
unfolding new_request_message fill_request write write_bytes write_name write_padding
composed = refl

parsed : parse zero_message padded_request ≡ value (received 129 some_id abc utf16 two_units)
unfolding parse parse_kind parse_form form_of parse_request_utf16 read_identifier read_byte
    slice_from
parsed = refl

-- A message that ends inside its name.
cut_short :
    parse zero_message (127 ∷ 1 ∷ 2 ∷ 3 ∷ 4 ∷ 5 ∷ 6 ∷ 7 ∷ 8 ∷ 200 ∷ b'a' ∷ [])
    ≡ value (record {
      message = record { kind = 127; identifier = some_id; name = []; payload = raw [] };
      type_parsed = true;
      error = some (too_short_for_name 200);
    })
unfolding parse parse_kind parse_form form_of parse_request read_identifier read_byte slice_from
cut_short = refl

parse-ne-panic_example : parse zero_message (64 ∷ 255 ∷ 1 ∷ []) ≢ panic out_of_range
parse-ne-panic_example = parse-ne-panic zero_message (64 ∷ 255 ∷ 1 ∷ []) out_of_range

parse-new_request_message_example :
    parse zero_message padded_request ≡ value (received 129 some_id abc utf16 two_units)
unfolding new_request_message fill_request write write_bytes write_name write_padding
parse-new_request_message_example =
    parse-new_request_message some_id refl abc utf16 two_units padded_request refl
