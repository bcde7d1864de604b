-- ===== src/Examples/Messages.antt =====
-- The theorems on the live message format of src/transport.rs, at a message with nested fields.
use mathlib.Core.Option
use tcpform_protocol_lab.Base.{
  none, ℕ, ◌≡◌, refl, sym, ◌∙◌, ok-injective, List, [], ◌∷◌, ◌++◌, map, true, some, ok, arith, ◌<◌,
  ◌≤◌, length,
}
use tcpform_protocol_lab.Wire.Values.{
  Text, Fields, Message, null, bool, number, array, object, array_end, value_cons, map_end,
  field_cons, is_utf8, utf8_from, utf8_tail, text_lt, text_eq, place, sort_by_key, get,
}
use tcpform_protocol_lab.Wire.Encode.{
  ◌▷◌, be_bytes, put_u32, put_bytes, put_string, values_len, put_entries, encode_value, put_flags,
  put_stream, put_flag_list, put_fields, put_message, encode_message,
}
use tcpform_protocol_lab.Wire.Cursor.{
  Cursor, ◌>>>◌, return, byte, take_octets, tagged, at, decode_message, value,
}
use tcpform_protocol_lab.Wire.Canonical.{IsMessage, IsValue, canonical, received}
use tcpform_protocol_lab.Wire.RoundTrip.{encode_message_total, decode-encode_message}
use tcpform_protocol_lab.Wire.Lookup.{IsDistinct, get-decode_message}
use tcpform_protocol_lab.Link.Live.{send_frame, send_frames, read_frames}
use tcpform_protocol_lab.Link.Live.Delivery.{IsFitting, read_frames-send_frames}
use tcpform_protocol_lab.Link.Datagrams.{send_datagram, send_datagrams, read_datagrams}
use tcpform_protocol_lab.Link.Datagrams.Delivery.{read_datagrams-send_datagrams}
use tcpform_protocol_lab.Wire.Total.{value-inside}

-- "b" before "a", and the text "é".
abbrev sent_fields : Fields
sent_fields =
    field_cons (98 ∷ []) (array (value_cons (bool true) (value_cons (number 7) array_end)))
      (field_cons (97 ∷ []) (object (field_cons (0xC3 ∷ 0xA9 ∷ []) null map_end)) map_end)

abbrev sent : Message
sent = record {
  from = 99 ∷ [];
  flags = (83 ∷ []) ∷ [];
  seq = 1;
  ack = 0xFFFFFFFFFFFFFFFF;
  payload = [];
  raw = 1 ∷ 2 ∷ [];
  window = 0;
  stream = some 5;
  fields = sent_fields;
}

sent-IsMessage : IsMessage sent
unfolding IsValue is_utf8 utf8_from utf8_tail values_len
sent-IsMessage = record {
  from = (refl, omega arith);
  flags_len = omega arith;
  flags = ((refl, omega arith), tt);
  seq = omega arith;
  ack = omega arith;
  payload = (refl, omega arith);
  raw = omega arith;
  window = omega arith;
  stream = omega arith;
  fields_len = omega arith;
  fields = (
    (refl, omega arith),
    (omega arith, (tt, (omega arith, tt))),
    ((refl, omega arith), (omega arith, ((refl, omega arith), tt, tt)), tt),
  );
}

abbrev live : List ℕ
live =
    0 ∷ 0 ∷ 0 ∷ 1 ∷ 99 ∷ 0 ∷ 0 ∷ 0 ∷ 1 ∷ 0 ∷ 0 ∷ 0 ∷ 1 ∷ 83 ∷ 0 ∷ 0 ∷ 0 ∷ 0 ∷ 0 ∷ 0 ∷ 0 ∷ 1 ∷ 255
    ∷ 255 ∷ 255 ∷ 255 ∷ 255 ∷ 255 ∷ 255 ∷ 255 ∷ 0 ∷ 0 ∷ 0 ∷ 0 ∷ 0 ∷ 0 ∷ 0 ∷ 2 ∷ 1 ∷ 2 ∷ 0 ∷ 0 ∷ 0
    ∷ 0 ∷ 0 ∷ 0 ∷ 0 ∷ 0 ∷ 1 ∷ 0 ∷ 0 ∷ 0 ∷ 0 ∷ 0 ∷ 0 ∷ 0 ∷ 5 ∷ 0 ∷ 0 ∷ 0 ∷ 2 ∷ 0 ∷ 0 ∷ 0 ∷ 1 ∷ 97 ∷ 6
    ∷ 0 ∷ 0 ∷ 0 ∷ 1 ∷ 0 ∷ 0 ∷ 0 ∷ 2 ∷ 195 ∷ 169 ∷ 0 ∷ 0 ∷ 0 ∷ 0 ∷ 1 ∷ 98 ∷ 5 ∷ 0 ∷ 0 ∷ 0 ∷ 2 ∷ 1 ∷ 1
    ∷ 2 ∷ 0 ∷ 0 ∷ 0 ∷ 0 ∷ 0 ∷ 0 ∷ 0 ∷ 7 ∷ []

encode_message-sent : encode_message sent ≡ ok live
unfolding encode_message put_message put_fields put_flag_list put_stream put_flags put_entries
    values_len put_string put_bytes put_u32 be_bytes ◌▷◌ encode_value place sort_by_key text_lt
encode_message-sent = refl

decode-encode_message_example : decode_message live ≡ ok (received sent)
decode-encode_message_example =
    decode-encode_message sent live sent-IsMessage encode_message-sent (omega arith)

encode_message_total_example : (octets : List ℕ) × (encode_message sent ≡ ok octets)
encode_message_total_example = encode_message_total sent sent-IsMessage

sent_fields-IsDistinct : IsDistinct sent_fields
unfolding get text_eq IsDistinct
sent_fields-IsDistinct = (refl, (refl, tt))

get-decode_message_example :
    (back : Message) × (decode_message live ≡ ok back)
    × ((name : Text) → get name (Message.fields back) ≡ Option.map canonical (get name sent_fields))
get-decode_message_example =
    get-decode_message sent live sent-IsMessage sent_fields-IsDistinct encode_message-sent
      (omega arith)

abbrev buffer : List ℕ
buffer = 9 ∷ 1 ∷ 1 ∷ 9 ∷ []

one_read : value 2 (at buffer 1) ≡ ok (bool true, at buffer 3)
unfolding value ◌>>>◌ return byte take_octets tagged
one_read = refl

value-inside_example :
    (Cursor.bytes (at buffer 3) ≡ buffer)
    × (1 < Cursor.position (at buffer 3))
    × (Cursor.position (at buffer 3) ≤ length buffer)
value-inside_example = value-inside 2 buffer 1 (bool true) (at buffer 3) (omega arith) one_read

send_datagrams-sent : send_datagrams (sent ∷ []) ≡ ok (live ∷ [])
unfolding send_datagrams send_datagram encode_message put_message put_fields put_flag_list
    put_stream put_flags put_entries values_len put_string put_bytes put_u32 be_bytes ◌▷◌
    encode_value place sort_by_key text_lt
send_datagrams-sent = refl

read_datagrams-send_datagrams_example :
    read_datagrams 200 1 (live ∷ []) [] ≡ ([] ++ map received (sent ∷ []), none)
read_datagrams-send_datagrams_example =
    read_datagrams-send_datagrams 200 1 (sent ∷ []) (live ∷ []) [] (sent-IsMessage, tt)
      send_datagrams-sent (omega arith, tt) (omega arith)

sent-IsFitting : IsFitting 200 sent
unfolding IsFitting
sent-IsFitting = (
  sent-IsMessage,
  λ payload h.
      let same : live ≡ payload = ok-injective (sym encode_message-sent ∙ h) in
      rw (sym same) (omega arith),
)

abbrev framed : List ℕ
framed = 0 ∷ 0 ∷ 0 ∷ 99 ∷ live

send_frames-sent : send_frames (sent ∷ []) ≡ ok framed
unfolding send_frames send_frame encode_message put_message put_fields put_flag_list put_stream
    put_flags put_entries values_len put_string put_bytes put_u32 be_bytes ◌▷◌ encode_value place
    sort_by_key text_lt
send_frames-sent = refl

read_frames-send_frames_example :
    read_frames 200 1 framed [] ≡ ([] ++ map received (sent ∷ []), none)
read_frames-send_frames_example =
    read_frames-send_frames 200 1 (sent ∷ []) framed [] (sent-IsFitting, tt) send_frames-sent
      (omega arith)
