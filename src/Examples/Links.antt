-- ===== src/Examples/Links.antt =====
-- The theorems on the transports of src/transport.rs, at small streams and networks, and two runs of
-- drain_frames that show what its limits do.
use mathlib.Core.List.{flatten}
use tcpform_protocol_lab.Base.{
  ℕ, ◌≡◌, ◌≢◌, ◌≤◌, ◌^◌, refl, List, [], ◌∷◌, ◌++◌, map, none, some, true, false, All, arith, err,
  ok,
}
use tcpform_protocol_lab.Wire.Values.{Text, Message, text_eq, map_end}
use tcpform_protocol_lab.Wire.Cursor.{be_number}
use tcpform_protocol_lab.Link.Errors.{frame_too_large, out_of_fuel}
use tcpform_protocol_lab.Link.Frames.{
  length_prefix, delimiter, frame_outbound, position_of, next_frame, next_prefixed, next_delimited,
  drain_loop, drain_frames,
}
use tcpform_protocol_lab.Link.Frames.Total.{drain_frames-ne-out_of_fuel}
use tcpform_protocol_lab.Link.Inbox.{raw_message}
use tcpform_protocol_lab.Link.Reader.{send_all, read_stream}
use tcpform_protocol_lab.Link.Reader.Cut.{IsCarried}
use tcpform_protocol_lab.Link.Reader.Stream.{read_stream-send_all}
use tcpform_protocol_lab.Link.Network.{
  is_eligible, TransportConfig, ResourceLimits, Network, payload_len,
}
use tcpform_protocol_lab.Link.Network.Send.{
  inbox_of, send_scoped, with_options, Event, send, after_all,
}
use tcpform_protocol_lab.Link.Network.Send.Bounded.{IsWithin, after_all-IsWithin}
use tcpform_protocol_lab.Link.Network.Send.Perfect.{IsPerfect, IsAppended, send_scoped-IsAppended}
use tcpform_protocol_lab.Link.Network.Send.Burst.{IsStruck, inboxes-after_all-IsStruck}
use tcpform_protocol_lab.Link.Network.Send.Fifo.{sent_to, IsAllowed, after_all-sent_to}

-- "ping" and "a" behind CR LF.
abbrev crlf : List ℕ
crlf = 13 ∷ 10 ∷ []

abbrev ping : List ℕ
ping = 112 ∷ 105 ∷ 110 ∷ 103 ∷ []

abbrev lines : List (List ℕ)
lines = ping ∷ (97 ∷ []) ∷ []

abbrev line_stream : List ℕ
line_stream = 112 ∷ 105 ∷ 110 ∷ 103 ∷ 13 ∷ 10 ∷ 97 ∷ 13 ∷ 10 ∷ []

-- Cut inside the first mark.
abbrev pieces : List (List ℕ)
pieces = (112 ∷ 105 ∷ 110 ∷ 103 ∷ 13 ∷ []) ∷ (10 ∷ 97 ∷ []) ∷ (13 ∷ 10 ∷ []) ∷ []

lines-IsCarried : All (IsCarried (delimiter crlf) 100) lines
unfolding IsCarried position_of text_eq
lines-IsCarried = ((omega arith, omega arith, refl), ((omega arith, omega arith, refl), tt))

send_all-lines : send_all (delimiter crlf) lines ≡ ok line_stream
unfolding send_all frame_outbound
send_all-lines = refl

flatten-pieces : flatten pieces ≡ line_stream
unfolding flatten
flatten-pieces = refl

read_stream-send_all_example :
    read_stream (delimiter crlf) 100 [] 2 [] pieces [] ≡ ([] ++ map (raw_message []) lines, none)
read_stream-send_all_example =
    read_stream-send_all (delimiter crlf) 100 [] 2 lines pieces line_stream [] (omega arith)
      lines-IsCarried send_all-lines flatten-pieces (omega arith) (tt, (tt, (tt, tt)))

drain_frames-ne-out_of_fuel_example : drain_frames length_prefix 9 (0 ∷ 0 ∷ []) ≢ err out_of_fuel
drain_frames-ne-out_of_fuel_example = drain_frames-ne-out_of_fuel length_prefix 9 (0 ∷ 0 ∷ [])

-- A delimited frame of four octets passes a limit of one, where its mark has arrived with it.
above_the_limit : drain_frames (delimiter crlf) 1 (ping ++ crlf) ≡ ok (ping ∷ [], [])
unfolding drain_frames drain_loop next_frame next_delimited position_of text_eq
above_the_limit = refl

-- A whole frame in front of one that is too large is lost, where both arrive at once.
lost_before_error :
    drain_frames length_prefix 1 (0 ∷ 0 ∷ 0 ∷ 1 ∷ 7 ∷ 0 ∷ 0 ∷ 0 ∷ 2 ∷ []) ≡ err frame_too_large
unfolding drain_frames drain_loop next_frame next_prefixed be_number
lost_before_error = refl

delivered_before_error :
    drain_frames length_prefix 1 (0 ∷ 0 ∷ 0 ∷ 1 ∷ 7 ∷ []) ≡ ok ((7 ∷ []) ∷ [], [])
unfolding drain_frames drain_loop next_frame next_prefixed be_number
delivered_before_error = refl

abbrev plain : TransportConfig
plain = record {
  loss_rate = 0;
  delay_ms = 20;
  reorder = false;
  jitter_ms = 3;
  bandwidth_bps = 1000;
  bandwidth_after_nth = 0;
  bandwidth_after_bps = 0;
  mtu = 0;
  burst_loss = 1;
  duplicate_rate = 0;
  corrupt_rate = 0;
  drop_nth = 0;
  disconnect_nth = 0;
  delay_spike_nth = 0;
  delay_spike_ms = 0;
  mtu_blackhole = false;
  port_capacity = 0;
  nat_source_ip = none;
  nat_source_port = none;
  fault_steps = [];
  fault_flag = none;
  fault_when = none;
}

abbrev faulty : TransportConfig
faulty = record plain {
  loss_rate = 2 ^ 52;
  reorder = true;
  duplicate_rate = 2 ^ 52;
  burst_loss = 3;
}

abbrev limits : ResourceLimits
limits = record { max_inbox = 2; max_payload = 10 }

abbrev roles : List Text
roles = (99 ∷ []) ∷ (115 ∷ []) ∷ []

abbrev hello : Message
hello = record {
  from = 99 ∷ [];
  flags = [];
  seq = 1;
  ack = 0;
  payload = 104 ∷ 105 ∷ [];
  raw = [];
  window = 0;
  stream = none;
  fields = map_end;
}

abbrev exchange : List Event
exchange = send (115 ∷ []) hello 0 none ∷ send (99 ∷ []) hello 5 none ∷ []

plain-IsPerfect : IsPerfect plain
plain-IsPerfect = record {
  loss_rate = refl;
  reorder = refl;
  mtu = refl;
  duplicate_rate = refl;
  corrupt_rate = refl;
  drop_nth = refl;
  disconnect_nth = refl;
  port_capacity = refl;
  nat_source_ip = refl;
  nat_source_port = refl;
}

after_all-IsWithin_example :
    IsWithin 2
      (Network.inboxes (after_all faulty limits true (exchange ++ exchange) (with_options roles 7)))
after_all-IsWithin_example = after_all-IsWithin faulty limits true roles 7 (exchange ++ exchange)

server_inbox : inbox_of (115 ∷ []) (Network.inboxes (with_options roles 7)) ≡ some []
unfolding inbox_of with_options text_eq
server_inbox = refl

hello_fits : payload_len hello ≤ 10
unfolding payload_len
hello_fits = omega arith

send_scoped-IsAppended_example :
    IsAppended
      (115 ∷ [])
      []
      hello
      (with_options roles 7)
      (send_scoped plain limits true (115 ∷ []) hello 0 none (with_options roles 7))
unfolding with_options
send_scoped-IsAppended_example =
    send_scoped-IsAppended plain limits (115 ∷ []) [] hello 0 none (with_options roles 7)
      plain-IsPerfect refl server_inbox (omega arith) hello_fits

exchange-IsAllowed : All (IsAllowed limits (Network.inboxes (with_options roles 7))) exchange
unfolding IsAllowed inbox_of with_options text_eq
exchange-IsAllowed = ((([], refl), hello_fits), ((([], refl), hello_fits), tt))

after_all-sent_to_example :
    inbox_of
      (115 ∷ [])
      (Network.inboxes (after_all plain limits true exchange (with_options roles 7)))
    ≡ some (sent_to (115 ∷ []) exchange)
after_all-sent_to_example =
    after_all-sent_to plain limits roles 7 exchange (115 ∷ []) plain-IsPerfect (omega arith)
      exchange-IsAllowed server_inbox

-- In a burst that has two losses left.
abbrev struck_network : Network
struck_network = record (with_options roles 7) { burst_remaining = 2 }

exchange-IsStruck : All (IsStruck faulty) exchange
unfolding IsStruck is_eligible
exchange-IsStruck = (refl, (refl, tt))

inboxes-after_all-IsStruck_example :
    Network.inboxes (after_all faulty limits true exchange struck_network)
    ≡ Network.inboxes struck_network
inboxes-after_all-IsStruck_example =
    inboxes-after_all-IsStruck faulty limits true exchange struck_network exchange-IsStruck
      (omega arith) (omega arith)
