-- ===== src/Lib.antt =====
-- tcpform protocol lab: the packet codec (src/packet.rs), the planner (src/graph.rs), the model checker
-- (src/model_check.rs), and of the transports (src/transport.rs) the live message format, the framing
-- of streams and the simulated network; and the hexadecimal literals of src/value.rs.
--
-- tcpform describes protocols in a small language, plans and runs them, and reads and writes real
-- packets. The codec of those packets performs no I/O: an encoder is a function from headers to
-- octets or an error, a decoder a function back; the fragmenters and the reassembler stand on both.
-- The planner orders the steps of a protocol, and the model checker explores, breadth first, the
-- schedules of a plan and the states that they lead to.
--
--   Base                 shared names: Boolean tests, lists, results (the `?` of Rust), bit masks,
--                        names (texts and maps keyed by them)
--   Packet.Types         the structs and enums; each message of PacketError is a constructor
--   Packet.Bytes         to_be_bytes, from_be_bytes, slices and resize
--   Packet.Checksum      internet_checksum, checksum_add, checksum_finish, transport_checksum,
--                        Checksum::resolve; the proofs are in Folding and Valid
--   Packet.Options       encode_tcp_options, decode_tcp_options; RoundTrip
--   Packet.Transport     encode_transport, encode_tcp, encode_udp, decode_transport,
--                        complete_transport_header; the proofs are in Tcp, Udp and Damage
--   Packet.Ip            encode_ipv4, decode_ipv4, encode_ipv6, decode_ipv6, decode_ip; Fields, Ipv4
--   Packet.Frame         Packet::encode, Packet::protocol, encode_ethernet, decode_ethernet;
--                        Ethernet, RoundTrip
--   Packet.TcpState      TcpStateTracker::observe, tcp_flag_names; History
--   Packet.Fragment      fragment_ipv4, fragment_ipv6, copied_ipv4_options
--   Packet.Reassembly    FragmentReassembler: new, push_at, expire, pending; Bounded
--   Schedule.Protocol    Protocol, Step and Invariant of src/model.rs
--   Schedule.Plan        plan of src/graph.rs; the proofs are in Counts, Release, Names, Order and
--                        Planned
--   Schedule.Checker     the states and the steps of src/model_check.rs
--   Schedule.Search      check, check_safety, check_liveness, add_violation; Meaning (what a
--                        report says, from the plan alone), Follows, Ready, Blame, Sound, Total
--   Wire.Values          Message of src/primitives.rs and Value of src/value.rs, texts and maps
--   Wire.Encode          encode_message, encode_value, put_u32, put_bytes, put_string of
--                        src/transport.rs
--   Wire.Cursor          decode_message and the Cursor; the proofs are in Codes, Atoms, Canonical,
--                        Entries, RoundTrip, Texts, Lookup, Bounded and Total
--   Link.Errors          TransportError; Link.Frames: frame_outbound, drain_frames; Parts, Total
--   Link.Inbox           push_message_limited, push_raw_message; Lossy, Room
--   Link.Reader          the loop of spawn_stream_raw_reader; Cut, Stream
--   Link.Live            the TCP arm of send_message and spawn_tcp_reader; Delivery
--   Link.Datagrams       the UDP arm of send_message and spawn_udp_reader; Delivery
--   Link.Network         Transport, TransportConfig and the random numbers; Link.Network.Send:
--                        send_scoped, deliver_copies and the workers; Keeps, Touched, Bounded,
--                        Perfect, Fifo, Burst
--   Hex                  parse_hex, hex_digit and bytes_to_hex of src/value.rs; RoundTrip
--   Examples             tests, and the theorems at inputs that meet their hypotheses
--
-- Octets, u16 and u32 are native numbers; where the code shifts or casts, the wrap-around is written
-- out, and a theorem that needs a field's width assumes it. A buffer that the code fills field by
-- field is written front to back, with the checksum field as an argument. `&` and `|` are the bitwise
-- operations of the library. `usize` has 64 bits; the u64 sum of a checksum cannot wrap on a buffer
-- below 2 ^ 48 octets. The state of the tracker and of the reassembler is passed and returned.
--
-- Loops: checksum_finish by recursion on accessibility of the sum; the loops over options on the
-- octets that remain, with their number as fuel, since each round passes one octet at least; the
-- fragmenters with the number of payload octets as fuel, since a round that succeeds passes one octet
-- at least; the sort of the planner with the number of steps, since a step is placed once; the
-- exploration with one round for the first state and two for each step of each state that the limit
-- admits. `out_of_fuel` stands for a loop that has not ended, and `slice_out_of_range` for the panic of
-- a slice in the loop over TCP options.
--
-- The live format: a text is its octets with the test of String::from_utf8, an i64 or f64 its 64 bits,
-- a HashMap the list of its entries in the order of iteration, which the encoder sorts. A decoder
-- passes the cursor; Cursor::value recurses with one more than the number of octets as fuel, since a
-- value takes an octet at least. drain_frames has the pending octets as fuel, since a frame takes one
-- at least. The simulated network passes its state and returns it with an error too; a rate is the
-- least number of 53 random bits that is not below it; a worker that sleeps is an event that may come
-- at any time, and the clock is not modelled. fault_predicate_matches is a parameter of the
-- configuration. A reader is the sequence of what `read` returns; nobody takes messages out meanwhile.
--
-- The reassembler's HashMap is an association list and its BTreeMap a list in the order of the keys.
-- Times are numbers; `push`, which reads the clock, is `push_at` at that time. The planner's maps from
-- step names are lists in the order of declaration, or functions; the order in which the code visits
-- the entries of a map is not observable, since the ready steps are sorted. Of a condition of a step
-- the model keeps whether it is a constant.
--
-- Not modelled: the parts of the repository around these (the language, its engine, other sockets,
-- reports, user interfaces), and of the codec itself the Default instances, the text form of a MAC
-- address and `decoded_fields`. Memory is not modelled: neither what the live decoder reserves for the
-- counts that a buffer claims, nor the stack of its recursion.
pub mod Base
pub mod Packet
pub mod Schedule
pub mod Wire
pub mod Link
pub mod Hex
pub mod Examples
