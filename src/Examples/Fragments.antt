-- ===== src/Examples/Fragments.antt =====
-- The theorems on the reassembler of src/packet.rs, at two fragments of a datagram, and what an empty
-- fragment does to it.
use tcpform_protocol_lab.Base.{ℕ, ◌≡◌, refl, List, [], ◌∷◌, true, false, none, some}
use tcpform_protocol_lab.Packet.Types.{DecodedPacket, Ipv4Header, ipv4}
use tcpform_protocol_lab.Packet.Reassembly.{
  ReassemblyConfig, chunk_bytes, find_key, key_eq, insert_chunk, remove_key, buffered, pending, new,
  push_at,
}
use tcpform_protocol_lab.Packet.Reassembly.Bounded.{IsBounded, push_all, push_all-IsBounded}
use tcpform_protocol_lab.Examples.Packets.{header}

abbrev fragment_header : Ipv4Header
fragment_header = record header { protocol = some 253; more_fragments = true }

abbrev fragment_of : Ipv4Header → List ℕ → DecodedPacket
fragment_of h bytes = record {
  packet = record { ethernet = none; network = ipv4 h; transport = none; payload = bytes };
  network_payload = bytes;
  ipv4_checksum_valid = some true;
  transport_checksum_valid = none;
  trailing = [];
}

abbrev first : DecodedPacket
first = fragment_of fragment_header (1 ∷ 2 ∷ 3 ∷ 4 ∷ 5 ∷ 6 ∷ 7 ∷ 8 ∷ [])

abbrev last : DecodedPacket
last = fragment_of (record fragment_header { more_fragments = false; fragment_offset = 1 }) (9 ∷ [])

abbrev empty : DecodedPacket
empty = fragment_of fragment_header []

abbrev small : ReassemblyConfig
small = record { max_datagrams = 1; max_buffered_bytes = 8; timeout = 30 }

push_all-IsBounded_example : IsBounded (push_all (new small) ((last, 0) ∷ (first, 1) ∷ []))
push_all-IsBounded_example = push_all-IsBounded small ((last, 0) ∷ (first, 1) ∷ [])

abbrev large : ReassemblyConfig
large = record { max_datagrams = 4; max_buffered_bytes = 100; timeout = 30 }

-- The eight octets of the first fragment are held.
first_held : buffered (push_all (new large) ((first, 0) ∷ [])).datagrams ≡ 8
unfolding push_all push_at new buffered chunk_bytes find_key key_eq insert_chunk remove_key
first_held = refl

-- An empty fragment at the same offset takes their place, since it overlaps nothing.
empty_erases : buffered (push_all (new large) ((first, 0) ∷ (empty, 1) ∷ [])).datagrams ≡ 0
unfolding push_all push_at new buffered chunk_bytes find_key key_eq insert_chunk remove_key
empty_erases = refl

-- Without it the datagram is complete.
completes : pending (push_all (new large) ((first, 0) ∷ (last, 1) ∷ [])) ≡ 0
unfolding push_all push_at new pending find_key key_eq insert_chunk remove_key
completes = refl

-- With it the datagram waits until it expires.
waits : pending (push_all (new large) ((first, 0) ∷ (empty, 1) ∷ (last, 2) ∷ [])) ≡ 1
unfolding push_all push_at new pending find_key key_eq insert_chunk remove_key
waits = refl
