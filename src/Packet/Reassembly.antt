-- ===== src/Packet/Reassembly.antt =====
-- `FragmentReassembler` of src/packet.rs. A time is a number, of the unit of the timeout. The
-- `HashMap` of datagrams is an association list, whose order nothing depends on, and the `BTreeMap`
-- of chunks is a list in the order of the offsets.
pub mod Bounded
use tcpform_protocol_lab.Base.{
  ℕ, ◌+◌, ◌-◌, ◌*◌, ◌%◌, Bool, true, false, not, ◌&&◌, ◌||◌, Option, none, some, List, [], ◌∷◌,
  ◌++◌, length, ltb, leb, ◌==◌, if◌then◌else◌, Result, ok, err, ◌>>=◌,
}
use tcpform_protocol_lab.Packet.Types
use tcpform_protocol_lab.Packet.Types.{
  PacketError, EthernetHeader, Ipv4Header, Ipv6Header, NetworkHeader, ipv4, ipv6, Packet,
  DecodedPacket, Ipv4Addr, Ipv6Addr,
}
use tcpform_protocol_lab.Packet.Transport.{decode_transport}

pub record ReassemblyConfig : Type 0 where
  pub max_datagrams : ℕ
  pub max_buffered_bytes : ℕ
  pub timeout : ℕ

pub data FragmentKey : Type 0 where
  ipv4_key : Ipv4Addr → Ipv4Addr → ℕ → ℕ → FragmentKey
  ipv6_key : Ipv6Addr → Ipv6Addr → ℕ → ℕ → FragmentKey

abbrev pub Chunks : Type 0
Chunks = List (ℕ × List ℕ)

pub record FragmentSet : Type 0 where
  pub created : ℕ
  pub ethernet : Option EthernetHeader
  pub network : NetworkHeader
  pub protocol : ℕ
  pub chunks : Chunks
  pub total_length : Option ℕ

pub record FragmentReassembler : Type 0 where
  pub config : ReassemblyConfig
  pub datagrams : List (FragmentKey × FragmentSet)

unfoldable pub octets_eq : List ℕ → List ℕ → Bool
octets_eq [] [] = true
octets_eq [] (y ∷ ys) = false
octets_eq (x ∷ xs) [] = false
octets_eq (x ∷ xs) (y ∷ ys) = x == y && octets_eq xs ys

-- The derived equality.
unfoldable pub key_eq : FragmentKey → FragmentKey → Bool
unfolding octets_eq
key_eq (ipv4_key s d i p) (ipv4_key s' d' i' p') =
    octets_eq s s' && (octets_eq d d' && (i == i' && p == p'))
key_eq (ipv6_key s d i p) (ipv6_key s' d' i' p') =
    octets_eq s s' && (octets_eq d d' && (i == i' && p == p'))
key_eq (ipv4_key s d i p) (ipv6_key s' d' i' p') = false
key_eq (ipv6_key s d i p) (ipv4_key s' d' i' p') = false

module _ {ℓ} {V : Type ℓ} where
  unfoldable pub find_key : FragmentKey → List (FragmentKey × V) → Option V
  find_key key [] = none
  find_key key ((k, v) ∷ rest) = if key_eq k key then some v else find_key key rest

  unfoldable pub remove_key : FragmentKey → List (FragmentKey × V) → List (FragmentKey × V)
  remove_key key [] = []
  remove_key key ((k, v) ∷ rest) =
      if key_eq k key then remove_key key rest else (k, v) ∷ remove_key key rest

-- BTreeMap::get and BTreeMap::insert
unfoldable pub find_chunk : ℕ → Chunks → Option (List ℕ)
find_chunk offset [] = none
find_chunk offset ((o, bytes) ∷ rest) = if o == offset then some bytes else find_chunk offset rest

unfoldable pub insert_chunk : ℕ → List ℕ → Chunks → Chunks
insert_chunk offset bytes [] = (offset, bytes) ∷ []
insert_chunk offset bytes ((o, b) ∷ rest) =
    if ltb offset o
    then (offset, bytes) ∷ (o, b) ∷ rest
    else if o == offset
    then (offset, bytes) ∷ rest
    else (o, b) ∷ insert_chunk offset bytes rest

-- FragmentReassembler::new
unfoldable pub new : ReassemblyConfig → FragmentReassembler
new config = record { config = config; datagrams = [] }

-- `now.checked_duration_since(set.created).unwrap_or_default() <= timeout`; subtraction stops at 0.
unfoldable pub is_fresh : ℕ → ℕ → FragmentSet → Bool
is_fresh now timeout set = leb (now - set.created) timeout

unfoldable pub retain : ℕ → ℕ → List (FragmentKey × FragmentSet) → List (FragmentKey × FragmentSet)
unfolding is_fresh
retain now timeout [] = []
retain now timeout ((key, set) ∷ rest) =
    if is_fresh now timeout set
    then (key, set) ∷ retain now timeout rest
    else retain now timeout rest

-- FragmentReassembler::expire and ::pending
unfoldable pub expire : FragmentReassembler → ℕ → FragmentReassembler × ℕ
unfolding retain
expire r now =
    let kept = retain now r.config.timeout r.datagrams in
    (record r { datagrams = kept }, length r.datagrams - length kept)

unfoldable pub pending : FragmentReassembler → ℕ
pending r = length r.datagrams

abbrev pub Identity : Type 0
Identity = FragmentKey × ℕ × Bool × ℕ

abbrev pub identify_ipv4 : Ipv4Header → Option ℕ → Option Identity
identify_ipv4 header none = none
identify_ipv4 header (some protocol) = some (
  ipv4_key header.source header.destination header.identification protocol,
  header.fragment_offset * 8,
  header.more_fragments,
  protocol,
)

abbrev pub identify_ipv6 : Ipv6Header → Option Types.Ipv6Fragment → Option Identity
identify_ipv6 header none = none
identify_ipv6 header (some fragment) = some (
  ipv6_key header.source header.destination fragment.identification fragment.next_header,
  fragment.offset * 8,
  fragment.more_fragments,
  fragment.next_header,
)

unfoldable pub fragment_identity : NetworkHeader → Option Identity
fragment_identity (ipv4 header) =
    if not (header.fragment_offset == 0) || header.more_fragments
    then identify_ipv4 header header.protocol
    else none
fragment_identity (ipv6 header) = identify_ipv6 header header.fragment

unfoldable pub clear_fragment_header : NetworkHeader → ℕ → NetworkHeader
clear_fragment_header (ipv4 header) protocol = ipv4 (record header {
  fragment_offset = 0;
  more_fragments = false;
  total_length = none;
  ihl = none;
  protocol = some protocol;
  checksum = Types.auto;
})
clear_fragment_header (ipv6 header) protocol =
    ipv6 (record header { fragment = none; next_header = some protocol; payload_length = none })

unfoldable pub chunk_bytes : Chunks → ℕ
chunk_bytes [] = 0
chunk_bytes ((o, bytes) ∷ rest) = length bytes + chunk_bytes rest

unfoldable pub buffered : List (FragmentKey × FragmentSet) → ℕ
unfolding chunk_bytes
buffered [] = 0
buffered ((key, set) ∷ rest) = chunk_bytes set.chunks + buffered rest

-- The loop over the chunks that are there: the first that the new one meets decides.
pub data Meeting : Type 0 where
  clear duplicate overlap : Meeting

unfoldable pub meet : ℕ → List ℕ → Chunks → Meeting
unfolding octets_eq
meet offset bytes [] = clear
meet offset bytes ((o, existing) ∷ rest) =
    if ltb offset (o + length existing) && ltb o (offset + length bytes)
    then (if o == offset && octets_eq existing bytes then duplicate else overlap)
    else meet offset bytes rest

-- The loop over `cursor`: `none` where a chunk does not start at it.
unfoldable pub covered : ℕ → Chunks → Option ℕ
covered cursor [] = some cursor
covered cursor ((o, bytes) ∷ rest) =
    if o == cursor then covered (cursor + length bytes) rest else none

unfoldable pub concat_chunks : Chunks → List ℕ
concat_chunks [] = []
concat_chunks ((o, bytes) ∷ rest) = bytes ++ concat_chunks rest

abbrev pub Pushed : Type 0
Pushed = FragmentReassembler × Result PacketError (Option Packet)

-- The set of a datagram that is complete, decoded as a packet.
unfoldable pub finish : FragmentSet → Result PacketError (Option Packet)
unfolding concat_chunks
finish set = do
  let network = clear_fragment_header set.network set.protocol
  decoded ← decode_transport network set.protocol (concat_chunks set.chunks) false
  ok (
      some (record {
        ethernet = set.ethernet;
        network = network;
        transport = decoded.0;
        payload = decoded.1;
      }))

unfoldable pub is_complete : FragmentSet → Bool
unfolding covered
is_complete set = elim set.total_length [
  | none ↦ false
  | some total ↦ elim (covered 0 set.chunks) [ none ↦ false | some cursor ↦ cursor == total ]
]

-- The fragment at the offset 0 brings the headers.
unfoldable pub first_updated : FragmentSet → DecodedPacket → ℕ → FragmentSet
first_updated set fragment offset =
    if offset == 0
    then record set { ethernet = fragment.packet.ethernet; network = fragment.packet.network }
    else set

abbrev pub conflicts : Option ℕ → ℕ → Bool
conflicts none end_offset = false
conflicts (some total) end_offset = not (total == end_offset)

unfoldable pub store : FragmentSet → ℕ → List ℕ → Bool → FragmentSet
store set offset bytes more = record set {
  chunks = insert_chunk offset bytes set.chunks;
  total_length = (if more then set.total_length else some (offset + length bytes));
}

-- The map without the key, with the set in front of it.
abbrev pub with_set : FragmentReassembler → FragmentKey → FragmentSet → FragmentReassembler
with_set r key set = record r { datagrams = (key, set) ∷ remove_key key r.datagrams }

abbrev pub without_set : FragmentReassembler → FragmentKey → FragmentReassembler
without_set r key = record r { datagrams = remove_key key r.datagrams }

-- `push_at` behind the overlap check.
unfoldable pub accept :
    FragmentReassembler → DecodedPacket → FragmentKey → FragmentSet → ℕ → Bool → Pushed
unfolding first_updated store is_complete finish
accept r fragment key set offset more =
    let bytes = fragment.network_payload in
    let updated = first_updated set fragment offset in
    let stored = store updated offset bytes more in
    if not more && conflicts updated.total_length (offset + length bytes)
    then (without_set r key, err PacketError.conflicting_final)
    else if is_complete stored
    then (without_set r key, finish stored)
    else (with_set r key stored, ok none)

abbrev pub fresh_set : DecodedPacket → ℕ → ℕ → FragmentSet
fresh_set fragment protocol now = record {
  created = now;
  ethernet = fragment.packet.ethernet;
  network = fragment.packet.network;
  protocol = protocol;
  chunks = [];
  total_length = none;
}

-- entry(key).or_insert_with(..)
unfoldable pub entry : FragmentReassembler → DecodedPacket → FragmentKey → ℕ → ℕ → FragmentSet
entry r fragment key protocol now = elim (find_key key r.datagrams) [
  | some set ↦ set
  | none ↦ fresh_set fragment protocol now
]

abbrev pub same_chunk : Option (List ℕ) → List ℕ → Bool
same_chunk none bytes = false
same_chunk (some existing) bytes = octets_eq existing bytes

abbrev pub is_duplicate : Option FragmentSet → ℕ → List ℕ → Bool
is_duplicate none offset bytes = false
is_duplicate (some set) offset bytes = same_chunk (find_chunk offset set.chunks) bytes

abbrev pub is_known : Option FragmentSet → Bool
is_known none = false
is_known (some set) = true

-- `push_at` behind the limits.
unfoldable pub join : FragmentReassembler → DecodedPacket → FragmentKey → ℕ → Bool → ℕ → ℕ → Pushed
unfolding entry accept meet
join r fragment key offset more protocol now =
    let set = entry r fragment key protocol now in
    let bytes = fragment.network_payload in
    if leb 0x10000000000000000 (offset + length bytes)
    then (with_set r key set, err PacketError.fragment_range_overflow)
    else elim (meet offset bytes set.chunks) [
      | duplicate ↦ (with_set r key set, ok none)
      | overlap ↦ (without_set r key, err PacketError.overlapping_fragments)
      | clear ↦ accept r fragment key set offset more
    ]

-- `push_at` on a fragment, behind the call of `expire`.
unfoldable pub push_fragment : FragmentReassembler → DecodedPacket → Identity → ℕ → Pushed
unfolding join buffered find_chunk octets_eq
push_fragment r fragment (key, offset, more, protocol) now =
    let found = find_key key r.datagrams in
    let bytes = fragment.network_payload in
    if more && not (length bytes % 8 == 0)
    then (r, err PacketError.ragged_fragment)
    else if not (is_known found) && leb r.config.max_datagrams (length r.datagrams)
    then (r, err (PacketError.max_datagrams_reached r.config.max_datagrams))
    else if not (is_duplicate found offset bytes)
        && ltb r.config.max_buffered_bytes (buffered r.datagrams + length bytes)
    then (r, err (PacketError.max_buffered_bytes_reached r.config.max_buffered_bytes))
    else join r fragment key offset more protocol now

abbrev pub push_identified : FragmentReassembler → DecodedPacket → Option Identity → ℕ → Pushed
push_identified r fragment none now = (r, ok (some fragment.packet))
push_identified r fragment (some identity) now = push_fragment r fragment identity now

unfoldable pub push_at : FragmentReassembler → DecodedPacket → ℕ → Pushed
unfolding push_fragment expire fragment_identity
push_at r fragment now =
    push_identified (expire r now).0 fragment (fragment_identity fragment.packet.network) now
