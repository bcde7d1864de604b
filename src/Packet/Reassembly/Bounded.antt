-- ===== src/Packet/Reassembly/Bounded.antt =====
-- `FragmentReassembler` of src/packet.rs keeps to its limits.
use tcpform_protocol_lab.Base.{
  ℕ, suc, ◌+◌, ◌%◌, ◌≤◌, ◌<◌, ◌≡◌, ◌≢◌, refl, ap, subst, arith, Bool, true, false, not, ◌&&◌,
  Option, none, some, List, [], ◌∷◌, length, ltb, leb, ltb-false→le, ◌==◌, Bool-cases, inl, inr, ok,
  err, ==_iff,
}
use tcpform_protocol_lab.Packet.Types.{PacketError, DecodedPacket}
use tcpform_protocol_lab.Packet.Reassembly.{
  ReassemblyConfig, FragmentKey, Chunks, FragmentSet, FragmentReassembler, octets_eq, key_eq,
  find_key, remove_key, find_chunk, insert_chunk, new, retain, is_fresh, expire, Identity,
  fragment_identity, chunk_bytes, buffered, Meeting, clear, duplicate, overlap, meet, Pushed,
  first_updated, conflicts, store, is_complete, with_set, without_set, accept, entry, same_chunk,
  is_duplicate, is_known, join, push_fragment, push_identified, push_at,
}

abbrev Datagrams : Type 0
Datagrams = List (FragmentKey × FragmentSet)

retain-le :
    (now timeout : ℕ) (ds : Datagrams)
    → (length (retain now timeout ds) ≤ length ds)
      × (buffered (retain now timeout ds) ≤ buffered ds)
unfolding retain buffered
retain-le now timeout [] = (omega arith, omega arith)
retain-le now timeout ((key, set) ∷ ds) =
    let (a, b) = retain-le now timeout ds in
    elim (Bool-cases (is_fresh now timeout set)) [
      | inl e ↦ rw e (omega arith, omega arith)
      | inr e ↦ rw e (omega arith, omega arith)
    ]

remove_key-le :
    (key : FragmentKey) (ds : Datagrams)
    → (length (remove_key key ds) ≤ length ds) × (buffered (remove_key key ds) ≤ buffered ds)
unfolding remove_key buffered
remove_key-le key [] = (omega arith, omega arith)
remove_key-le key ((k, set) ∷ ds) =
    let (a, b) = remove_key-le key ds in
    elim (Bool-cases (key_eq k key)) [
      | inl e ↦ rw e (omega arith, omega arith)
      | inr e ↦ rw e (omega arith, omega arith)
    ]

-- What a datagram that is there takes up is free once it is removed.
remove_key-found :
    (key : FragmentKey) (ds : Datagrams) (set : FragmentSet)
    → find_key key ds ≡ some set
    → (suc (length (remove_key key ds)) ≤ length ds)
      × (buffered (remove_key key ds) + chunk_bytes set.chunks ≤ buffered ds)
unfolding find_key remove_key buffered
remove_key-found key [] set e = cc
remove_key-found key ((k, v) ∷ ds) set e = elim (Bool-cases (key_eq k key)) [
  | inl t ↦
      let (a, b) = remove_key-le key ds in
      let same : v ≡ set = cc in
      rw t (omega arith, omega (arith, ap (λ (s : FragmentSet). chunk_bytes s.chunks) same))
  | inr t ↦ let (a, b) = remove_key-found key ds set (rw t at e) in rw t (omega arith, omega arith)
]

insert_chunk-le :
    (offset : ℕ) (bytes : List ℕ) (chunks : Chunks)
    → chunk_bytes (insert_chunk offset bytes chunks) ≤ chunk_bytes chunks + length bytes
unfolding insert_chunk chunk_bytes
insert_chunk-le offset bytes [] = omega arith
insert_chunk-le offset bytes ((o, b) ∷ rest) =
    let h = insert_chunk-le offset bytes rest in ground arith

octets_eq-length : (xs ys : List ℕ) → octets_eq xs ys ≡ true → length xs ≡ length ys
unfolding octets_eq
octets_eq-length [] [] e = refl
octets_eq-length [] (y ∷ ys) e = cc
octets_eq-length (x ∷ xs) [] e = cc
octets_eq-length (x ∷ xs) (y ∷ ys) e =
    let h : octets_eq xs ys ≡ true = ground arith in ap suc (octets_eq-length xs ys h)

-- A chunk that is there already, and is not empty, is met.
meet-ne-clear :
    (offset : ℕ) (bytes : List ℕ) (chunks : Chunks)
    → same_chunk (find_chunk offset chunks) bytes ≡ true
    → 0 < length bytes
    → meet offset bytes chunks ≢ clear
unfolding find_chunk meet
meet-ne-clear offset bytes [] e h = cc
meet-ne-clear offset bytes ((o, existing) ∷ rest) e h = elim (Bool-cases (o == offset)) [
  | inl t ↦
      let octets : octets_eq existing bytes ≡ true = rw t at e in
      let here : o ≡ offset = (==_iff o offset).0 t in
      let size = octets_eq-length existing bytes octets in
      let starts : ltb offset (o + length existing) ≡ true = ground arith in
      let ends : ltb o (offset + length bytes) ≡ true = ground arith in
      rw (starts, ends, t, octets, meet) (λ p. cc)
  | inr t ↦
      let later = meet-ne-clear offset bytes rest (rw t at e) h in
      elim (Bool-cases (ltb offset (o + length existing) && ltb o (offset + length bytes))) [
        | inl meets ↦ rw (meets, t, meet) (λ p. cc)
        | inr passes ↦ rw (passes, meet) later
      ]
]

pub record IsBounded (r : FragmentReassembler) : Type 0 where
  pub datagrams_fit : length r.datagrams ≤ r.config.max_datagrams
  pub bytes_fit : buffered r.datagrams ≤ r.config.max_buffered_bytes

without_set-IsBounded :
    (r : FragmentReassembler) (key : FragmentKey) → IsBounded r → IsBounded (without_set r key)
without_set-IsBounded r key h =
    let (a, b) = remove_key-le key r.datagrams in
    record {
      datagrams_fit = omega (arith, h.datagrams_fit);
      bytes_fit = omega (arith, h.bytes_fit);
    }

-- Room for the set of a key, beside what the other keys take up.
record HasRoom (r : FragmentReassembler) (key : FragmentKey) (size : ℕ) : Type 0 where
  one_more : suc (length (remove_key key r.datagrams)) ≤ r.config.max_datagrams
  bytes_fit : buffered (remove_key key r.datagrams) + size ≤ r.config.max_buffered_bytes

with_set-IsBounded :
    (r : FragmentReassembler) (key : FragmentKey) (set : FragmentSet) (size : ℕ)
    → HasRoom r key size
    → chunk_bytes set.chunks ≤ size
    → IsBounded (with_set r key set)
unfolding buffered
with_set-IsBounded r key set size h le = record {
  datagrams_fit = omega (arith, h.one_more);
  bytes_fit = omega (arith, h.bytes_fit);
}

first_updated-chunks :
    (set : FragmentSet) (fragment : DecodedPacket) (offset : ℕ)
    → (first_updated set fragment offset).chunks ≡ set.chunks
unfolding first_updated
first_updated-chunks set fragment offset = elim (Bool-cases (offset == 0)) [
  | inl e ↦ rw e
  | inr e ↦ rw e
]

accept-IsBounded :
    (r : FragmentReassembler) (fragment : DecodedPacket) (key : FragmentKey) (set : FragmentSet)
    (offset : ℕ) (more : Bool)
    → IsBounded r
    → HasRoom r key (chunk_bytes set.chunks + length fragment.network_payload)
    → IsBounded (accept r fragment key set offset more).0
unfolding accept store
accept-IsBounded r fragment key set offset more h room =
    let bytes = fragment.network_payload in
    let updated = first_updated set fragment offset in
    let stored = store updated offset bytes more in
    let size : chunk_bytes stored.chunks ≤ chunk_bytes set.chunks + length bytes = omega (
      arith,
      insert_chunk-le offset bytes updated.chunks,
      ap chunk_bytes (first_updated-chunks set fragment offset),
    ) in
    elim (Bool-cases (not more && conflicts updated.total_length (offset + length bytes))) [
      | inl e ↦ rw e (without_set-IsBounded r key h)
      | inr e ↦ rw e (elim (Bool-cases (is_complete stored)) [
        | inl f ↦ rw f (without_set-IsBounded r key h)
        | inr f ↦ rw f (with_set-IsBounded r key stored _ room size)
      ])
    ]

abbrev chunks_of : Option FragmentSet → Chunks
chunks_of none = []
chunks_of (some set) = set.chunks

entry-chunks :
    (r : FragmentReassembler) (fragment : DecodedPacket) (key : FragmentKey) (protocol now : ℕ)
    (found : Option FragmentSet)
    → find_key key r.datagrams ≡ found
    → (entry r fragment key protocol now).chunks ≡ chunks_of found
unfolding entry
entry-chunks r fragment key protocol now none e = rw (e, entry)
entry-chunks r fragment key protocol now (some set) e = rw (e, entry)

-- The room that the limits leave: for the set as it is, and for one more fragment unless the
-- fragment is there already.
entry-HasRoom :
    (r : FragmentReassembler) (fragment : DecodedPacket) (key : FragmentKey) (protocol now : ℕ)
    (found : Option FragmentSet) (size : ℕ)
    → find_key key r.datagrams ≡ found
    → IsBounded r
    → (not (is_known found) && leb r.config.max_datagrams (length r.datagrams)) ≡ false
    → buffered r.datagrams + size ≤ r.config.max_buffered_bytes
    → HasRoom r key (chunk_bytes (entry r fragment key protocol now).chunks + size)
unfolding chunk_bytes
entry-HasRoom r fragment key protocol now (some set) size e h limit fits =
    let (a, b) = remove_key-found key r.datagrams set e in
    rw (entry-chunks r fragment key protocol now (some set) e)
      (record { one_more = omega (arith, h.datagrams_fit); bytes_fit = omega arith })
entry-HasRoom r fragment key protocol now none size e h limit fits =
    let (a, b) = remove_key-le key r.datagrams in
    rw (entry-chunks r fragment key protocol now none e)
      (record { one_more = ground arith; bytes_fit = omega arith })

-- Behind the limits: the fragment has room, or it is one that is there already, is not empty, and
-- so is not stored a second time.
join-IsBounded :
    (r : FragmentReassembler) (fragment : DecodedPacket) (key : FragmentKey) (offset : ℕ)
    (more : Bool) (protocol now : ℕ)
    → IsBounded r
    → HasRoom r key (chunk_bytes (entry r fragment key protocol now).chunks)
    → (meet offset fragment.network_payload (entry r fragment key protocol now).chunks ≡ clear
        → HasRoom r key (
            chunk_bytes (entry r fragment key protocol now).chunks
            + length fragment.network_payload))
    → IsBounded (join r fragment key offset more protocol now).0
unfolding join
join-IsBounded r fragment key offset more protocol now h room room_more =
    let set = entry r fragment key protocol now in
    let kept = with_set-IsBounded r key set _ room (omega arith) in
    elim (Bool-cases (leb 0x10000000000000000 (offset + length fragment.network_payload))) [
      | inl e ↦ rw e kept
      | inr e ↦ rw e (met (meet offset fragment.network_payload set.chunks) refl kept)
    ]
  where
    met :
        (m : Meeting)
        → meet offset fragment.network_payload (entry r fragment key protocol now).chunks ≡ m
        → IsBounded (with_set r key (entry r fragment key protocol now))
        → IsBounded
            (elim m as (λ _. Pushed) [
              | duplicate ↦ (with_set r key (entry r fragment key protocol now), ok none)
              | overlap ↦ (without_set r key, err PacketError.overlapping_fragments)
              | clear ↦ accept r fragment key (entry r fragment key protocol now) offset more
            ]).0
    met clear e kept =
        accept-IsBounded r fragment key (entry r fragment key protocol now) offset more h
          (room_more e)
    met duplicate e kept = kept
    met overlap e kept = without_set-IsBounded r key h

-- Where the limit on octets is not tested, the fragment is there already.
room_for :
    (r : FragmentReassembler) (fragment : DecodedPacket) (key : FragmentKey)
    (offset protocol now : ℕ) (found : Option FragmentSet)
    → find_key key r.datagrams ≡ found
    → IsBounded r
    → (not (is_known found) && leb r.config.max_datagrams (length r.datagrams)) ≡ false
    → is_duplicate found offset fragment.network_payload ≡ true
    → meet offset fragment.network_payload (entry r fragment key protocol now).chunks ≡ clear
    → HasRoom r key
        (chunk_bytes (entry r fragment key protocol now).chunks + length fragment.network_payload)
room_for r fragment key offset protocol now none e h limit d m = cc
room_for r fragment key offset protocol now (some set) e h limit d m =
    let size = length fragment.network_payload in
    let same = entry-chunks r fragment key protocol now (some set) e in
    elim (Bool-cases (size == 0)) [
      | inl z ↦
          entry-HasRoom r fragment key protocol now (some set) size e h limit
            (omega (arith, (==_iff size 0).0 z, h.bytes_fit))
      | inr z ↦
          absurd (
            meet-ne-clear offset fragment.network_payload set.chunks d (ground arith)
              (rw same at m))
    ]

push_fragment-IsBounded :
    (r : FragmentReassembler) (fragment : DecodedPacket) (identity : Identity) (now : ℕ)
    → IsBounded r
    → IsBounded (push_fragment r fragment identity now).0
unfolding push_fragment
push_fragment-IsBounded r fragment (key, offset, more, protocol) now h =
    let bytes = fragment.network_payload in
    let found = find_key key r.datagrams in
    elim (Bool-cases (more && not (length bytes % 8 == 0))) [
      | inl a ↦ rw a h
      | inr a ↦
          rw a
            (elim (Bool-cases
              (not (is_known found) && leb r.config.max_datagrams (length r.datagrams))) [
                | inl b ↦ rw b h
                | inr b ↦ rw b (elim (Bool-cases (is_duplicate found offset bytes)) [
                  | inl c ↦
                      rw c (placed b (room_for r fragment key offset protocol now found refl h b c))
                  | inr c ↦
                      rw c
                        (elim (Bool-cases
                          (ltb r.config.max_buffered_bytes (buffered r.datagrams + length bytes))) [
                            | inl d ↦ rw d h
                            | inr d ↦ rw d (
                                placed b (λ _.
                                  entry-HasRoom r fragment key protocol now found (length bytes)
                                    refl h b (ltb-false→le _ _ d)))
                          ])
                ])
              ])
    ]
  where
    placed :
        (not (is_known (find_key key r.datagrams))
            && leb r.config.max_datagrams (length r.datagrams))
          ≡ false
        → (meet offset fragment.network_payload (entry r fragment key protocol now).chunks ≡ clear
            → HasRoom r key (
                chunk_bytes (entry r fragment key protocol now).chunks
                + length fragment.network_payload))
        → IsBounded (join r fragment key offset more protocol now).0
    placed limit room_more =
        join-IsBounded r fragment key offset more protocol now h
          (subst (HasRoom r key) (omega arith) (
            entry-HasRoom r fragment key protocol now (find_key key r.datagrams) 0 refl h limit
              (omega (arith, h.bytes_fit))))
          room_more

-- A call keeps the limits, also where it returns an error.
push_at-IsBounded :
    (r : FragmentReassembler) (fragment : DecodedPacket) (now : ℕ)
    → IsBounded r
    → IsBounded (push_at r fragment now).0
unfolding push_at expire
push_at-IsBounded r fragment now h =
    let (a, b) = retain-le now r.config.timeout r.datagrams in
    let fresh : IsBounded (expire r now).0 = record {
      datagrams_fit = omega (arith, h.datagrams_fit);
      bytes_fit = omega (arith, h.bytes_fit);
    } in
    identified (fragment_identity fragment.packet.network) fresh
  where
    identified :
        (identity : Option Identity)
        → IsBounded (expire r now).0
        → IsBounded (push_identified (expire r now).0 fragment identity now).0
    identified none fresh = fresh
    identified (some identity) fresh =
        push_fragment-IsBounded (expire r now).0 fragment identity now fresh

-- Any number of calls, each with its time.
unfoldable pub push_all : FragmentReassembler → List (DecodedPacket × ℕ) → FragmentReassembler
push_all r [] = r
push_all r ((fragment, now) ∷ rest) = push_all (push_at r fragment now).0 rest

push_all-IsBounded_from :
    (r : FragmentReassembler) (calls : List (DecodedPacket × ℕ))
    → IsBounded r
    → IsBounded (push_all r calls)
unfolding push_all
push_all-IsBounded_from r [] h = h
push_all-IsBounded_from r ((fragment, now) ∷ rest) h =
    push_all-IsBounded_from (push_at r fragment now).0 rest (push_at-IsBounded r fragment now h)

-- Whatever packets are pushed into a new reassembler, and at whatever times, it never holds more
-- datagrams or more octets than it is configured for.
pub push_all-IsBounded :
    (config : ReassemblyConfig) (calls : List (DecodedPacket × ℕ))
    → IsBounded (push_all (new config) calls)
unfolding new buffered
push_all-IsBounded config calls =
    push_all-IsBounded_from (new config) calls
      (record { datagrams_fit = omega arith; bytes_fit = omega arith })
