-- ===== src/Packet/Options.antt =====
-- `encode_tcp_options` and `decode_tcp_options` of src/packet.rs.
pub mod RoundTrip
use tcpform_protocol_lab.Base.{
  ℕ, zero, suc, ◌+◌, ◌-◌, ◌*◌, ◌%◌, List, [], ◌∷◌, ◌++◌, length, take, drop, ltb, leb, ◌==◌,
  if◌then◌else◌, ◌&&◌, ◌||◌, not, Bool, true, false, Result, ok, err, ◌>>=◌, ◌>>◌, refuse_if,
}
use tcpform_protocol_lab.Packet.Types.{
  PacketError, sack_length, unknown_option_too_long, truncated_option, invalid_option, out_of_fuel,
  slice_out_of_range, TcpOption, end_of_list, nop, sack_permitted, maximum_segment_size,
  window_scale, sack, timestamp, unknown,
}
use tcpform_protocol_lab.Packet.Bytes.{put_u16, put_u32, u16_of, u32_of}

unfoldable pub encode_blocks : List (ℕ × ℕ) → List ℕ
encode_blocks [] = []
encode_blocks ((left, right) ∷ blocks) = put_u32 left (put_u32 right (encode_blocks blocks))

-- What one round of the loop appends to the buffer.
unfoldable pub encode_option : TcpOption → Result PacketError (List ℕ)
encode_option end_of_list = ok (0 ∷ [])
encode_option nop = ok (1 ∷ [])
encode_option (maximum_segment_size v) = ok (2 ∷ 4 ∷ put_u16 v [])
encode_option (window_scale v) = ok (3 ∷ 3 ∷ v ∷ [])
encode_option sack_permitted = ok (4 ∷ 2 ∷ [])
encode_option (sack blocks) =
    let len = 2 + length blocks * 8 in
    do
      refuse_if (length blocks == 0 || ltb 255 len) sack_length
      ok (5 ∷ (len % 256) ∷ encode_blocks blocks)
encode_option (timestamp v echo) = ok (8 ∷ 10 ∷ put_u32 v (put_u32 echo []))
encode_option (unknown kind bytes) = do
  refuse_if (ltb 255 (length bytes + 2)) unknown_option_too_long
  ok (kind ∷ (length bytes + 2) ∷ bytes)

unfoldable pub encode_tcp_options : List TcpOption → Result PacketError (List ℕ)
encode_tcp_options [] = ok []
encode_tcp_options (option ∷ options) = do
  front ← encode_option option
  back ← encode_tcp_options options
  ok (front ++ back)

-- chunks_exact(8)
unfoldable pub decode_blocks : List ℕ → List (ℕ × ℕ)
decode_blocks (a ∷ b ∷ c ∷ d ∷ e ∷ f ∷ g ∷ h ∷ rest) =
    (u32_of a b c d, u32_of e f g h) ∷ decode_blocks rest
decode_blocks _ = []

-- The arms of `match (kind, data)`, one function for each kind that has an arm.
unfoldable pub decode_mss : List ℕ → TcpOption
decode_mss (a ∷ b ∷ []) = maximum_segment_size (u16_of a b)
decode_mss bytes = unknown 2 bytes

unfoldable pub decode_scale : List ℕ → TcpOption
decode_scale (scale ∷ []) = window_scale scale
decode_scale bytes = unknown 3 bytes

unfoldable pub decode_permitted : List ℕ → TcpOption
decode_permitted [] = sack_permitted
decode_permitted bytes = unknown 4 bytes

unfoldable pub decode_sack : List ℕ → TcpOption
decode_sack bytes =
    if not (length bytes == 0) && length bytes % 8 == 0
    then sack (decode_blocks bytes)
    else unknown 5 bytes

unfoldable pub decode_timestamp : List ℕ → TcpOption
decode_timestamp (a ∷ b ∷ c ∷ d ∷ e ∷ f ∷ g ∷ h ∷ []) = timestamp (u32_of a b c d) (u32_of e f g h)
decode_timestamp bytes = unknown 8 bytes

unfoldable pub decode_option : ℕ → List ℕ → TcpOption
unfolding decode_mss decode_scale decode_permitted decode_sack decode_timestamp decode_blocks
decode_option kind bytes =
    if kind == 2
    then decode_mss bytes
    else if kind == 3
    then decode_scale bytes
    else if kind == 4
    then decode_permitted bytes
    else if kind == 5
    then decode_sack bytes
    else if kind == 8
    then decode_timestamp bytes
    else unknown kind bytes

-- &bytes[start..end], which panics where it is not a range inside the octets.
unfoldable pub octets_between : ℕ → ℕ → List ℕ → Result PacketError (List ℕ)
octets_between start end bytes =
    if ltb end start || ltb (length bytes) end
    then err slice_out_of_range
    else ok (take (end - start) (drop start bytes))

-- The `while` loop on what `offset` has not passed; each round passes one octet at least.
unfoldable pub decode_options_loop : ℕ → List ℕ → Result PacketError (List TcpOption)
unfolding octets_between
decode_options_loop fuel [] = ok []
decode_options_loop zero (kind ∷ rest) = err out_of_fuel
decode_options_loop (suc fuel) (kind ∷ []) =
    if kind == 0
    then ok (end_of_list ∷ [])
    else if kind == 1
    then ok (nop ∷ [])
    else err truncated_option
decode_options_loop (suc fuel) (kind ∷ len ∷ body) =
    let behind_nop = decode_options_loop fuel (len ∷ body) in
    let behind_option = decode_options_loop fuel (drop len (kind ∷ len ∷ body)) in
    if kind == 0
    then ok (end_of_list ∷ [])
    else if kind == 1
    then (do options ← behind_nop; ok (nop ∷ options))
    else if ltb len 2 || ltb (length body + 2) len
    then err (invalid_option kind len)
    else do
      bytes ← octets_between 2 len (kind ∷ len ∷ body)
      options ← behind_option
      ok (decode_option kind bytes ∷ options)

unfoldable pub decode_tcp_options : List ℕ → Result PacketError (List TcpOption)
unfolding decode_options_loop decode_option
decode_tcp_options bytes = decode_options_loop (length bytes) bytes
