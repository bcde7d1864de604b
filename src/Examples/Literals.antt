-- ===== src/Examples/Literals.antt =====
-- The theorems on the hexadecimal literals of src/value.rs, at an IPv4 header's first octets.
use tcpform_protocol_lab.Base.{ℕ, ◌≡◌, List, [], ◌∷◌, true, All, arith, ok}
use tcpform_protocol_lab.Packet.Bytes.{IsByte}
use tcpform_protocol_lab.Hex.{parse_hex, bytes_to_hex}
use tcpform_protocol_lab.Hex.RoundTrip.{spaced, parse_hex-spaced, parse_hex-bytes_to_hex}

abbrev octets : List ℕ
octets = 0x45 ∷ 0 ∷ 0 ∷ 0x3C ∷ []

octets-IsByte : All IsByte octets
octets-IsByte = (omega arith, (omega arith, (omega arith, (omega arith, tt))))

parse_hex-bytes_to_hex_example : parse_hex (bytes_to_hex octets) ≡ ok octets
parse_hex-bytes_to_hex_example = parse_hex-bytes_to_hex octets octets-IsByte

parse_hex-spaced_example :
    (parse_hex (spaced true octets) ≡ ok octets)
    × (parse_hex (48 ∷ 120 ∷ spaced true octets) ≡ ok octets)
parse_hex-spaced_example = parse_hex-spaced true octets octets-IsByte
