-- ===== src/Link/Errors.antt =====
-- TransportError of src/transport.rs, a constructor for each message that the modelled code writes.
use tcpform_protocol_lab.Wire.Values.{WireError}

pub data TransportErrorKind : Type 0 where
  transport : TransportErrorKind
  resource_limit : TransportErrorKind

-- The last two are not the source's: a slice's windows of size zero, which panic, and a loop that has
-- not ended.
pub data TransportError : Type 0 where
  unknown_destination : TransportError
  ports_exhausted : TransportError
  disconnected : TransportError
  no_socket : TransportError
  payload_too_large : TransportError
  payload_above_mtu : TransportError
  destination_full : TransportError
  inbox_full : TransportError
  frame_too_large : TransportError
  delimited_too_large : TransportError
  frame_above_u32 : TransportError
  empty_delimiter : TransportError
  wrong_fixed_size : TransportError
  unencodable : WireError → TransportError
  datagram_above_udp : TransportError
  datagram_too_large : TransportError
  invalid_datagram : WireError → TransportError
  zero_window : TransportError
  out_of_fuel : TransportError

unfoldable pub kind : TransportError → TransportErrorKind
kind unknown_destination = transport
kind ports_exhausted = resource_limit
kind disconnected = transport
kind no_socket = transport
kind payload_too_large = resource_limit
kind payload_above_mtu = resource_limit
kind destination_full = resource_limit
kind inbox_full = resource_limit
kind frame_too_large = resource_limit
kind delimited_too_large = resource_limit
kind frame_above_u32 = transport
kind empty_delimiter = transport
kind wrong_fixed_size = transport
kind (unencodable reason) = transport
kind datagram_above_udp = transport
kind datagram_too_large = transport
kind (invalid_datagram reason) = transport
kind zero_window = transport
kind out_of_fuel = transport
