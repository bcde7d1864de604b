-- ===== src/Packet/TcpState.antt =====
-- `TcpStateTracker` of src/packet.rs: the life cycle of one endpoint, from the segments it sends and
-- receives.
pub mod History
use Prim.Native.String.{String}
use tcpform_protocol_lab.Base.{
  ℕ, bit_and, Bool, true, false, not, ◌==◌, if◌then◌else◌, Option, none, some, List, [], ◌∷◌,
  Result, ok, err,
}
use tcpform_protocol_lab.Packet.Types.{
  PacketError, invalid_transition, TcpState, TcpDirection, closed, syn_sent, syn_received,
  established, fin_wait1, fin_wait2, close_wait, last_ack, time_wait, reset, outbound, inbound,
}

abbrev pub flag_fin : ℕ
flag_fin = 0x001

abbrev pub flag_syn : ℕ
flag_syn = 0x002

abbrev pub flag_rst : ℕ
flag_rst = 0x004

abbrev pub flag_ack : ℕ
flag_ack = 0x010

-- flags & bit != 0
unfoldable pub has : ℕ → ℕ → Bool
has flags bit = not (bit_and flags bit == 0)

unfoldable pub select_names : ℕ → List (ℕ × String) → List String
unfolding has
select_names flags [] = []
select_names flags ((bit, name) ∷ rest) =
    if has flags bit then name ∷ select_names flags rest else select_names flags rest

unfoldable pub tcp_flag_names : ℕ → List String
unfolding select_names
tcp_flag_names flags = select_names flags (
    (0x001, "FIN")
    ∷ (0x002, "SYN")
    ∷ (0x004, "RST")
    ∷ (0x008, "PSH")
    ∷ (0x010, "ACK")
    ∷ (0x020, "URG")
    ∷ (0x040, "ECE")
    ∷ (0x080, "CWR")
    ∷ (0x100, "NS")
    ∷ [])

-- The arms of the `match`, in their order; `none` is the last one, which returns the error.
unfoldable pub transition : TcpState → TcpDirection → Bool → Bool → Bool → Option TcpState
transition closed outbound true false false = some syn_sent
transition closed inbound true false false = some syn_received
transition syn_sent inbound true true false = some established
transition syn_received outbound true true false = some syn_received
transition syn_received inbound false true false = some established
transition established outbound syn ack true = some fin_wait1
transition established inbound syn ack true = some close_wait
transition fin_wait1 inbound syn true false = some fin_wait2
transition fin_wait1 inbound syn ack true = some time_wait
transition fin_wait2 inbound syn ack true = some time_wait
transition close_wait outbound syn ack true = some last_ack
transition last_ack inbound syn true false = some closed
transition syn_sent direction false ack false = some syn_sent
transition syn_received direction false ack false = some syn_received
transition established direction false ack false = some established
transition fin_wait1 direction false ack false = some fin_wait1
transition fin_wait2 direction false ack false = some fin_wait2
transition close_wait direction false ack false = some close_wait
transition time_wait direction false true false = some time_wait
transition _ _ _ _ _ = none

-- The tracker after the call, and what the call returns. An error leaves the tracker as it was.
abbrev pub settle :
    TcpState → TcpDirection → ℕ → Option TcpState → TcpState × Result PacketError TcpState
settle state direction flags (some next) = (next, ok next)
settle state direction flags none =
    (state, err (invalid_transition direction state (tcp_flag_names flags)))

unfoldable pub observe : TcpState → TcpDirection → ℕ → TcpState × Result PacketError TcpState
observe state direction flags =
    if has flags flag_rst
    then (reset, ok reset)
    else settle state direction flags
        (transition state direction (has flags flag_syn) (has flags flag_ack) (has flags flag_fin))
