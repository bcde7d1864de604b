-- ===== src/Examples/States.antt =====
-- The theorems on `TcpStateTracker` of src/packet.rs, at a connection opened and closed.
use tcpform_protocol_lab.Base.{ℕ, ◌≡◌, ◌⊎◌, refl, List, [], ◌∷◌, true, false, ok, err}
use tcpform_protocol_lab.Packet.Types.{
  TcpDirection, invalid_transition, closed, established, close_wait, reset, outbound, inbound,
}
use tcpform_protocol_lab.Packet.TcpState.{has, flag_rst, tcp_flag_names, transition, observe}
use tcpform_protocol_lab.Packet.TcpState.History.{
  track, nothing_seen, witnessed, Explains, track-Explains, observe_cases,
}

-- SYN, SYN and ACK, ACK, and the FIN of the other side.
abbrev handshake : List (TcpDirection × ℕ)
handshake = (outbound, 2) ∷ (inbound, 18) ∷ (outbound, 16) ∷ (inbound, 17) ∷ []

handshake_state : track closed handshake ≡ close_wait
unfolding track observe transition has
handshake_state = refl

track-Explains_example : Explains (track closed handshake) (witnessed nothing_seen handshake)
track-Explains_example = track-Explains handshake

observe_cases_example :
    (((observe established inbound 2).1 ≡ ok (observe established inbound 2).0)
      ⊎ ((observe established inbound 2).0 ≡ established)
        × ((observe established inbound 2).1
            ≡ err (invalid_transition inbound established (tcp_flag_names 2))))
    × (has 2 flag_rst ≡ true → observe established inbound 2 ≡ (reset, ok reset))
    × ((observe reset inbound 2).0 ≡ reset)
    × (has 2 flag_rst ≡ false
        → (observe reset inbound 2).1 ≡ err (invalid_transition inbound reset (tcp_flag_names 2)))
observe_cases_example = observe_cases established inbound 2
