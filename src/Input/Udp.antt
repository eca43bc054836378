-- ===== src/Input/Udp.antt =====
-- input/input.go: the readLoop of UDPListener, and processMessages of RabbitMQConsumer, which has no
-- addresses. A datagram has at most 65536 bytes, the size of the buffer.
pub mod Arrivals
use xrootd_monitoring_shovel.Base.{
  Bool, true, false, List, [], ◌∷◌, Option, none, some, Bytes, bytes, if◌then◌else◌,
}
use xrootd_monitoring_shovel.Input.Rabbit.{PacketWithAddr}
use xrootd_monitoring_shovel.Input.Source.{Source, receive, stop_source, returns, offer}

-- What ReadFromUDP returns, a receive of the program, and Stop.
pub data UdpEvent : Type 0 where
  datagram : Bytes → Option Bytes → Bool → UdpEvent
  read_error program_receives stop_called : UdpEvent

-- The sender as text.
unfoldable pub address_of : Option Bytes → Bytes
address_of none = bytes "unknown:0"
address_of (some a) = a

abbrev pub packet_from : Bytes → Option Bytes → PacketWithAddr
packet_from b from = record { content = b; remote_addr = address_of from }

-- The check at the top of the loop.
unfoldable pub loop_top : {A : Type 0} → Source A → Source A
unfolding returns
loop_top {A} s = if s.stopping then returns A s else s

unfoldable pub on_udp : UdpEvent → Source PacketWithAddr → Source PacketWithAddr
unfolding loop_top offer receive stop_source address_of
on_udp (datagram b from prefers_stop) s =
    if s.running then loop_top (offer PacketWithAddr prefers_stop (packet_from b from) s) else s
on_udp read_error s = if s.running then loop_top s else s
on_udp program_receives s = receive PacketWithAddr s
on_udp stop_called s = stop_source PacketWithAddr s

unfoldable pub run_udp : List UdpEvent → Source PacketWithAddr → Source PacketWithAddr
unfolding on_udp
run_udp [] s = s
run_udp (e ∷ es) s = run_udp es (on_udp e s)

-- A delivery, the end of the deliveries, a receive of the program, and Stop.
pub data BusEvent : Type 0 where
  delivery : Bytes → Bool → BusEvent
  deliveries_end bus_receives bus_stop stop_seen : BusEvent

-- The body as it is, or out of base64.
unfoldable pub body_of : (Bytes → Option Bytes) → Bool → Bytes → Option Bytes
body_of decode base64_encoded body = if base64_encoded then decode body else some body

unfoldable pub on_bus : (Bytes → Option Bytes) → Bool → BusEvent → Source Bytes → Source Bytes
unfolding body_of offer receive stop_source returns
on_bus decode base64_encoded (delivery body prefers_stop) s =
    if s.running
    then (elim (body_of decode base64_encoded body) [
      | none ↦ s
      | some b ↦ offer Bytes prefers_stop b s
    ])
    else s
on_bus decode base64_encoded deliveries_end s = returns Bytes s
on_bus decode base64_encoded bus_receives s = receive Bytes s
on_bus decode base64_encoded bus_stop s = stop_source Bytes s
on_bus decode base64_encoded stop_seen s = if s.stopping then returns Bytes s else s

unfoldable pub run_bus : (Bytes → Option Bytes) → Bool → List BusEvent → Source Bytes → Source Bytes
unfolding on_bus
run_bus decode base64_encoded [] s = s
run_bus decode base64_encoded (e ∷ es) s =
    run_bus decode base64_encoded es (on_bus decode base64_encoded e s)
