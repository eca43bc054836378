-- ===== src/Input/Udp/Arrivals.antt =====
-- What the UDP listener hands over of the datagrams that arrive.
use mathlib.Core.List.{Sublist}
use mathlib.Core.List.Sublist as Sublist
use xrootd_monitoring_shovel.Base.{
  ◌≤◌, ◌≡◌, refl, List, [], ◌∷◌, ◌++◌, append_assoc, append-nil, length, arith, if-elim,
}
use xrootd_monitoring_shovel.Input.Rabbit.{PacketWithAddr}
use xrootd_monitoring_shovel.Input.Source.{
  Source, new_source, packets_capacity, stop_source, returns,
}
use xrootd_monitoring_shovel.Input.Source.Kept.{
  kept, kept-receive, length-receive, Within, Within-append, offer-Within,
}
use xrootd_monitoring_shovel.Input.Udp.{
  UdpEvent, datagram, read_error, program_receives, stop_called, packet_from, loop_top, on_udp,
  run_udp,
}

-- The packets of the datagrams, in the order in which they arrive.
abbrev pub arrivals : List UdpEvent → List PacketWithAddr
arrivals [] = []
arrivals (datagram b from prefers_stop ∷ es) = packet_from b from ∷ arrivals es
arrivals (_ ∷ es) = arrivals es

-- The packet of an event, if it is a datagram.
abbrev arrival : UdpEvent → List PacketWithAddr
arrival (datagram b from prefers_stop) = packet_from b from ∷ []
arrival _ = []

arrivals-cons : (e : UdpEvent) (es : List UdpEvent) → arrivals (e ∷ es) ≡ arrival e ++ arrivals es
arrivals-cons (datagram b from prefers_stop) es = refl
arrivals-cons read_error es = refl
arrivals-cons program_receives es = refl
arrivals-cons stop_called es = refl

abbrev Seen : List PacketWithAddr → Source PacketWithAddr → Type 0
Seen = Within PacketWithAddr

loop_top-Within :
    (seen : List PacketWithAddr) (s : Source PacketWithAddr) → Seen seen s → Seen seen (loop_top s)
unfolding loop_top returns
loop_top-Within seen s w =
    if-elim (Seen seen) s.stopping (record { in_order = w.in_order; bounded = w.bounded }) w

on_udp-Within :
    (e : UdpEvent) (seen : List PacketWithAddr) (s : Source PacketWithAddr)
    → Seen seen s
    → Seen (seen ++ arrival e) (on_udp e s)
unfolding on_udp stop_source
on_udp-Within (datagram b from prefers_stop) seen s w =
    if-elim (Seen (seen ++ packet_from b from ∷ [])) s.running
      (loop_top-Within _ _ (offer-Within PacketWithAddr prefers_stop (packet_from b from) seen s w))
      (Within-append PacketWithAddr seen (packet_from b from ∷ []) s w)
on_udp-Within read_error seen s w =
    rw append-nil (if-elim (Seen seen) s.running (loop_top-Within seen s w) w)
on_udp-Within program_receives seen s w = rw append-nil (record {
  in_order = rw kept-receive w.in_order;
  bounded = omega (arith, length-receive PacketWithAddr s, w.bounded);
})
on_udp-Within stop_called seen s w =
    rw append-nil (record { in_order = w.in_order; bounded = w.bounded })

run_udp-Within :
    (es : List UdpEvent) (seen : List PacketWithAddr) (s : Source PacketWithAddr)
    → Seen seen s
    → Seen (seen ++ arrivals es) (run_udp es s)
unfolding run_udp
run_udp-Within [] seen s w = rw append-nil w
run_udp-Within (e ∷ es) seen s w =
    rw (arrivals-cons e es, ← append_assoc seen (arrival e) (arrivals es))
      (run_udp-Within es (seen ++ arrival e) (on_udp e s) (on_udp-Within e seen s w))

-- Whatever arrives, fails, is received and is stopped in whatever order, what the program has
-- received and what waits in the channel are some of the datagrams, unchanged and in the order of
-- their arrival, and no more than 100 wait.
pub run_udp-arrivals :
    (es : List UdpEvent)
    → Sublist (kept PacketWithAddr (run_udp es (new_source PacketWithAddr))) (arrivals es)
      × (length (run_udp es (new_source PacketWithAddr)).buffered ≤ packets_capacity)
run_udp-arrivals es =
    let w =
      run_udp-Within es [] (new_source PacketWithAddr)
        (record { in_order = Sublist.refl []; bounded = omega arith }) in
    (w.in_order, w.bounded)
