-- ===== src/Input/Rabbit/Envelope.antt =====
-- The datagrams that a shoveler packages (packageudp.go) come out of the RabbitMQ reader.
use xrootd_monitoring_shovel.Base.{
  ℕ, ◌≡◌, refl, ap, ◌∙◌, Bool, false, List, [], ◌∷◌, ◌++◌, map, some, Bytes, decimal,
}
use xrootd_monitoring_shovel.Packaging.{UdpAddr, Message, Encoders, IpMapping, map_ip, package_udp}
use xrootd_monitoring_shovel.Input.Rabbit.{Codec, PacketWithAddr, Reader, Event, message, consume}
use xrootd_monitoring_shovel.Input.Rabbit.Sent.{packets, NoneStops, sent-consume}

-- json.Unmarshal reads what json.Marshal writes, under the same names of the fields, and base64 is
-- decoded to what was encoded.
pub record AgreeWith (codec : Codec) (enc : Encoders) : Type 0 where
  pub unmarshal-marshal :
      (m : Message)
      → codec.unmarshal (enc.marshal m)
        ≡ some (record { remote = m.remote; version = m.shoveler_version; encoded = m.encoded })
  pub decode-encode : (b : Bytes) → codec.decode (enc.encode b) ≡ some b

-- A datagram with its sender, delivered under a tag; the flags are whether Ack and Nack work.
pub record Datagram : Type 0 where
  pub tag : ℕ
  pub packet : Bytes
  pub sender : UdpAddr
  pub acks : Bool
  pub nacks : Bool

module _ (codec : Codec) (enc : Encoders) (version : Bytes) (config : IpMapping) where
  abbrev pub delivery_of : Datagram → Event
  delivery_of d =
      message (record { tag = d.tag; body = package_udp enc d.packet d.sender version config })
        d.acks d.nacks false

  abbrev pub packet_of : Datagram → PacketWithAddr
  packet_of d = record {
    content = d.packet;
    remote_addr = enc.join_host_port (map_ip d.sender config) (decimal d.sender.port);
  }

  NoneStops-deliveries : (ds : List Datagram) → NoneStops (map delivery_of ds)
  NoneStops-deliveries [] = tt
  NoneStops-deliveries (d ∷ ds) = (refl, NoneStops-deliveries ds)

  module _ (agree : AgreeWith codec enc) where
    packets-deliveries :
        (ds : List Datagram) → packets codec (map delivery_of ds) ≡ map packet_of ds
    unfolding package_udp
    packets-deliveries [] = refl
    packets-deliveries (d ∷ ds) =
        rw (agree.unmarshal-marshal, agree.decode-encode)
          (ap (◌∷◌ (packet_of d)) (packets-deliveries ds))

    -- Datagrams that a shoveler has packaged are sent on by the reader with their bytes and their
    -- senders' mapped addresses, in their order; calls to the broker may fail.
    pub sent-consume-package_udp :
        (ds : List Datagram) (r : Reader)
        → (consume codec (map delivery_of ds) r).1.sent ≡ r.sent ++ map packet_of ds
    sent-consume-package_udp ds r =
        sent-consume codec (map delivery_of ds) r (NoneStops-deliveries ds)
        ∙ ap (λ t. r.sent ++ t) (packets-deliveries ds)
