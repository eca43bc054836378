-- ===== src/Shoveler/Received.antt =====
-- From the datagrams of a shoveler to the packets of a collector that reads them from RabbitMQ.
use xrootd_monitoring_shovel.Base.{
  ℕ, suc, ◌≡◌, refl, ap, ◌∙◌, true, false, List, [], ◌∷◌, ◌++◌, map, Option, Bytes, bytes, decimal,
}
use xrootd_monitoring_shovel.Packaging.{Encoders, map_ip}
use xrootd_monitoring_shovel.Queue.Messages.{MessageQueue}
use xrootd_monitoring_shovel.Publisher.{PublisherConfig, Fate, published, given_up, Pool}
use xrootd_monitoring_shovel.Input.Rabbit.{Codec, PacketWithAddr, Reader, Event, message, consume}
use xrootd_monitoring_shovel.Input.Rabbit.Envelope as Envelope
use xrootd_monitoring_shovel.Input.Rabbit.Envelope.{
  AgreeWith, delivery_of, packet_of, sent-consume-package_udp,
}
use xrootd_monitoring_shovel.Shoveler.{ShovelerConfig}
use xrootd_monitoring_shovel.Shoveler.Delivers.{
  Datagram, message_for, passed, Shovels, Shovels-publishes,
}

-- What a broker delivers of the messages that were published, tagged in their order; Ack and Nack work.
abbrev pub deliveries : ℕ → List Fate → List Event
deliveries n [] = []
deliveries n (published exchange m ∷ fs) =
    message (record { tag = n; body = m.message }) true true false ∷ deliveries (suc n) fs
deliveries n (given_up m ∷ fs) = deliveries n fs

-- The datagrams with these tags.
abbrev tagged : ℕ → List Datagram → List Envelope.Datagram
tagged n [] = []
tagged n ((packet, remote) ∷ ds) =
    record { tag = n; packet = packet; sender = remote; acks = true; nacks = true }
    ∷ tagged (suc n) ds

module _ (Conn : Type 0) (enc : Encoders) (shoveling : ShovelerConfig)
    (destinations : List (Option Conn)) where
  -- The packet that a collector sees of a datagram.
  abbrev pub packet_for : Datagram → PacketWithAddr
  packet_for (packet, remote) = record {
    content = packet;
    remote_addr = enc.join_host_port (map_ip remote shoveling.mapping) (decimal remote.port);
  }

  packets_for :
      (n : ℕ) (ds : List Datagram) (codec : Codec)
      → map (packet_of codec enc shoveling.version shoveling.mapping) (tagged n ds)
        ≡ map packet_for ds
  packets_for n [] codec = refl
  packets_for n ((packet, remote) ∷ ds) codec =
      ap (λ (l : List PacketWithAddr). packet_for (packet, remote) ∷ l)
        (packets_for (suc n) ds codec)

  deliveries_published :
      (n : ℕ) (exchange : Bytes) (ds : List Datagram) (codec : Codec)
      → deliveries n (
          map
            (λ (d : Datagram). published exchange (message_for Conn enc shoveling destinations d))
            ds)
        ≡ map (delivery_of codec enc shoveling.version shoveling.mapping) (tagged n ds)
  deliveries_published n exchange [] codec = refl
  deliveries_published n exchange ((packet, remote) ∷ ds) codec =
      ap
        (λ (l : List Event).
          delivery_of codec enc shoveling.version shoveling.mapping
            (record { tag = n; packet = packet; sender = remote; acks = true; nacks = true })
          ∷ l)
        (deliveries_published (suc n) exchange ds codec)

  module _ (queue : MessageQueue) (config : PublisherConfig) where
    open queue use {Q, messages, Valid}

    -- A shoveler in shoveler mode on an empty queue, until its token file changes for the first time,
    -- and a collector to whose reader a broker delivers what the shoveler has published, in order: the
    -- reader sends on the first of the datagrams that arrived at the shoveler and passed its check, with
    -- their bytes and their senders' mapped addresses, in the order of their arrival. JSON and base64
    -- are read as they are written.
    pub Shovels-received :
        (codec : Codec) (n : ℕ) (r : Reader) (q : Q) (ds : List Datagram) (p : Pool queue)
        → AgreeWith codec enc
        → config.mode ≡ bytes "shoveler"
        → Valid q
        → messages q ≡ []
        → Shovels Conn enc shoveling destinations queue config q ds p
        → p.generation ≡ 0
        → p.cancelled ≡ false
        → (first : List Datagram) × (rest : List Datagram) × ((consume codec
              (deliveries n p.fates)
              r).1.sent
            ≡ r.sent ++ map packet_for first)
          × (first ++ rest ≡ passed Conn enc shoveling destinations ds)
    Shovels-received codec n r q ds p agree mode v nothing s g c =
        let (first, rest, made, whole) =
          Shovels-publishes Conn enc shoveling destinations queue config q ds p mode v nothing s g
            c in
        (
          first,
          rest,
          ap (λ (es : List Event). (consume codec es r).1.sent)
                (ap (deliveries n) made ∙ deliveries_published n config.amqp_exchange first codec)
              ∙ sent-consume-package_udp codec enc shoveling.version shoveling.mapping agree
                  (tagged n first) r
              ∙ ap (λ (l : List PacketWithAddr). r.sent ++ l) (packets_for n first codec),
          whole,
        )
