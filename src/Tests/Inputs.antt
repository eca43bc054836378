-- ===== src/Tests/Inputs.antt =====
-- Deliveries whose body is the packet itself; the empty body is an error.
use xrootd_monitoring_shovel.Base.{
  ap, ◌∙◌, ◌++◌, map, length, take, drop, take-append, drop-append, Option, Bytes, lookup, eqb,
  decimal, ◌≡◌, refl, true, false, List, [], ◌∷◌, none, some, bytes,
}
use xrootd_monitoring_shovel.Packaging.{Encoders, IpMapping, map_ip}
use xrootd_monitoring_shovel.Input.Rabbit.Envelope.{
  AgreeWith, Datagram, delivery_of, sent-consume-package_udp,
}
use xrootd_monitoring_shovel.Input.Rabbit.{
  RabbitMessage, Codec, Reader, Event, tick, message, stop, delivered, acked, stopped, consume,
}

abbrev plain : Codec
plain = record {
  unmarshal = λ b. some (record { remote = bytes "h:1"; version = []; encoded = b });
  decode = λ b. elim b [ [] ↦ none | c ∷ cs ↦ some (c ∷ cs) ];
}

abbrev pub fresh : Reader
fresh = record { unacked_count = 7; last_ack_delivery_tag = 9; calls = []; sent = [] }

abbrev events : List Event
events =
    message (record { tag = 1; body = 8 ∷ [] }) true true false
    ∷ message (record { tag = 2; body = [] }) true true false
    ∷ tick true
    ∷ message (record { tag = 3; body = 9 ∷ [] }) true true false
    ∷ stop true
    ∷ []

runs_in_order :
    (consume plain events fresh).1.sent
    ≡ record { content = 8 ∷ []; remote_addr = bytes "h:1" }
      ∷ record { content = 9 ∷ []; remote_addr = bytes "h:1" }
      ∷ []
unfolding consume
runs_in_order = refl

-- A message whose send gives way to the stop is not sent, and yet acknowledged.
lost :
    consume plain
      (message (record { tag = 1; body = 8 ∷ [] }) true true true ∷ stop true ∷ [])
      fresh
    ≡ (
      stopped,
      record {
        unacked_count = 1;
        last_ack_delivery_tag = 1;
        calls = acked 1 ∷ delivered 1 ∷ [];
        sent = [];
      },
    )
unfolding consume
lost = refl

-- Texts behind their lengths, in place of JSON.
abbrev pub framed : Encoders
framed = record {
  join_host_port = λ host port. host ++ b':' ∷ port;
  encode = λ b. b;
  marshal = λ m.
      length m.remote
      ∷ (m.remote ++ (length m.shoveler_version ∷ (m.shoveler_version ++ m.encoded)));
}

abbrev pub framed_rest : Bytes → Bytes → Option RabbitMessage
framed_rest remote [] = none
framed_rest remote (n ∷ s) =
    some (record { remote = remote; version = take n s; encoded = drop n s })

abbrev pub unframed : Codec
unframed = record {
  unmarshal = λ b. elim b [ [] ↦ none | n ∷ s ↦ framed_rest (take n s) (drop n s) ];
  decode = λ b. some b;
}

framed_rest-append :
    (a v e : Bytes)
    → framed_rest a (length v ∷ (v ++ e)) ≡ some (record { remote = a; version = v; encoded = e })
framed_rest-append a v e =
    ap (λ t. some (record { remote = a; version = t; encoded = drop (length v) (v ++ e) }))
      (take-append v e)
    ∙ ap (λ t. some (record { remote = a; version = v; encoded = t })) (drop-append v e)

unframed-framed :
    (a v e : Bytes)
    → unframed.unmarshal (length a ∷ (a ++ (length v ∷ (v ++ e))))
      ≡ some (record { remote = a; version = v; encoded = e })
unframed-framed a v e =
    ap (λ t. framed_rest t (drop (length a) (a ++ (length v ∷ (v ++ e)))))
      (take-append a (length v ∷ (v ++ e)))
    ∙ ap (framed_rest a) (drop-append a (length v ∷ (v ++ e)))
    ∙ framed_rest-append a v e

pub framed_agree : AgreeWith unframed framed
framed_agree = record {
  unmarshal-marshal = λ m. unframed-framed m.remote m.shoveler_version m.encoded;
  decode-encode = λ b. refl;
}

abbrev pub mapping : IpMapping
mapping = record { ip_map_all = []; ip_map = (bytes "10.0.0.1", bytes "192.0.2.1") ∷ [] }

abbrev datagrams : List Datagram
datagrams =
    record {
      tag = 1;
      packet = 1 ∷ 2 ∷ 3 ∷ [];
      sender = record { ip = bytes "10.0.0.1"; port = 9930 };
      acks = true;
      nacks = true;
    }
    ∷ []

sent-consume-package_udp_at_input :
    (consume unframed
      (map (delivery_of unframed framed (bytes "1.0") mapping) datagrams)
      fresh).1.sent
    ≡ record { content = 1 ∷ 2 ∷ 3 ∷ []; remote_addr = bytes "192.0.2.1:9930" } ∷ []
unfolding map_ip lookup eqb decimal
sent-consume-package_udp_at_input =
    sent-consume-package_udp unframed framed (bytes "1.0") mapping framed_agree datagrams fresh
