-- ===== src/Input/Rabbit.antt =====
-- `consume` and `processMessage` of input/rabbitmq_input.go. JSON and base64 are parameters. What the
-- select of the loop takes next, and whether a call to the broker works, are events.
pub mod Settled
pub mod Sent
pub mod Envelope
use xrootd_monitoring_shovel.Base.{
  ℕ, ◌+◌, Bool, true, false, ◌&&◌, List, [], ◌∷◌, ◌++◌, Option, none, some, Bytes, ltb, leb,
  if◌then◌else◌,
}

-- RabbitMQMessage, PacketWithAddr and the parts of amqp.Delivery that the code uses
pub record RabbitMessage : Type 0 where
  pub remote : Bytes
  pub version : Bytes
  pub encoded : Bytes

pub record PacketWithAddr : Type 0 where
  pub content : Bytes
  pub remote_addr : Bytes

pub record Delivery : Type 0 where
  pub tag : ℕ
  pub body : Bytes

-- json.Unmarshal into a RabbitMQMessage, and base64.StdEncoding.DecodeString
pub record Codec : Type 0 where
  pub unmarshal : Bytes → Option RabbitMessage
  pub decode : Bytes → Option Bytes

-- What passes between the reader and the broker: a delivery, an Ack of all deliveries up to a tag,
-- a Nack of one, and calls of these that fail.
pub data Call : Type 0 where
  delivered : ℕ → Call
  acked : ℕ → Call
  ack_failed : ℕ → Call
  rejected : ℕ → Call
  reject_failed : ℕ → Call

-- The fields of RabbitMQReader that the loop changes, except lastAckTime, which nothing reads, with
-- the calls so far, the last first, and the packets sent on the channel.
pub record Reader : Type 0 where
  pub unacked_count : ℕ
  pub last_ack_delivery_tag : ℕ
  pub calls : List Call
  pub sent : List PacketWithAddr

-- How processMessage ends: an error, or nil with the packet sent, or nil because the stop channel
-- was taken.
pub data Processed : Type 0 where
  bad : Processed
  forwarded : PacketWithAddr → Processed
  dropped : Processed

-- The flag is whether the select takes the stop channel.
unfoldable pub process_message : Codec → Bytes → Bool → Processed
process_message codec body stopping = elim (codec.unmarshal body) [
  | none ↦ bad
  | some m ↦ elim (codec.decode m.encoded) [
    | none ↦ bad
    | some b ↦
        if stopping then dropped else forwarded (record { content = b; remote_addr = m.remote })
  ]
]

unfoldable pub note : Call → Reader → Reader
note c r = record r { calls = c ∷ r.calls }

-- r.channel.Ack(r.lastAckDeliveryTag, true), which works or fails
unfoldable pub call_ack : Bool → Reader → Reader
unfolding note
call_ack works r =
    note (if works then acked r.last_ack_delivery_tag else ack_failed r.last_ack_delivery_tag) r

unfoldable pub has_unacked : Reader → Bool
has_unacked r = ltb 0 r.unacked_count && ltb 0 r.last_ack_delivery_tag

-- The Ack of the ticker and of a full batch, which leaves the count when it fails.
unfoldable pub ack_counted : Bool → Reader → Reader
unfolding call_ack
ack_counted true r = record (call_ack true r) { unacked_count = 0 }
ack_counted false r = call_ack false r

unfoldable pub on_tick : Bool → Reader → Reader
unfolding has_unacked ack_counted
on_tick works r = if has_unacked r then ack_counted works r else r

unfoldable pub on_stop : Bool → Reader → Reader
unfolding has_unacked call_ack
on_stop works r = if has_unacked r then call_ack works r else r

-- The branch for an error; the flags are whether Ack and Nack work.
unfoldable pub on_bad : Bool → Bool → ℕ → Reader → Reader
unfolding has_unacked call_ack note
on_bad acks nacks tag r =
    let r = if has_unacked r then record (call_ack acks r) { unacked_count = 0 } else r in
    let r = note (if nacks then rejected tag else reject_failed tag) r in
    record r { last_ack_delivery_tag = tag }

-- The branch for nil, with the batch of 100.
unfoldable pub on_good : Bool → ℕ → Reader → Reader
unfolding ack_counted
on_good acks tag r =
    let r = record r { unacked_count = r.unacked_count + 1; last_ack_delivery_tag = tag } in
    if leb 100 r.unacked_count then ack_counted acks r else r

unfoldable pub on_processed : Processed → Bool → Bool → ℕ → Reader → Reader
unfolding on_bad on_good
on_processed bad acks nacks tag r = on_bad acks nacks tag r
on_processed (forwarded p) acks nacks tag r =
    on_good acks tag (record r { sent = r.sent ++ p ∷ [] })
on_processed dropped acks nacks tag r = on_good acks tag r

-- What the loop takes next, with whether each call that it may make works. The last flag of a
-- message is whether the select of processMessage takes the stop channel.
pub data Event : Type 0 where
  tick : Bool → Event
  message : Delivery → Bool → Bool → Bool → Event
  stop : Bool → Event
  closed : Event

-- The loop is in its next round, has returned nil, or has returned an error.
pub data Ending : Type 0 where
  waiting : Ending
  stopped : Ending
  channel_closed : Ending

unfoldable pub on_message : Codec → Delivery → Bool → Bool → Bool → Reader → Reader
unfolding process_message on_processed note
on_message codec d acks nacks stopping r =
    on_processed (process_message codec d.body stopping) acks nacks d.tag (note (delivered d.tag) r)

unfoldable pub consume_loop : Codec → List Event → Reader → Ending × Reader
unfolding on_tick on_stop on_message
consume_loop codec [] r = (waiting, r)
consume_loop codec (tick works ∷ es) r = consume_loop codec es (on_tick works r)
consume_loop codec (message d acks nacks stopping ∷ es) r =
    consume_loop codec es (on_message codec d acks nacks stopping r)
consume_loop codec (stop works ∷ es) r = (stopped, on_stop works r)
consume_loop codec (closed ∷ es) r = (channel_closed, r)

-- consume behind the call of Consume: the counts start anew, as do the deliveries of the channel.
unfoldable pub consume : Codec → List Event → Reader → Ending × Reader
unfolding consume_loop
consume codec es r =
    consume_loop codec es (record r { unacked_count = 0; last_ack_delivery_tag = 0; calls = [] })
