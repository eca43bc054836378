-- ===== src/Input/Rabbit/Sent.antt =====
-- The packets that the reader sends on.
use xrootd_monitoring_shovel.Base.{
  ℕ, ◌≡◌, refl, ap, ◌∙◌, append-nil, append_assoc, ◌++◌, Bytes, Option, none, some, Bool, false,
  List, [], ◌∷◌, arith,
}
use xrootd_monitoring_shovel.Parser.Wire.{◌>>=◌}
use xrootd_monitoring_shovel.Input.Rabbit.{
  PacketWithAddr, delivered, Reader, Codec, Delivery, Processed, bad, forwarded, note, call_ack,
  ack_counted, on_tick, on_stop, on_bad, on_good, on_processed, on_message, process_message, Event,
  tick, message, stop, closed, consume_loop, consume,
}

-- The packet that a delivery holds.
abbrev decoded : Codec → Bytes → Option PacketWithAddr
decoded codec body = do
  m ← codec.unmarshal body
  b ← codec.decode m.encoded
  some (record { content = b; remote_addr = m.remote })

abbrev onto : Option PacketWithAddr → List PacketWithAddr → List PacketWithAddr
onto none ps = ps
onto (some p) ps = p ∷ ps

-- The packets of the deliveries before a stop or the end of the channel.
abbrev pub packets : Codec → List Event → List PacketWithAddr
packets codec [] = []
packets codec (tick works ∷ es) = packets codec es
packets codec (message d acks nacks stopping ∷ es) = onto (decoded codec d.body) (packets codec es)
packets codec (stop works ∷ es) = []
packets codec (closed ∷ es) = []

-- No select of processMessage takes the stop channel.
abbrev pub NoneStops : List Event → Type 0
NoneStops [] = Unit
NoneStops (message d acks nacks stopping ∷ es) = (stopping ≡ false) × NoneStops es
NoneStops (_ ∷ es) = NoneStops es

sent-on_tick : (works : Bool) (r : Reader) → (on_tick works r).sent ≡ r.sent
unfolding on_tick ack_counted call_ack note
sent-on_tick works r = ground arith

sent-on_stop : (works : Bool) (r : Reader) → (on_stop works r).sent ≡ r.sent
unfolding on_stop call_ack note
sent-on_stop works r = ground arith

sent-on_good : (acks : Bool) (tag : ℕ) (r : Reader) → (on_good acks tag r).sent ≡ r.sent
unfolding on_good ack_counted call_ack note
sent-on_good acks tag r = ground arith

sent-on_bad : (acks nacks : Bool) (tag : ℕ) (r : Reader) → (on_bad acks nacks tag r).sent ≡ r.sent
unfolding on_bad call_ack note
sent-on_bad acks nacks tag r = ground arith

processed : Option PacketWithAddr → Processed
processed none = bad
processed (some p) = forwarded p

process_message-decoded :
    (codec : Codec) (body : Bytes)
    → process_message codec body false ≡ processed (decoded codec body)
unfolding process_message processed
process_message-decoded codec body = ground arith

sent-on_processed :
    (o : Option PacketWithAddr) (acks nacks : Bool) (tag : ℕ) (r : Reader)
    (ps : List PacketWithAddr)
    → (on_processed (processed o) acks nacks tag r).sent ++ ps ≡ r.sent ++ onto o ps
unfolding on_processed processed
sent-on_processed none acks nacks tag r ps = ap (λ t. t ++ ps) (sent-on_bad acks nacks tag r)
sent-on_processed (some p) acks nacks tag r ps =
    ap (λ t. t ++ ps) (sent-on_good acks tag (record r { sent = r.sent ++ p ∷ [] }))
    ∙ rw append_assoc refl

sent-on_message :
    (codec : Codec) (d : Delivery) (acks nacks : Bool) (r : Reader) (ps : List PacketWithAddr)
    → (on_message codec d acks nacks false r).sent ++ ps ≡ r.sent ++ onto (decoded codec d.body) ps
unfolding on_message note
sent-on_message codec d acks nacks r ps =
    rw (process_message-decoded codec d.body)
      (sent-on_processed (decoded codec d.body) acks nacks d.tag (note (delivered d.tag) r) ps)

sent-consume_loop :
    (codec : Codec) (es : List Event) (r : Reader)
    → NoneStops es
    → (consume_loop codec es r).1.sent ≡ r.sent ++ packets codec es
unfolding consume_loop
sent-consume_loop codec [] r n = rw append-nil refl
sent-consume_loop codec (tick works ∷ es) r n =
    sent-consume_loop codec es (on_tick works r) n
    ∙ ap (λ t. t ++ packets codec es) (sent-on_tick works r)
sent-consume_loop codec (message d acks nacks stopping ∷ es) r n = rw n.0 (
    sent-consume_loop codec es (on_message codec d acks nacks false r) n.1
    ∙ sent-on_message codec d acks nacks r (packets codec es))
sent-consume_loop codec (stop works ∷ es) r n = rw append-nil (sent-on_stop works r)
sent-consume_loop codec (closed ∷ es) r n = rw append-nil refl

-- Every delivery whose JSON and base64 are right is sent on, in its order, as long as no send gives
-- way to a stop; calls to the broker may fail.
pub sent-consume :
    (codec : Codec) (es : List Event) (r : Reader)
    → NoneStops es
    → (consume codec es r).1.sent ≡ r.sent ++ packets codec es
unfolding consume
sent-consume codec es r n = sent-consume_loop codec es _ n
