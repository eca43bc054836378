-- ===== src/Service/Events.antt =====
-- `emitGStreamEvent` of cmd/collector/main.go: the transformation of an event, its exchange, and its
-- conversion for WLCG.
use xrootd_monitoring_shovel.Base.{
  ℕ, ◌==◌, Bool, false, ◌||◌, [], Option, some, Bytes, bytes, Assoc, lookup, if◌then◌else◌,
}
use xrootd_monitoring_shovel.Parser.Wire.{◌>>=◌}
use xrootd_monitoring_shovel.Collector.Wlcg.{
  Context, WlcgMetadata, tpc_path_check_wlcg, cache_path_check_wlcg,
}
use xrootd_monitoring_shovel.Collector.Wlcg.Events.{
  Floats, Value, text, transform_cache_event, transform_tpc_event, convert_gstream_to_wlcg,
}

-- The settings that the function reads.
pub record GStreamConfig : Type 0 where
  pub amqp_exchange : Bytes
  pub amqp_exchange_cache : Bytes
  pub amqp_exchange_tcp : Bytes
  pub amqp_exchange_tpc : Bytes
  pub amqp_exchange_wlcg_cache : Bytes
  pub amqp_exchange_wlcg_tpc : Bytes
  pub wlcg_enabled : Bool
  pub wlcg_metadata : WlcgMetadata

-- An event with its exchange, and whether it is converted for WLCG.
pub record Routed (Event : Type 0) : Type 0 where
  pub event : Event
  pub exchange : Bytes
  pub needs_wlcg : Bool

-- The exchange with the master switch off.
unfoldable pub native_exchange : GStreamConfig → ℕ → Bytes → Bytes
native_exchange config stream_type exchange =
    if stream_type == b'C'
    then config.amqp_exchange_cache
    else if stream_type == b'P'
    then config.amqp_exchange_tpc
    else exchange

module _ (floats : Floats) {V : Type 0} (parse_url : Bytes → Option Bytes) where
  -- m[key].(string), or the empty text.
  unfoldable pub text_of : Option (Value floats.F V) → Bytes
  text_of (some (text s)) = s
  text_of _ = []

  unfoldable pub is_wlcg_cache : Option (Value floats.F V) → Bool
  unfolding cache_path_check_wlcg
  is_wlcg_cache (some (text path)) = cache_path_check_wlcg path
  is_wlcg_cache _ = false

  -- The switch on the stream's type.
  unfoldable pub route_event :
      GStreamConfig → ℕ → Assoc (Value floats.F V) → Routed (Assoc (Value floats.F V))
  unfolding transform_cache_event transform_tpc_event lookup is_wlcg_cache text_of
      tpc_path_check_wlcg
  route_event config stream_type event =
      if stream_type == b'C'
      then (let out = transform_cache_event floats event in
          let wlcg = is_wlcg_cache (lookup (bytes "file_path") out) in
          record {
            event = out;
            exchange = if wlcg then config.amqp_exchange_wlcg_cache else config.amqp_exchange_cache;
            needs_wlcg = wlcg;
          })
      else if stream_type == b'T'
      then record { event = event; exchange = config.amqp_exchange_tcp; needs_wlcg = false }
      else if stream_type == b'P'
      then (let out = transform_tpc_event floats event in
          let wlcg =
            tpc_path_check_wlcg parse_url (text_of (lookup (bytes "source") out))
            || tpc_path_check_wlcg parse_url (text_of (lookup (bytes "destination") out)) in
          record {
            event = out;
            exchange = if wlcg then config.amqp_exchange_wlcg_tpc else config.amqp_exchange_tpc;
            needs_wlcg = wlcg;
          })
      else record { event = event; exchange = config.amqp_exchange; needs_wlcg = false }

  -- The master switch.
  unfoldable pub apply_switch :
      GStreamConfig → ℕ → Routed (Assoc (Value floats.F V)) → Routed (Assoc (Value floats.F V))
  unfolding native_exchange
  apply_switch config stream_type r =
      if config.wlcg_enabled
      then r
      else record r { exchange = native_exchange config stream_type r.exchange; needs_wlcg = false }

  -- What is written, and to which exchange; `none` is an error of json.Marshal, the first argument.
  unfoldable pub emit_gstream_event :
      (Assoc (Value floats.F V) → Option Bytes)
      → Context
      → GStreamConfig
      → ℕ
      → Assoc (Value floats.F V)
      → Option (Bytes × Bytes)
  unfolding route_event apply_switch convert_gstream_to_wlcg
  emit_gstream_event marshal context config stream_type event =
      let r = apply_switch config stream_type (route_event config stream_type event) in
      let out =
        if r.needs_wlcg
        then convert_gstream_to_wlcg floats context r.event (stream_type == b'P')
            config.wlcg_metadata
        else r.event in
      do json ← marshal out; some (json, r.exchange)
