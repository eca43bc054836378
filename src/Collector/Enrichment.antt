-- ===== src/Collector/Enrichment.antt =====
-- What a worker of collector/enrichment.go does with a record, and `ProcessGStreamPacket` of
-- collector/correlator.go. The reverse DNS lookup and the JSON encoders are parameters; a lookup's
-- timeout is one of its failures.
pub mod Routing
use xrootd_monitoring_shovel.Base.{
  ℕ, ◌==◌, Bool, true, false, not, ◌&&◌, ◌||◌, List, [], ◌∷◌, map, Option, none, some, Bytes, bytes,
  is_empty, Assoc, insert, if◌then◌else◌,
}
use xrootd_monitoring_shovel.Parser.Wire.{◌>>=◌}
use xrootd_monitoring_shovel.Parser.Packet.{Packet, GStreamRecord}
use xrootd_monitoring_shovel.Collector.GoLib.{GoLib, not_ip, v4, v6}
use xrootd_monitoring_shovel.Collector.State.{set}
use xrootd_monitoring_shovel.Collector.Types.{CollectorRecord, Correlator}
use xrootd_monitoring_shovel.Collector.Hosts.{
  is_ip_pattern, extract_ip_from_host, extract_host_from_remote_addr, extract_domain_from_hostname,
}
use xrootd_monitoring_shovel.Collector.Keys.{build_server_id}
use xrootd_monitoring_shovel.Collector.Lookup.{enrich_with_dns_sync}
use xrootd_monitoring_shovel.Collector.Filter.{FilterConfig, should_drop, matches_wlcg}
use xrootd_monitoring_shovel.Collector.Wlcg.{Context, WlcgMetadata, WlcgRecord, convert_to_wlcg}

-- LookupAddr of the resolver, and json.Marshal of a record and of a WLCG record.
pub record Services : Type 0 where
  pub lookup_addr : Bytes → Option (List Bytes)
  pub to_json : CollectorRecord → Option Bytes
  pub wlcg_to_json : WlcgRecord → Option Bytes

-- EnrichedRecord
pub record EnrichedRecord : Type 0 where
  pub enriched : CollectorRecord
  pub payload : Bytes
  pub exchange : Bytes

-- The fields of the Correlator that the workers read: the filter, the collector's VO, and wlcgMetadata.
pub record OutputConfig : Type 0 where
  pub filter : FilterConfig
  pub collector_vo : Bytes
  pub wlcg_metadata : WlcgMetadata

-- strings.TrimSuffix(s, ".")
unfoldable pub without_dot : Bytes → Bytes
without_dot [] = []
without_dot (c ∷ []) = if c == b'.' then [] else c ∷ []
without_dot (c ∷ d ∷ s) = c ∷ without_dot (d ∷ s)

abbrev first_name : Option (List Bytes) → Bytes
first_name (some (name ∷ more)) = without_dot name
first_name _ = []

-- A configured VO replaces the record's.
unfoldable pub stamp_vo : Bytes → CollectorRecord → CollectorRecord
stamp_vo vo r = if is_empty vo then r else record r { user = record (r.user) { vo = vo } }

-- The texts that ProcessGStreamPacket adds to an event.
unfoldable pub with_server :
    {V : Type 0} → (Bytes → V) → Bytes → Bytes → Bytes → Bytes → Assoc V → Assoc V
unfolding insert
with_server text server_id host hostname addr event = insert (bytes "from") (text addr) (
    insert (bytes "server_hostname") (text hostname)
      (insert (bytes "server_ip") (text host) (insert (bytes "sid") (text server_id) event)))

module _ (lib : GoLib) (services : Services) where
  unfoldable pub perform_dns_lookup : Bytes → Bytes
  unfolding without_dot
  perform_dns_lookup ip = elim (lib.parse_ip ip) [
    | not_ip ↦ []
    | v4 a ↦ first_name (services.lookup_addr ip)
    | v6 ↦ first_name (services.lookup_addr ip)
  ]

  unfoldable pub remember : ℕ → Bytes → Bytes → Correlator → Bytes × Correlator
  remember now ip hostname c =
      if is_empty hostname
      then (hostname, c)
      else (hostname, record c { dns_cache = (set now ip hostname c.dns_cache).1 })

  unfoldable pub lookup_dns_hostname : ℕ → Bytes → Correlator → Bytes × Correlator
  unfolding enrich_with_dns_sync perform_dns_lookup remember
  lookup_dns_hostname now ip c =
      let (hostname, needs_lookup) = enrich_with_dns_sync now ip c in
      if not (is_empty hostname) || not needs_lookup
      then (hostname, c)
      else remember now ip (perform_dns_lookup ip) c

  -- The two parts of Enrich.
  unfoldable pub enrich_user : ℕ → CollectorRecord → Correlator → CollectorRecord × Correlator
  unfolding lookup_dns_hostname extract_domain_from_hostname
  enrich_user now r c =
      if r.user.needs_dns_enrichment
      then (let (hostname, c') = lookup_dns_hostname now r.user.enrichment_ip c in
          (
            record r {
              user = record (r.user) {
                user_domain =
                    if is_empty hostname
                    then r.user.user_domain
                    else extract_domain_from_hostname hostname;
                needs_dns_enrichment = false;
                enrichment_ip = [];
              };
            },
            c',
          ))
      else (r, c)

  unfoldable pub enrich_server : ℕ → CollectorRecord → Correlator → CollectorRecord × Correlator
  unfolding lookup_dns_hostname
  enrich_server now r c =
      if r.server.needs_server_dns
      then (let (hostname, c') = lookup_dns_hostname now r.server.server_enrichment_ip c in
          (
            record r {
              server = record (r.server) {
                server_hostname = if is_empty hostname then r.server.server_hostname else hostname;
                needs_server_dns = false;
                server_enrichment_ip = [];
              };
            },
            c',
          ))
      else (r, c)

  unfoldable pub enrich : ℕ → CollectorRecord → Correlator → CollectorRecord × Correlator
  unfolding enrich_user enrich_server
  enrich now r c = let (r', c') = enrich_user now r c in enrich_server now r' c'

  -- `none` is an error of an encoder.
  unfoldable pub build_enriched_record :
      Context → OutputConfig → CollectorRecord → Bytes → Option EnrichedRecord
  unfolding matches_wlcg stamp_vo convert_to_wlcg
  build_enriched_record context config r wlcg_exchange =
      let stamped = stamp_vo config.collector_vo r in
      if matches_wlcg lib config.filter r
      then (do
        payload ← services.wlcg_to_json (convert_to_wlcg context stamped config.wlcg_metadata)
        some (record { enriched = stamped; payload = payload; exchange = wlcg_exchange }))
      else (do
        payload ← services.to_json stamped
        some (record { enriched = stamped; payload = payload; exchange = [] }))

  -- The loop over the enrichers; the DNS enricher is registered if DNS enrichment is enabled.
  unfoldable pub run_enrichers : ℕ → CollectorRecord → Correlator → CollectorRecord × Correlator
  unfolding enrich
  run_enrichers now r c = if c.enable_dns_enrichment then enrich now r c else (r, c)

  -- processEnrichmentRequest up to its send; `none` if nothing is sent.
  unfoldable pub process_enrichment_request :
      ℕ
      → Context
      → OutputConfig
      → CollectorRecord
      → Bytes
      → Correlator
      → Option EnrichedRecord × Correlator
  unfolding should_drop run_enrichers build_enriched_record
  process_enrichment_request now context config r wlcg_exchange c =
      if (should_drop lib config.filter r).0 then (none, c) else (
        build_enriched_record context config (run_enrichers now r c).0 wlcg_exchange,
        (run_enrichers now r c).1,
      )

  -- The events with these texts, and the stream's type; the first argument makes a text a JSON value.
  unfoldable pub process_g_stream_packet :
      {V : Type 0}
      → (Bytes → V)
      → ℕ
      → Packet (Assoc V)
      → Correlator
      → (List (Assoc V) × ℕ) × Correlator
  unfolding with_server lookup_dns_hostname is_ip_pattern extract_ip_from_host
      extract_host_from_remote_addr build_server_id
  process_g_stream_packet text now packet c = elim packet.g_stream_record [
    | none ↦ (([], 0), c)
    | some g ↦
        let host = extract_host_from_remote_addr lib packet.remote_addr in
        let (resolved, c') =
          if is_ip_pattern host
          then lookup_dns_hostname now (extract_ip_from_host lib host) c
          else ([], c) in
        let hostname = if is_empty resolved then host else resolved in
        let server_id = build_server_id packet.header.server_start packet.remote_addr in
        (
          (
            map (with_server text server_id host hostname packet.remote_addr) g.events,
            g.stream_type,
          ),
          c',
        )
  ]
