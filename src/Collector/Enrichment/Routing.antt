-- ===== src/Collector/Enrichment/Routing.antt =====
-- Where a record goes: the filter and the exchange go by the VO of the packets, not by the VO that the
-- collector stamps on, and not by what DNS finds.
use xrootd_monitoring_shovel.Base.{
  ℕ, ◌≡◌, refl, ap, ◌∙◌, true, false, Option, none, some, [], Bytes, is_empty, Bool-cases, if-elim,
  inl, inr, if◌then◌else◌,
}
use xrootd_monitoring_shovel.Parser.Wire.{◌>>=◌}
use xrootd_monitoring_shovel.Collector.GoLib.{GoLib}
use xrootd_monitoring_shovel.Collector.Types.{CollectorRecord, Correlator}
use xrootd_monitoring_shovel.Collector.Filter.{
  FilterConfig, should_drop, matches_wlcg, matches_wlcg_with_rules,
}
use xrootd_monitoring_shovel.Collector.Wlcg.{Context, WlcgRecord, convert_to_wlcg}
use xrootd_monitoring_shovel.Collector.Enrichment.{
  Services, EnrichedRecord, OutputConfig, enrich_user, enrich_server, enrich, run_enrichers,
  stamp_vo, build_enriched_record, process_enrichment_request,
}

-- The encoders make no error.
pub record Encode (services : Services) : Type 0 where
  pub record_json : (r : CollectorRecord) → (b : Bytes) × (services.to_json r ≡ some b)
  pub wlcg_json : (r : WlcgRecord) → (b : Bytes) × (services.wlcg_to_json r ≡ some b)

module _ (lib : GoLib) (services : Services) where
  -- The same VO and the same file.
  abbrev Alike : CollectorRecord → CollectorRecord → Type 0
  Alike r' r = (r'.user.vo ≡ r.user.vo) × (r'.file ≡ r.file)

  enrich_user-Alike :
      (now : ℕ) (r : CollectorRecord) (c : Correlator)
      → Alike (enrich_user lib services now r c).0 r
  unfolding enrich_user
  enrich_user-Alike now r c = elim (Bool-cases r.user.needs_dns_enrichment) [
    | inl t ↦ rw t (refl, refl)
    | inr f ↦ rw f (refl, refl)
  ]

  enrich_server-Alike :
      (now : ℕ) (r : CollectorRecord) (c : Correlator)
      → Alike (enrich_server lib services now r c).0 r
  unfolding enrich_server
  enrich_server-Alike now r c = elim (Bool-cases r.server.needs_server_dns) [
    | inl t ↦ rw t (refl, refl)
    | inr f ↦ rw f (refl, refl)
  ]

  enrich-Alike :
      (now : ℕ) (r : CollectorRecord) (c : Correlator) → Alike (enrich lib services now r c).0 r
  unfolding enrich
  enrich-Alike now r c =
      let first = enrich_user-Alike now r c in
      let (r', c') = enrich_user lib services now r c in
      let second = enrich_server-Alike now r' c' in (second.0 ∙ first.0, second.1 ∙ first.1)

  run_enrichers-Alike :
      (now : ℕ) (r : CollectorRecord) (c : Correlator)
      → Alike (run_enrichers lib services now r c).0 r
  unfolding run_enrichers
  run_enrichers-Alike now r c =
      if-elim (λ (t : CollectorRecord × Correlator). Alike t.0 r) c.enable_dns_enrichment
        (enrich-Alike now r c) (refl, refl)

  matches_wlcg-Alike :
      (f : FilterConfig) (r' r : CollectorRecord)
      → Alike r' r
      → matches_wlcg lib f r' ≡ matches_wlcg lib f r
  unfolding matches_wlcg matches_wlcg_with_rules
  matches_wlcg-Alike f r' r (v, w) = rw (v, w) refl

  -- What becomes of a record: nothing if the filter drops it; else it goes to the WLCG exchange exactly
  -- if the rules accept it as the packets gave it, and to the default one if not, with the collector's
  -- VO if it has one.
  abbrev pub Routes : OutputConfig → CollectorRecord → Bytes → Option EnrichedRecord → Type 0
  Routes config r wlcg_exchange none = (should_drop lib config.filter r).0 ≡ true
  Routes config r wlcg_exchange (some e) =
      ((should_drop lib config.filter r).0 ≡ false)
      × (e.exchange ≡ (if matches_wlcg lib config.filter r then wlcg_exchange else []))
      × (e.enriched.user.vo
          ≡ (if is_empty config.collector_vo then r.user.vo else config.collector_vo))
      × (e.enriched.file ≡ r.file)

  stamp_vo-vo :
      (vo : Bytes) (r : CollectorRecord)
      → (stamp_vo vo r).user.vo ≡ (if is_empty vo then r.user.vo else vo)
  unfolding stamp_vo
  stamp_vo-vo vo r = elim (Bool-cases (is_empty vo)) [
    | inl t ↦ rw (stamp_vo, t) refl
    | inr f ↦ rw (stamp_vo, f) refl
  ]

  stamp_vo-file : (vo : Bytes) (r : CollectorRecord) → (stamp_vo vo r).file ≡ r.file
  unfolding stamp_vo
  stamp_vo-file vo r = elim (Bool-cases (is_empty vo)) [
    | inl t ↦ rw (stamp_vo, t) refl
    | inr f ↦ rw (stamp_vo, f) refl
  ]

  module _ (encode : Encode services) where
    -- With an encoder that works, a step behind it gives a result.
    encoded :
        (o : Option Bytes) (b : Bytes) (e : Bytes → EnrichedRecord)
        → o ≡ some b
        → (o >>= (λ t. some (e t))) ≡ some (e b)
    encoded o b e h = rw h refl

    build_enriched_record-some :
        (context : Context) (config : OutputConfig) (r : CollectorRecord) (wlcg_exchange : Bytes)
        → (payload : Bytes) × (build_enriched_record lib services context config r wlcg_exchange
            ≡ some (record {
              enriched = stamp_vo config.collector_vo r;
              payload = payload;
              exchange = if matches_wlcg lib config.filter r then wlcg_exchange else [];
            }))
    unfolding build_enriched_record
    build_enriched_record-some context config r wlcg_exchange =
        elim (Bool-cases (matches_wlcg lib config.filter r)) [
          | inl t ↦
              let (b, e) =
                encode.wlcg_json
                  (convert_to_wlcg context (stamp_vo config.collector_vo r) config.wlcg_metadata) in
              (b, rw (t, e) refl)
          | inr f ↦
              let (b, e) = encode.record_json (stamp_vo config.collector_vo r) in
              (b, rw (f, e) refl)
        ]

    build_enriched_record-Routes :
        (context : Context) (config : OutputConfig) (r' r : CollectorRecord) (wlcg_exchange : Bytes)
        → Alike r' r
        → (should_drop lib config.filter r).0 ≡ false
        → Routes config r wlcg_exchange
            (build_enriched_record lib services context config r' wlcg_exchange)
    build_enriched_record-Routes context config r' r wlcg_exchange alike kept =
        let (payload, e) = build_enriched_record-some context config r' wlcg_exchange in
        rw e (
          kept,
          ap (λ t. if t then wlcg_exchange else []) (matches_wlcg-Alike config.filter r' r alike),
          stamp_vo-vo config.collector_vo r'
              ∙ ap (λ t. if is_empty config.collector_vo then t else config.collector_vo) (alike.0),
          stamp_vo-file config.collector_vo r' ∙ alike.1,
        )

    -- A record that the filter drops is sent nowhere. Every other one is sent, to the WLCG exchange
    -- exactly if the rules accept it as the packets gave it, and else to the default one, with the
    -- collector's VO in place of its own if there is one, and with its file as it was.
    pub process_enrichment_request-Routes :
        (now : ℕ) (context : Context) (config : OutputConfig) (r : CollectorRecord)
        (wlcg_exchange : Bytes) (c : Correlator)
        → Routes config r wlcg_exchange
            (process_enrichment_request lib services now context config r wlcg_exchange c).0
    unfolding process_enrichment_request
    process_enrichment_request-Routes now context config r wlcg_exchange c =
        elim (Bool-cases (should_drop lib config.filter r).0) [
          | inl t ↦ rw (process_enrichment_request, t) t
          | inr kept ↦
              rw (process_enrichment_request, kept)
                (build_enriched_record-Routes context config (run_enrichers lib services now r c).0
                  r wlcg_exchange (run_enrichers-Alike now r c) kept)
        ]
