-- ===== src/Service/Setup.antt =====
-- cmd/collector/main.go: buildCorrelatorConfig, and what the settings come to.
use mathlib.Core.Path.{ap₂}
use xrootd_monitoring_shovel.Base.{
  ◌*◌, ◌-◌, ◌+◌, ◌≡◌, refl, ap, ◌∙◌, Bool, true, false, not, List, [], ◌∷◌, Option, none, some,
  Bytes, bytes, ℤ, pos, negsuc, if◌then◌else◌,
}
use xrootd_monitoring_shovel.Collector.GoLib.{GoLib}
use xrootd_monitoring_shovel.Collector.Types.{CollectorRecord}
use xrootd_monitoring_shovel.Collector.Scitags.{ScitagsRegistry}
use xrootd_monitoring_shovel.Collector.Filter.{matches_wlcg, matches_wlcg_with_rules}
use xrootd_monitoring_shovel.Collector.Wlcg.{WlcgMetadata}
use xrootd_monitoring_shovel.Collector.Setup.{CorrelatorConfig, if_nil, new_correlator_with_config}
use xrootd_monitoring_shovel.Config.{
  Settings, Config, WlcgConfig, ok, or_else, read_wlcg, read_config,
}
use xrootd_monitoring_shovel.Config.Usable.{broker_of_config}

-- time.Duration(n) * time.Second
unfoldable pub seconds : ℤ → ℤ
seconds (pos n) = pos (n * 1000000000)
seconds (negsuc n) = negsuc ((n + 1) * 1000000000 - 1)

unfoldable pub build_wlcg_metadata : WlcgConfig → WlcgMetadata
build_wlcg_metadata w = record {
  producer = w.producer;
  record_type = w.metadata_type;
  gstream_producer = w.gstream_producer;
  vo = w.wlcg_vo_override;
}

-- The second argument is what buildScitagsRegistry makes of the source.
unfoldable pub build_correlator_config {ℓ} :
    {Url : Type ℓ} → Config Url → ScitagsRegistry → CorrelatorConfig
unfolding seconds build_wlcg_metadata
build_correlator_config config registry = record {
  ttl = seconds config.state.entry_ttl;
  max_entries = config.state.max_entries;
  enable_dns_enrichment = config.state.enable_dns_enrichment;
  dns_cache_ttl = seconds config.state.dns_cache_ttl;
  dns_timeout = seconds config.state.dns_timeout;
  enrichment_workers = config.state.enrichment_workers;
  enrichment_queue_size = config.state.enrichment_queue_size;
  wlcg_metadata = build_wlcg_metadata config.wlcg;
  scitags = some registry;
  disable_wlcg = not config.wlcg.wlcg_enabled;
  wlcg_vos = some config.wlcg.vos;
  wlcg_path_prefixes = some config.wlcg.path_prefixes;
  drop_path_prefixes = config.filter.drop_prefixes;
  drop_vos = config.filter.drop_vo_names;
  vo = config.service.vo;
}

-- What a list in the settings says: the default if it is not there, and nothing if it is empty.
abbrev pub set_list : List Bytes → Option (Option (List Bytes)) → List Bytes
set_list d none = d
set_list d (some none) = []
set_list d (some (some l)) = l

list_of_settings :
    (d : List Bytes) (o : Option (Option (List Bytes)))
    → or_else [] (or_else (some d) o) ≡ set_list d o
list_of_settings d none = refl
list_of_settings d (some none) = refl
list_of_settings d (some (some l)) = refl

if_not : (b x : Bool) → (if not b then false else x) ≡ (if b then x else false)
if_not true x = refl
if_not false x = refl

module _ {ℓ} {Url : Type ℓ} (parse_url : Bytes → Option Url) (v : Settings) (lib : GoLib) where
  -- A collector that its settings configure routes a record by the WLCG rules with the lists that are
  -- set, also if they are empty, and with cms, /store and /user/dteam only where none is set, if
  -- wlcg.enabled is not set to false; else it routes none.
  pub matches_wlcg-settings :
      (env_prefix : Bytes) (c : Config Url) (embedded registry : ScitagsRegistry)
      (r : CollectorRecord)
      → read_config parse_url v env_prefix ≡ ok c
      → matches_wlcg lib
          (new_correlator_with_config embedded (build_correlator_config c registry)).output.filter
          r
        ≡ (if or_else true (v.bool_at (bytes "wlcg.enabled"))
            then matches_wlcg_with_rules lib r
                (set_list (bytes "cms" ∷ []) (v.strings_at (bytes "wlcg.vos")))
                (set_list
                  (bytes "/store" ∷ bytes "/user/dteam" ∷ [])
                  (v.strings_at (bytes "wlcg.path_prefixes")))
            else false)
  unfolding matches_wlcg new_correlator_with_config build_correlator_config read_wlcg if_nil
  matches_wlcg-settings env_prefix c embedded registry r e =
      let (b, _, made) = broker_of_config parse_url v env_prefix c e in
      let wlcg : c.wlcg ≡ read_wlcg v = ap (λ (x : Config Url). x.wlcg) made in
      ap
        (λ (w : WlcgConfig).
          if not w.wlcg_enabled then false else matches_wlcg_with_rules lib r w.vos w.path_prefixes)
        wlcg
      ∙ if_not (read_wlcg v).wlcg_enabled
          (matches_wlcg_with_rules lib r (read_wlcg v).vos (read_wlcg v).path_prefixes)
      ∙ ap₂
          (λ (vos prefixes : List Bytes).
            if or_else true (v.bool_at (bytes "wlcg.enabled"))
            then matches_wlcg_with_rules lib r vos prefixes
            else false)
          (list_of_settings (bytes "cms" ∷ []) (v.strings_at (bytes "wlcg.vos")))
          (list_of_settings (bytes "/store" ∷ bytes "/user/dteam" ∷ [])
            (v.strings_at (bytes "wlcg.path_prefixes")))
