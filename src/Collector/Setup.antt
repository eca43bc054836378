-- ===== src/Collector/Setup.antt =====
-- collector/correlator.go: CorrelatorConfig and NewCorrelatorWithConfig with its defaults. The SciTags
-- registry is the one that is passed, or the embedded one, which is an argument. The threads of the
-- workers and of the janitors are not started here.
use xrootd_monitoring_shovel.Base.{
  ℕ, zero, suc, Bool, List, [], ◌∷◌, Option, none, some, Bytes, bytes, ℤ, pos, negsuc, pos_part,
}
use xrootd_monitoring_shovel.Collector.State.{new_state_map}
use xrootd_monitoring_shovel.Collector.Scitags.{ScitagsRegistry}
use xrootd_monitoring_shovel.Collector.Types.{Correlator}
use xrootd_monitoring_shovel.Collector.Wlcg.{WlcgMetadata}
use xrootd_monitoring_shovel.Collector.Enrichment.{OutputConfig}

-- Times are in nanoseconds. A nil slice or registry is `none`.
pub record CorrelatorConfig : Type 0 where
  pub ttl : ℤ
  pub max_entries : ℤ
  pub enable_dns_enrichment : Bool
  pub dns_cache_ttl : ℤ
  pub dns_timeout : ℤ
  pub enrichment_workers : ℤ
  pub enrichment_queue_size : ℤ
  pub wlcg_metadata : WlcgMetadata
  pub scitags : Option ScitagsRegistry
  pub disable_wlcg : Bool
  pub wlcg_vos : Option (List Bytes)
  pub wlcg_path_prefixes : Option (List Bytes)
  pub drop_path_prefixes : Option (List Bytes)
  pub drop_vos : Option (List Bytes)
  pub vo : Bytes

-- defaultWLCGVOs and defaultWLCGPathPrefixes of collector/filter.go
abbrev pub default_wlcg_vos : List Bytes
default_wlcg_vos = bytes "cms" ∷ []

abbrev pub default_wlcg_path_prefixes : List Bytes
default_wlcg_path_prefixes = bytes "/store" ∷ bytes "/user/dteam" ∷ []

-- if x == nil { x = d }
unfoldable pub if_nil {ℓ} : {A : Type ℓ} → A → Option A → A
if_nil d none = d
if_nil d (some a) = a

-- if x <= 0 { x = d }, as a natural number
unfoldable pub count_or : ℕ → ℤ → ℕ
count_or d (pos zero) = d
count_or d (pos (suc n)) = suc n
count_or d (negsuc n) = d

-- What the correlator is and what its workers read.
pub record NewCorrelator : Type 0 where
  pub correlator : Correlator
  pub output : OutputConfig
  pub worker_count : ℕ
  pub queue_size : ℕ
  pub lookup_timeout : ℕ

-- A maximum that is not positive is none. A time to live that is not positive is 0 here; the janitors,
-- which are not started, panic on it.
unfoldable pub new_correlator_with_config : ScitagsRegistry → CorrelatorConfig → NewCorrelator
unfolding if_nil count_or
new_correlator_with_config embedded config = record {
  correlator = record {
    state_map = new_state_map (pos_part config.ttl) (pos_part config.max_entries);
    user_map = new_state_map (pos_part config.ttl) (pos_part config.max_entries);
    dict_map = new_state_map (pos_part config.ttl) (pos_part config.max_entries);
    server_map = new_state_map (pos_part config.ttl) (pos_part config.max_entries);
    dns_cache =
        new_state_map (count_or 3600000000000 config.dns_cache_ttl) (pos_part config.max_entries);
    enable_dns_enrichment = config.enable_dns_enrichment;
    scitags = if_nil embedded config.scitags;
  };
  output = record {
    filter = record {
      wlcg_disabled = config.disable_wlcg;
      wlcg_vos = if_nil default_wlcg_vos config.wlcg_vos;
      wlcg_path_prefixes = if_nil default_wlcg_path_prefixes config.wlcg_path_prefixes;
      drop_vos = if_nil [] config.drop_vos;
      drop_path_prefixes = if_nil [] config.drop_path_prefixes;
    };
    collector_vo = config.vo;
    wlcg_metadata = config.wlcg_metadata;
  };
  worker_count = count_or 5 config.enrichment_workers;
  queue_size = count_or 1000000 config.enrichment_queue_size;
  lookup_timeout = count_or 2000000000 config.dns_timeout;
}
