-- ===== src/Tests/Outputs.antt =====
-- The filter's rules, and the work queue of the DNS workers.
use xrootd_monitoring_shovel.Base.{
  none, ◌+◌, ◌-◌, some, Assoc, ℕ, ◌^◌, ◌≡◌, ◌↔◌, refl, true, false, List, [], ◌∷◌, bytes, pos,
  arith,
}
use xrootd_monitoring_shovel.Collector.Types.{CollectorRecord}
use xrootd_monitoring_shovel.Collector.Record.{create_correlated_record}
use xrootd_monitoring_shovel.Collector.Correlator.{standalone_state}
use xrootd_monitoring_shovel.Collector.Wlcg.{Context, WlcgMetadata, convert_to_wlcg}
use xrootd_monitoring_shovel.Collector.Enrichment.{
  Services, OutputConfig, process_enrichment_request,
}
use xrootd_monitoring_shovel.Collector.Enrichment.Routing.{
  Encode, Routes, process_enrichment_request-Routes,
}
use xrootd_monitoring_shovel.Collector.Wlcg.Events.{Floats, Value, text, float}
use xrootd_monitoring_shovel.Collector.Wlcg.Fields.{convert_to_wlcg-crab}
use xrootd_monitoring_shovel.Collector.Filter.{FilterConfig, should_drop, matches_wlcg_with_rules}
use xrootd_monitoring_shovel.Collector.Filter.Rules.{
  IsListed, should_drop-matches_wlcg_with_rules, matches_wlcg_with_rules_iff,
}
use xrootd_monitoring_shovel.Collector.WorkQueue.{WorkQueue}
use xrootd_monitoring_shovel.Collector.WorkQueue.View.{
  IsValid, view, Call, enqueuing, dequeuing, closing, Answers,
}
use xrootd_monitoring_shovel.Collector.WorkQueue.Refines.{calls-view_calls}
use xrootd_monitoring_shovel.Collector.PowerOfTen.{is_power_of_ten, is_power_of_ten_iff}
use xrootd_monitoring_shovel.Tests.Files.{closed}
use xrootd_monitoring_shovel.Tests.States.{lib, collector, server_9}

abbrev pub stored : CollectorRecord
stored =
    create_correlated_record lib 5 (pos 9) (bytes "s")
      (record (standalone_state (pos 9) closed server_9) { filename = bytes "/store/a" }) closed
      collector

abbrev config : FilterConfig
config = record {
  wlcg_disabled = false;
  wlcg_vos = bytes "cms" ∷ [];
  wlcg_path_prefixes = bytes "/store" ∷ [];
  drop_vos = [] ∷ bytes " CMS" ∷ [];
  drop_path_prefixes = [] ∷ bytes "/store " ∷ [];
}

should_drop-matches_wlcg_with_rules_at_input :
    (should_drop lib config stored).0
    ≡ matches_wlcg_with_rules lib stored config.drop_vos config.drop_path_prefixes
should_drop-matches_wlcg_with_rules_at_input = should_drop-matches_wlcg_with_rules lib config stored

matches_wlcg_with_rules_iff_at_input :
    (matches_wlcg_with_rules lib stored (bytes "cms" ∷ []) (bytes "/store" ∷ []) ≡ true)
    ↔ IsListed lib stored (bytes "cms" ∷ []) (bytes "/store" ∷ [])
matches_wlcg_with_rules_iff_at_input =
    matches_wlcg_with_rules_iff lib stored (bytes "cms" ∷ []) (bytes "/store" ∷ [])

-- Room for two requests.
abbrev small : WorkQueue ℕ
small = record { pages = []; size = 0; closed = false; capacity = 2 }

small-IsValid : IsValid ℕ small
small-IsValid = record { pages_are = tt; size_is = refl; bounded = omega arith }

abbrev some_calls : List (Call ℕ)
some_calls =
    enqueuing 1
    ∷ enqueuing 2
    ∷ enqueuing 3
    ∷ dequeuing
    ∷ enqueuing 4
    ∷ closing
    ∷ enqueuing 5
    ∷ dequeuing
    ∷ dequeuing
    ∷ dequeuing
    ∷ []

calls-view_calls_example : Answers ℕ some_calls small (view ℕ small)
calls-view_calls_example = calls-view_calls ℕ some_calls small small-IsValid

is_power_of_ten_iff_at_input :
    (is_power_of_ten (pos 100) ≡ true) ↔ ((k : ℕ) × (pos 100 ≡ pos (10 ^ k)))
is_power_of_ten_iff_at_input = is_power_of_ten_iff (pos 100)

abbrev at_noon : Context
at_noon = record { uuid = bytes "u"; hostname = bytes "h"; now = 5 }

abbrev producer : WlcgMetadata
producer = record {
  producer = bytes "p";
  record_type = bytes "t";
  gstream_producer = bytes "g";
  vo = [];
}

-- The appinfo of the comment in the source, shortened.
abbrev crab_record : CollectorRecord
crab_record = record stored {
  user = record (stored.user) { app_info = bytes "162_https://g/162/1905:heewon-v2_0" };
}

convert_to_wlcg-crab_example :
    ((convert_to_wlcg at_noon crab_record producer).crab_id ≡ bytes "162")
    × ((convert_to_wlcg at_noon crab_record producer).crab_workflow ≡ bytes "1905:heewon-v2")
    × ((convert_to_wlcg at_noon crab_record producer).crab_retry ≡ bytes "0")
convert_to_wlcg-crab_example =
    convert_to_wlcg-crab at_noon crab_record producer (bytes "162") (bytes "https://g/162")
      (bytes "1905:heewon-v2") (bytes "0") (omega arith) (omega arith) (omega arith) (omega arith)
      refl

abbrev integers : Floats
integers = record {
  F = ℕ;
  zero_float = 0;
  plus = λ a b. a + b;
  minus = λ a b. a - b;
  of_int = λ z. 0;
}

abbrev cache_event : Assoc (Value ℕ ℕ)
cache_event =
    (bytes "lfn", text (bytes "/a"))
    ∷ (bytes "b_todisk", float 7)
    ∷ (bytes "b_bypass", float 3)
    ∷ (bytes "b_prefetch", float 4)
    ∷ []

abbrev offline : Services
offline = record {
  lookup_addr = λ ip. none;
  to_json = λ r. some (bytes "{}");
  wlcg_to_json = λ r. some (bytes "{}");
}

offline_encodes : Encode offline
offline_encodes = record {
  record_json = λ r. (bytes "{}", refl);
  wlcg_json = λ r. (bytes "{}", refl);
}

-- Nothing is dropped, and the collector stamps its VO.
abbrev outputs : OutputConfig
outputs = record {
  filter = record config { drop_vos = []; drop_path_prefixes = [] };
  collector_vo = bytes "site";
  wlcg_metadata = producer;
}

process_enrichment_request-Routes_example :
    Routes lib offline outputs stored
      (bytes "wlcg")
      (process_enrichment_request lib offline 5 at_noon outputs stored (bytes "wlcg") collector).0
process_enrichment_request-Routes_example =
    process_enrichment_request-Routes lib offline offline_encodes 5 at_noon outputs stored
      (bytes "wlcg") collector
