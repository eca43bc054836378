-- ===== src/Config.antt =====
-- config.go: the structs, and ReadConfigWithPathAndPrefix as a function of the settings. The package
-- viper, which takes a setting from the environment, the file or the default, and url.Parse are
-- parameters. The reading of the file and the log lines are left out.
pub mod Usable
pub mod Workers
use xrootd_monitoring_shovel.Base.{
  ℕ, zero, suc, Bool, true, false, not, ◌&&◌, List, [], ◌∷◌, Option, none, some, Bytes, bytes,
  Assoc, eqb, is_empty, trim_space, ℤ, pos, negsuc, if◌then◌else◌,
}

-- What viper finds for a key besides its default. A nil slice is `none`.
pub record Settings : Type 0 where
  pub string_at : Bytes → Option Bytes
  pub int_at : Bytes → Option ℤ
  pub bool_at : Bytes → Option Bool
  pub strings_at : Bytes → Option (Option (List Bytes))
  pub map_at : Bytes → Assoc Bytes

pub record InputConfig : Type 0 where
  pub input_type : Bytes
  pub host : Bytes
  pub broker_url : Bytes
  pub topic : Bytes
  pub input_queue : Bytes
  pub subscription : Bytes
  pub input_path : Bytes
  pub port : ℤ
  pub buffer_size : ℤ
  pub base64_encoded : Bool
  pub follow : Bool

pub record StateConfig : Type 0 where
  pub entry_ttl : ℤ
  pub max_entries : ℤ
  pub dns_cache_ttl : ℤ
  pub dns_timeout : ℤ
  pub enrichment_workers : ℤ
  pub enrichment_queue_size : ℤ
  pub gstream_workers : ℤ
  pub gstream_queue_size : ℤ
  pub enable_dns_enrichment : Bool

pub record WlcgConfig : Type 0 where
  pub wlcg_enabled : Bool
  pub vos : List Bytes
  pub path_prefixes : List Bytes
  pub producer : Bytes
  pub metadata_type : Bytes
  pub gstream_producer : Bytes
  pub wlcg_vo_override : Bytes

pub record ScitagsConfig : Type 0 where
  pub scitags_source : Bytes
  pub refresh_interval : ℤ

pub record DropConfig : Type 0 where
  pub drop_prefixes : Option (List Bytes)
  pub drop_vo_names : Option (List Bytes)

pub record AmqpConfig {ℓ} (Url : Type ℓ) : Type ℓ where
  pub amqp_url : Url
  pub exchange : Bytes
  pub exchange_cache : Bytes
  pub exchange_tcp : Bytes
  pub exchange_tpc : Bytes
  pub exchange_wlcg : Bytes
  pub exchange_wlcg_cache : Bytes
  pub exchange_wlcg_tpc : Bytes
  pub token_location : Bytes
  pub publish_workers : ℤ

pub record StompConfig {ℓ} (Url : Type ℓ) : Type ℓ where
  pub stomp_url : Url
  pub stomp_user : Bytes
  pub stomp_password : Bytes
  pub stomp_topic : Bytes
  pub stomp_cert : Bytes
  pub stomp_certkey : Bytes

-- The fields of one of the message queues; those of the other keep their zero values.
pub data Broker {ℓ} (Url : Type ℓ) : Type ℓ where
  amqp : AmqpConfig Url → Broker Url
  stomp : StompConfig Url → Broker Url

-- The rest of the Config.
pub record ServiceConfig : Type 0 where
  pub output_type : Bytes
  pub output_path : Bytes
  pub listen_ip : Bytes
  pub queue_directory : Bytes
  pub ip_map_all : Bytes
  pub vo : Bytes
  pub listen_port : ℤ
  pub metrics_port : ℤ
  pub profile_port : ℤ
  pub dest_udp : Option (List Bytes)
  pub debug : Bool
  pub verify : Bool
  pub metrics : Bool
  pub profile : Bool
  pub ip_map : Assoc Bytes

pub record Config {ℓ} (Url : Type ℓ) : Type ℓ where
  pub mode : Bytes
  pub input : InputConfig
  pub state : StateConfig
  pub broker : Broker Url
  pub service : ServiceConfig
  pub wlcg : WlcgConfig
  pub scitags : ScitagsConfig
  pub filter : DropConfig

-- The config, or a panic.
pub data Outcome {ℓ} (A : Type ℓ) : Type ℓ where
  ok : A → Outcome A
  bad_url bad_mq : Outcome A

abbrev pub or_else {ℓ} : {A : Type ℓ} → A → Option A → A
or_else d none = d
or_else d (some a) = a

-- viper.GetString and its kin, with the default that was set, or with the zero value.
module _ (v : Settings) where
  abbrev pub get_string : Bytes → Bytes → Bytes
  get_string key d = or_else d (v.string_at key)

  abbrev pub get_int : Bytes → ℤ → ℤ
  get_int key d = or_else d (v.int_at key)

  abbrev pub get_bool : Bytes → Bool → Bool
  get_bool key d = or_else d (v.bool_at key)

  abbrev pub get_strings : Bytes → Option (List Bytes) → Option (List Bytes)
  get_strings key d = or_else d (v.strings_at key)

-- if x <= 0 { x = d }
unfoldable pub positive_or : ℕ → ℤ → ℤ
positive_or d (pos zero) = pos d
positive_or d (pos (suc n)) = pos (suc n)
positive_or d (negsuc n) = pos d

unfoldable pub mode_of : Bytes → Bytes
mode_of env_prefix =
    if eqb env_prefix (bytes "SHOVELER")
    then bytes "shoveler"
    else if eqb env_prefix (bytes "COLLECTOR")
    then bytes "collector"
    else bytes "unknown"

unfoldable pub topic_of : Bytes → Bytes → Bytes
topic_of queue topic = if not (is_empty queue) && is_empty topic then queue else topic

unfoldable pub read_input : Settings → InputConfig
unfolding topic_of
read_input v = record {
  input_type = get_string v (bytes "input.type") (bytes "udp");
  host = get_string v (bytes "input.host") [];
  broker_url = get_string v (bytes "input.broker_url") [];
  topic = topic_of (get_string v (bytes "input.queue") []) (get_string v (bytes "input.topic") []);
  input_queue = get_string v (bytes "input.queue") [];
  subscription = get_string v (bytes "input.subscription") [];
  input_path = get_string v (bytes "input.path") [];
  port = get_int v (bytes "input.port") (pos 0);
  buffer_size = get_int v (bytes "input.buffer_size") (pos 65536);
  base64_encoded = get_bool v (bytes "input.base64_encoded") true;
  follow = get_bool v (bytes "input.follow") false;
}

unfoldable pub read_state : Settings → StateConfig
unfolding positive_or
read_state v = record {
  entry_ttl = get_int v (bytes "state.entry_ttl") (pos 300);
  max_entries = get_int v (bytes "state.max_entries") (pos 0);
  dns_cache_ttl = positive_or 3600 (get_int v (bytes "state.dns_cache_ttl") (pos 3600));
  dns_timeout = positive_or 2 (get_int v (bytes "state.dns_timeout") (pos 2));
  enrichment_workers = positive_or 5 (get_int v (bytes "state.enrichment_workers") (pos 5));
  enrichment_queue_size =
      positive_or 1000000 (get_int v (bytes "state.enrichment_queue_size") (pos 1000000));
  gstream_workers = positive_or 4 (get_int v (bytes "state.gstream_workers") (pos 4));
  gstream_queue_size = positive_or 20000 (get_int v (bytes "state.gstream_queue_size") (pos 20000));
  enable_dns_enrichment = get_bool v (bytes "state.enable_dns_enrichment") false;
}

unfoldable pub read_wlcg : Settings → WlcgConfig
unfolding trim_space
read_wlcg v = record {
  wlcg_enabled = get_bool v (bytes "wlcg.enabled") true;
  vos = or_else [] (get_strings v (bytes "wlcg.vos") (some (bytes "cms" ∷ [])));
  path_prefixes = or_else [] (
      get_strings v (bytes "wlcg.path_prefixes")
        (some (bytes "/store" ∷ bytes "/user/dteam" ∷ [])));
  producer = get_string v (bytes "wlcg.producer") (bytes "cms");
  metadata_type = get_string v (bytes "wlcg.type") (bytes "aaa-ng");
  gstream_producer = get_string v (bytes "wlcg.gstream_producer") (bytes "cms-xrootd-cache");
  wlcg_vo_override = trim_space (get_string v (bytes "wlcg.vo") []);
}

unfoldable pub read_service : Settings → ServiceConfig
unfolding trim_space
read_service v = record {
  output_type = get_string v (bytes "output.type") (bytes "mq");
  output_path = get_string v (bytes "output.path") [];
  listen_ip = get_string v (bytes "listen.ip") [];
  queue_directory =
      get_string v (bytes "queue_directory") (bytes "/var/spool/xrootd-monitoring-shoveler/queue");
  ip_map_all = get_string v (bytes "map.all") [];
  vo = trim_space (get_string v (bytes "vo") []);
  listen_port = get_int v (bytes "listen.port") (pos 9993);
  metrics_port = get_int v (bytes "metrics.port") (pos 8000);
  profile_port = get_int v (bytes "profile.port") (pos 3030);
  dest_udp = get_strings v (bytes "outputs.destinations") none;
  debug = get_bool v (bytes "debug") false;
  verify = get_bool v (bytes "verify") true;
  metrics = get_bool v (bytes "metrics.enable") true;
  profile = get_bool v (bytes "profile.enable") false;
  ip_map = v.map_at (bytes "map");
}

unfoldable pub read_amqp {ℓ} : {Url : Type ℓ} → Settings → Url → AmqpConfig Url
read_amqp v url = record {
  amqp_url = url;
  exchange = get_string v (bytes "amqp.exchange") (bytes "shoveled-xrd");
  exchange_cache = get_string v (bytes "amqp.exchange_cache") (bytes "xrd-cache-events");
  exchange_tcp = get_string v (bytes "amqp.exchange_tcp") (bytes "xrd-tcp-events");
  exchange_tpc = get_string v (bytes "amqp.exchange_tpc") (bytes "xrd-tpc-events");
  exchange_wlcg = get_string v (bytes "amqp.exchange_wlcg") (bytes "xrd-wlcg-events");
  exchange_wlcg_cache =
      get_string v (bytes "amqp.exchange_wlcg_cache") (bytes "xrd-wlcg-cache-events");
  exchange_wlcg_tpc = get_string v (bytes "amqp.exchange_wlcg_tpc") (bytes "xrd-wlcg-tpc-events");
  token_location =
      get_string v (bytes "amqp.token_location") (bytes "/etc/xrootd-monitoring-shoveler/token");
  publish_workers = get_int v (bytes "amqp.publish_workers") (pos 10);
}

unfoldable pub read_stomp {ℓ} : {Url : Type ℓ} → Settings → Url → StompConfig Url
read_stomp v url = record {
  stomp_url = url;
  stomp_user = get_string v (bytes "stomp.user") [];
  stomp_password = get_string v (bytes "stomp.password") [];
  stomp_topic = get_string v (bytes "stomp.topic") (bytes "xrootd.shoveler");
  stomp_cert = get_string v (bytes "stomp.cert") [];
  stomp_certkey = get_string v (bytes "stomp.certkey") [];
}

-- Behind url.Parse.
abbrev pub with_url {ℓ κ} : {Url : Type ℓ} {A : Type κ} → (Url → A) → Option Url → Outcome A
with_url f none = bad_url
with_url f (some u) = ok (f u)

module _ {ℓ} {Url : Type ℓ} (parse_url : Bytes → Option Url) (v : Settings) where
  -- The switch on c.MQ.
  unfoldable pub read_broker : Outcome (Broker Url)
  unfolding read_amqp read_stomp
  read_broker =
      let mq = get_string v (bytes "mq") (bytes "amqp") in
      if eqb mq (bytes "amqp")
      then with_url (λ u. amqp (read_amqp v u)) (parse_url (get_string v (bytes "amqp.url") []))
      else if eqb mq (bytes "stomp")
      then with_url (λ u. stomp (read_stomp v u)) (parse_url (get_string v (bytes "stomp.url") []))
      else bad_mq

  abbrev pub config_with : Bytes → Broker Url → Config Url
  config_with env_prefix b = record {
    mode = mode_of env_prefix;
    input = read_input v;
    state = read_state v;
    broker = b;
    service = read_service v;
    wlcg = read_wlcg v;
    scitags = record {
      scitags_source = get_string v (bytes "scitags.source") [];
      refresh_interval = get_int v (bytes "scitags.refresh_interval") (pos 3600);
    };
    filter = record {
      drop_prefixes = get_strings v (bytes "filter.drop_path_prefixes") none;
      drop_vo_names = get_strings v (bytes "filter.drop_vos") none;
    };
  }

  -- What follows the switch, if it has not panicked.
  unfoldable pub after_broker : Bytes → Outcome (Broker Url) → Outcome (Config Url)
  unfolding mode_of read_input read_state read_service read_wlcg
  after_broker env_prefix (ok b) = ok (config_with env_prefix b)
  after_broker env_prefix bad_url = bad_url
  after_broker env_prefix bad_mq = bad_mq

  unfoldable pub read_config : Bytes → Outcome (Config Url)
  unfolding read_broker after_broker
  read_config env_prefix = after_broker env_prefix read_broker
