-- ===== src/Config/Usable.antt =====
-- Which settings give a config, and what holds of each config.
use xrootd_monitoring_shovel.Base.{
  ℕ, zero, suc, ◌<◌, ◌≡◌, ◌↔◌, ◌⊎◌, refl, ap, inl, inr, [], Option, none, some, Bytes, bytes, eqb,
  eqb_iff, ℤ, pos, negsuc, pos_part, arith, Bool-cases,
}
use xrootd_monitoring_shovel.Config.{
  Settings, StateConfig, Broker, amqp, stomp, Config, Outcome, ok, bad_url, bad_mq, get_string,
  positive_or, read_state, read_amqp, read_stomp, with_url, read_broker, after_broker, config_with,
  read_config,
}

positive_or-pos : (d : ℕ) (x : ℤ) → 0 < d → 0 < pos_part (positive_or d x)
unfolding positive_or
positive_or-pos d (pos zero) h = h
positive_or-pos d (pos (suc n)) h = omega arith
positive_or-pos d (negsuc n) h = h

-- The counts, sizes and times that must not be 0 or negative are positive.
pub record IsUsable (s : StateConfig) : Type 0 where
  pub caches : 0 < pos_part s.dns_cache_ttl
  pub waits : 0 < pos_part s.dns_timeout
  pub enriches : 0 < pos_part s.enrichment_workers
  pub queues : 0 < pos_part s.enrichment_queue_size
  pub streams : 0 < pos_part s.gstream_workers
  pub buffers : 0 < pos_part s.gstream_queue_size

read_state-IsUsable : (v : Settings) → IsUsable (read_state v)
unfolding read_state
read_state-IsUsable v = record {
  caches = positive_or-pos 3600 _ (omega arith);
  waits = positive_or-pos 2 _ (omega arith);
  enriches = positive_or-pos 5 _ (omega arith);
  queues = positive_or-pos 1000000 _ (omega arith);
  streams = positive_or-pos 4 _ (omega arith);
  buffers = positive_or-pos 20000 _ (omega arith);
}

module _ {ℓ} {Url : Type ℓ} (parse_url : Bytes → Option Url) (v : Settings) where
  abbrev mq_of : Bytes
  mq_of = get_string v (bytes "mq") (bytes "amqp")

  -- The message queue is one that there is, and its URL can be parsed.
  abbrev pub IsReadable : Type ℓ
  IsReadable =
      ((mq_of ≡ bytes "amqp")
        × ((u : Url) × (parse_url (get_string v (bytes "amqp.url") []) ≡ some u)))
      ⊎ ((mq_of ≡ bytes "stomp")
          × ((u : Url) × (parse_url (get_string v (bytes "stomp.url") []) ≡ some u)))

  with_url-ok :
      {A : Type ℓ} (f : Url → A) (o : Option Url) (a : A)
      → with_url f o ≡ ok a
      → (u : Url) × (o ≡ some u)
  with_url-ok f none a e = cc
  with_url-ok f (some u) a e = (u, refl)

  read_broker-IsReadable : (b : Broker Url) → read_broker parse_url v ≡ ok b → IsReadable
  unfolding read_broker
  read_broker-IsReadable b e = elim (Bool-cases (eqb mq_of (bytes "amqp"))) [
    | inl is_amqp ↦ inl (
      (eqb_iff _ _).0 is_amqp,
      with_url-ok (λ (u : Url). amqp (read_amqp v u)) _ b (rw is_amqp at e),
    )
    | inr not_amqp ↦ elim (Bool-cases (eqb mq_of (bytes "stomp"))) [
      | inl is_stomp ↦ inr (
        (eqb_iff _ _).0 is_stomp,
        with_url-ok (λ (u : Url). stomp (read_stomp v u)) _ b (rw (not_amqp, is_stomp) at e),
      )
      | inr neither ↦ absurd (cc (rw (not_amqp, neither) at e))
    ]
  ]

  IsReadable-read_broker : IsReadable → (b : Broker Url) × (read_broker parse_url v ≡ ok b)
  unfolding read_broker eqb
  IsReadable-read_broker (inl (is_amqp, (u, parsed))) =
      (amqp (read_amqp v u), rw (is_amqp, parsed) refl)
  IsReadable-read_broker (inr (is_stomp, (u, parsed))) =
      (stomp (read_stomp v u), rw (is_stomp, parsed) refl)

  broker_of :
      (env_prefix : Bytes) (o : Outcome (Broker Url)) (c : Config Url)
      → after_broker parse_url v env_prefix o ≡ ok c
      → (b : Broker Url) × (o ≡ ok b) × (c ≡ config_with parse_url v env_prefix b)
  unfolding after_broker
  broker_of env_prefix (ok b) c e = (b, refl, cc)
  broker_of env_prefix bad_url c e = cc
  broker_of env_prefix bad_mq c e = cc

  pub broker_of_config :
      (env_prefix : Bytes) (c : Config Url)
      → read_config parse_url v env_prefix ≡ ok c
      → (b : Broker Url) × (read_broker parse_url v ≡ ok b)
        × (c ≡ config_with parse_url v env_prefix b)
  unfolding read_config
  broker_of_config env_prefix c e = broker_of env_prefix (read_broker parse_url v) c e

  config_of_broker :
      (env_prefix : Bytes)
      → ((b : Broker Url) × (read_broker parse_url v ≡ ok b))
      → (c : Config Url) × (read_config parse_url v env_prefix ≡ ok c)
  unfolding read_config after_broker
  config_of_broker env_prefix (b, e) =
      (config_with parse_url v env_prefix b, ap (after_broker parse_url v env_prefix) e)

  -- A config is read, and the program does not panic, exactly if the setting mq is amqp, also by
  -- default, or stomp, and url.Parse accepts the URL of that queue, whatever else is set.
  pub read_config_iff :
      (env_prefix : Bytes)
      → ((c : Config Url) × (read_config parse_url v env_prefix ≡ ok c)) ↔ IsReadable
  read_config_iff env_prefix = (
    λ (c, e). let (b, is, _) = broker_of_config env_prefix c e in read_broker-IsReadable b is,
    λ r. config_of_broker env_prefix (IsReadable-read_broker r),
  )

  -- Whatever is set: in a config that is read, the times of the DNS cache and its lookups, the numbers
  -- of workers of the collector and the sizes of their queues are positive.
  pub read_config-IsUsable :
      (env_prefix : Bytes) (c : Config Url)
      → read_config parse_url v env_prefix ≡ ok c
      → IsUsable c.state
  read_config-IsUsable env_prefix c e =
      let (b, _, is) = broker_of_config env_prefix c e in rw is (read_state-IsUsable v)
