-- ===== src/Config/Workers.antt =====
-- What a collector publishes whose settings ask for no publish workers.
use xrootd_monitoring_shovel.Base.{
  ◌≡◌, refl, sym, ap, ◌∙◌, List, [], ◌∷◌, ◌++◌, Option, some, Bytes, bytes, eqb, pos, arith,
}
use xrootd_monitoring_shovel.Queue.Messages.{MessageQueue}
use xrootd_monitoring_shovel.Config.{
  Settings, Config, Broker, amqp, AmqpConfig, read_amqp, mode_of, ok, read_broker, read_config,
}
use xrootd_monitoring_shovel.Config.Usable.{broker_of_config}
use xrootd_monitoring_shovel.Publisher.{
  PublisherConfig, Pool, start_amqp, new_workers, worker_count, Step, enqueues, check_done,
  check_default, dequeues, enters_select, sends, send_done, receives, works, token_changes,
  restarts, watcher_done, stop_cancels, stop_joins, stop_closes, Reach, here, next,
}

-- What StartAMQP reads of a config.
unfoldable pub publisher_config {ℓ} : {Url : Type ℓ} → Bytes → AmqpConfig Url → PublisherConfig
publisher_config mode a = record {
  mode = mode;
  amqp_publish_workers = a.publish_workers;
  amqp_exchange = a.exchange;
}

no_split {ℓ} : {A : Type ℓ} (before after : List A) (a : A) → [] ≡ before ++ a ∷ after → ⊥
no_split [] after a e = cc
no_split (b ∷ before) after a e = cc

module _ (queue : MessageQueue) (config : PublisherConfig) where
  record IsIdle (p : Pool queue) : Type 0 where
    nobody : p.workers ≡ []
    nothing : p.fates ≡ []

  Step-IsIdle :
      {p q : Pool queue} → worker_count config ≡ 0 → Step queue config p q → IsIdle p → IsIdle q
  unfolding new_workers
  Step-IsIdle none_ (receives p before after m ms e c) i =
      absurd (no_split before after _ (sym i.nobody ∙ e))
  Step-IsIdle none_ (works p before after w w' fs e t) i =
      absurd (no_split before after w (sym i.nobody ∙ e))
  Step-IsIdle none_ (restarts p e ends) i = record { nobody = rw none_ refl; nothing = i.nothing }
  Step-IsIdle none_ (enqueues p m) i = record { nobody = i.nobody; nothing = i.nothing }
  Step-IsIdle none_ (check_done p e c) i = record { nobody = i.nobody; nothing = i.nothing }
  Step-IsIdle none_ (check_default p e c) i = record { nobody = i.nobody; nothing = i.nothing }
  Step-IsIdle none_ (dequeues p m q e t) i = record { nobody = i.nobody; nothing = i.nothing }
  Step-IsIdle none_ (enters_select p m e) i = record { nobody = i.nobody; nothing = i.nothing }
  Step-IsIdle none_ (sends p m g e r o) i = record { nobody = i.nobody; nothing = i.nothing }
  Step-IsIdle none_ (send_done p m g e d) i = record { nobody = i.nobody; nothing = i.nothing }
  Step-IsIdle none_ (token_changes p e) i = record { nobody = i.nobody; nothing = i.nothing }
  Step-IsIdle none_ (watcher_done p e c) i = record { nobody = i.nobody; nothing = i.nothing }
  Step-IsIdle none_ (stop_cancels p e d) i = record { nobody = i.nobody; nothing = i.nothing }
  Step-IsIdle none_ (stop_joins p g e d) i = record { nobody = i.nobody; nothing = i.nothing }
  Step-IsIdle none_ (stop_closes p e f) i = record { nobody = i.nobody; nothing = i.nothing }

  Reach-IsIdle :
      {p q : Pool queue} → worker_count config ≡ 0 → Reach queue config p q → IsIdle p → IsIdle q
  Reach-IsIdle none_ here i = i
  Reach-IsIdle none_ (next r s) i = Step-IsIdle none_ s (Reach-IsIdle none_ r i)

  start_amqp-IsIdle : (q : queue.Q) → worker_count config ≡ 0 → IsIdle (start_amqp queue config q)
  unfolding start_amqp new_workers
  start_amqp-IsIdle q e = record { nobody = rw e refl; nothing = refl }

module _ {ℓ} {Url : Type ℓ} (parse_url : Bytes → Option Url) (v : Settings) where
  amqp_workers :
      (a : AmqpConfig Url)
      → v.int_at (bytes "amqp.publish_workers") ≡ some (pos 0)
      → read_broker parse_url v ≡ ok (amqp a)
      → a.publish_workers ≡ pos 0
  unfolding read_broker read_amqp
  amqp_workers a unset e = ground arith

  no_workers :
      (c : Config Url) (a : AmqpConfig Url)
      → v.int_at (bytes "amqp.publish_workers") ≡ some (pos 0)
      → read_config parse_url v (bytes "COLLECTOR") ≡ ok c
      → c.broker ≡ amqp a
      → worker_count (publisher_config c.mode a) ≡ 0
  unfolding worker_count publisher_config mode_of eqb
  no_workers c a unset e is =
      let (b, broker, made) = broker_of_config parse_url v (bytes "COLLECTOR") c e in
      let none_asked = amqp_workers a unset (
        broker
        ∙ ap (λ (x : Broker Url). ok x) (sym (ap (λ (x : Config Url). x.broker) made) ∙ is)) in
      rw (ap (λ (x : Config Url). x.mode) made, none_asked) refl

  -- A collector whose setting amqp.publish_workers is 0 has a config like any other, but its pool
  -- publishes nothing, whatever is enqueued and however long it runs.
  pub read_config-idle :
      (queue : MessageQueue) (c : Config Url) (a : AmqpConfig Url) (q : queue.Q) (p : Pool queue)
      → v.int_at (bytes "amqp.publish_workers") ≡ some (pos 0)
      → read_config parse_url v (bytes "COLLECTOR") ≡ ok c
      → c.broker ≡ amqp a
      → Reach queue (publisher_config c.mode a) (start_amqp queue (publisher_config c.mode a) q) p
      → p.fates ≡ []
  read_config-idle queue c a q p unset e is r =
      (Reach-IsIdle queue (publisher_config c.mode a) (no_workers c a unset e is) r
        (start_amqp-IsIdle queue (publisher_config c.mode a) q (no_workers c a unset e is))).nothing
