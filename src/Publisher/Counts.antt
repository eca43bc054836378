-- ===== src/Publisher/Counts.antt =====
-- With any number of workers: no message is lost or made twice.
use xrootd_monitoring_shovel.Base.{ℕ, ◌+◌, ◌≡◌, Bool, List, [], ◌∷◌, map, if◌then◌else◌}
use xrootd_monitoring_shovel.Queue.Disk.{MessageStruct}
use xrootd_monitoring_shovel.Queue.Messages.{MessageQueue}
use xrootd_monitoring_shovel.Publisher.{PublisherConfig, Feeder, Worker, Fate, Pool}
use xrootd_monitoring_shovel.Publisher.Order.{message_of, in_hands, fed}

module _ (t : MessageStruct → Bool) where
  -- How many messages pass a test.
  abbrev pub amount : List MessageStruct → ℕ
  amount [] = 0
  amount (m ∷ ms) = (if t m then 1 else 0) + amount ms

  module _ (queue : MessageQueue) (config : PublisherConfig) where
    open queue use {Q, Valid, messages, put_messages, take_messages}

    abbrev weight : List Fate → List Worker → List MessageStruct → Feeder → Q → ℕ
    weight fs ws ch f q =
        amount (map message_of fs)
        + amount (in_hands ws)
        + amount ch
        + amount (fed f)
        + amount (messages q)

    record Counted (p : Pool queue) : Type 0 where
      is_valid : Valid p.queued
      counted : weight p.fates p.workers p.channel p.feeder p.queued ≡ amount p.accepted
