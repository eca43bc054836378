-- ===== src/Publisher.antt =====
-- amqp.go: the pool of workers that publish the messages of the confirmation queue, as a step
-- relation. A step is what one goroutine does between two waits. Loads and stores of the pool's
-- fields are atomic here, though the code shares them without a lock. The session of a worker is in
-- the child Session: here a Push works, or fails, as the broker chooses.
pub mod Order
pub mod Restart
pub mod Counts
pub mod Session
pub mod Stomp
use xrootd_monitoring_shovel.Base.{
  ℕ, zero, suc, ◌+◌, ◌<◌, ◌≡◌, ◌⊎◌, Bool, true, false, ◌||◌, List, [], ◌∷◌, ◌++◌, Bytes, bytes,
  length, is_empty, eqb, ltb, ℤ, pos, negsuc, if◌then◌else◌,
}
use xrootd_monitoring_shovel.Queue.Disk.{MessageStruct}
use xrootd_monitoring_shovel.Queue.{got}
use xrootd_monitoring_shovel.Queue.Messages.{MessageQueue}

-- The fields of Config that the pool reads.
pub record PublisherConfig : Type 0 where
  pub mode : Bytes
  pub amqp_publish_workers : ℤ
  pub amqp_exchange : Bytes

-- feedMessages: at the check of the context, in Dequeue, behind it, in the select with the
-- generation of the context that it waits for, and returned, with or without a message in hand.
pub data Feeder : Type 0 where
  checking dequeuing returned : Feeder
  dequeued : MessageStruct → Feeder
  sending : MessageStruct → ℕ → Feeder
  gave_up : MessageStruct → Feeder

-- A worker in the select of `run`, at the check of publishMessage, in Push, in the wait behind a
-- failed Push, and returned.
pub data Worker : Type 0 where
  receiving ended : Worker
  attempting pushing backing_off : MessageStruct → Worker

-- What became of a message that a worker took: published to an exchange, or given up.
pub data Fate : Type 0 where
  published : Bytes → MessageStruct → Fate
  given_up : MessageStruct → Fate

-- StartAMQP: waiting for the first context, in Stop behind its cancel with the generation of the
-- workers that it waits for, waiting for the feeder, and behind Stop.
pub data Main : Type 0 where
  awaiting awaiting_feeder stopped : Main
  joining : ℕ → Main

-- CheckTokenFile: in its select, in Restart behind the cancel, and returned.
pub data Watcher : Type 0 where
  watching restarting gone : Watcher

-- make(chan *MessageStruct, 1000)
abbrev pub channel_capacity : ℕ
channel_capacity = 1000

abbrev count_of : ℤ → ℕ
count_of (pos n) = n
count_of (negsuc n) = 0

-- The workers that Start and Restart make.
unfoldable pub worker_count : PublisherConfig → ℕ
worker_count config =
    if eqb config.mode (bytes "shoveler") then 1 else count_of config.amqp_publish_workers

-- n new workers.
unfoldable pub new_workers : ℕ → List Worker
new_workers zero = []
new_workers (suc n) = receiving ∷ new_workers n

abbrev pub AllEnded : List Worker → Type 0
AllEnded [] = Unit
AllEnded (w ∷ ws) = (w ≡ ended) × AllEnded ws

-- The exchange of publishMessage.
unfoldable pub exchange_for : PublisherConfig → MessageStruct → Bytes
exchange_for config m = if is_empty m.exchange then config.amqp_exchange else m.exchange

module _ (queue : MessageQueue) where
  open queue use {Q, put, take, messages}

  -- WorkerPool. A context is its generation, and whether the last one is cancelled. `accepted` are
  -- the messages that the queue had at the start and that were put into it, and `fates` what the
  -- workers did, both in order.
  pub record Pool : Type 0 where
    pub queued : Q
    pub channel : List MessageStruct
    pub channel_closed : Bool
    pub feeder : Feeder
    pub workers : List Worker
    pub generation : ℕ
    pub cancelled : Bool
    pub main : Main
    pub watcher : Watcher
    pub accepted : List MessageStruct
    pub fates : List Fate

  -- Whether the context of a generation is done.
  abbrev pub is_done : ℕ → Pool → Bool
  is_done g p = ltb g p.generation || p.cancelled

  module _ (config : PublisherConfig) where
    -- StartAMQP with pool.Start, with a token file.
    unfoldable pub start_amqp : Q → Pool
    start_amqp q = record {
      queued = q;
      channel = [];
      channel_closed = false;
      feeder = checking;
      workers = new_workers (worker_count config);
      generation = 0;
      cancelled = false;
      main = awaiting;
      watcher = watching;
      accepted = messages q;
      fates = [];
    }

    -- What a worker does by itself: the check of the context, Push, and the wait. The flag is
    -- whether the context is done.
    pub data Attempt : Bool → Worker → Worker → List Fate → Type 0 where
      check_on : (m : MessageStruct) → Attempt false (attempting m) (pushing m) []
      check_off : (m : MessageStruct) → Attempt true (attempting m) receiving (given_up m ∷ [])
      push_works :
          {b : Bool} (m : MessageStruct)
          → Attempt b (pushing m) receiving (published (exchange_for config m) m ∷ [])
      push_fails : {b : Bool} (m : MessageStruct) → Attempt b (pushing m) (backing_off m) []
      wait_off : (m : MessageStruct) → Attempt true (backing_off m) receiving (given_up m ∷ [])
      wait_on : {b : Bool} (m : MessageStruct) → Attempt b (backing_off m) (attempting m) []
      stop_worker : Attempt true receiving ended []

    pub data Step : Pool → Pool → Type 0 where
      -- a client's EnqueueToExchange
      enqueues :
          (p : Pool) (m : MessageStruct)
          → Step p (record p { queued = put m p.queued; accepted = p.accepted ++ m ∷ [] })
      -- feedMessages
      check_done :
          (p : Pool)
          → p.feeder ≡ checking
          → p.cancelled ≡ true
          → Step p (record p { feeder = returned })
      check_default :
          (p : Pool)
          → p.feeder ≡ checking
          → p.cancelled ≡ false
          → Step p (record p { feeder = dequeuing })
      dequeues :
          (p : Pool) (m : MessageStruct) (q : Q)
          → p.feeder ≡ dequeuing
          → take p.queued ≡ (got m, q)
          → Step p (record p { queued = q; feeder = dequeued m })
      enters_select :
          (p : Pool) (m : MessageStruct)
          → p.feeder ≡ dequeued m
          → Step p (record p { feeder = sending m p.generation })
      sends :
          (p : Pool) (m : MessageStruct) (g : ℕ)
          → p.feeder ≡ sending m g
          → length p.channel < channel_capacity
          → p.channel_closed ≡ false
          → Step p (record p { channel = p.channel ++ m ∷ []; feeder = checking })
      send_done :
          (p : Pool) (m : MessageStruct) (g : ℕ)
          → p.feeder ≡ sending m g
          → is_done g p ≡ true
          → Step p (record p { feeder = gave_up m })
      -- run and publishMessage of a worker, which stands between others
      receives :
          (p : Pool) (before after : List Worker) (m : MessageStruct) (ms : List MessageStruct)
          → p.workers ≡ before ++ receiving ∷ after
          → p.channel ≡ m ∷ ms
          → Step p (record p { workers = before ++ attempting m ∷ after; channel = ms })
      works :
          (p : Pool) (before after : List Worker) (w w' : Worker) (fs : List Fate)
          → p.workers ≡ before ++ w ∷ after
          → Attempt p.cancelled w w' fs
          → Step p (record p { workers = before ++ w' ∷ after; fates = p.fates ++ fs })
      -- CheckTokenFile: the file is newer, and Restart cancels; it goes on when all have ended
      token_changes :
          (p : Pool)
          → p.watcher ≡ watching
          → Step p (record p { watcher = restarting; cancelled = true })
      restarts :
          (p : Pool)
          → p.watcher ≡ restarting
          → AllEnded p.workers
          → Step p (record p {
            watcher = watching;
            generation = suc p.generation;
            cancelled = false;
            workers = new_workers (worker_count config);
          })
      watcher_done :
          (p : Pool)
          → p.watcher ≡ watching
          → p.cancelled ≡ true
          → Step p (record p { watcher = gone })
      -- StartAMQP behind its wait: Stop
      stop_cancels :
          (p : Pool)
          → p.main ≡ awaiting
          → is_done 0 p ≡ true
          → Step p (record p { main = joining p.generation; cancelled = true })
      stop_joins :
          (p : Pool) (g : ℕ)
          → p.main ≡ joining g
          → (AllEnded p.workers) ⊎ (g < p.generation)
          → Step p (record p { main = awaiting_feeder })
      stop_closes :
          (p : Pool)
          → p.main ≡ awaiting_feeder
          → (p.feeder ≡ returned) ⊎ ((m : MessageStruct) × (p.feeder ≡ gave_up m))
          → Step p (record p { main = stopped; channel_closed = true })

    pub data Reach (p : Pool) : Pool → Type 0 where
      here : Reach p p
      next : {q r : Pool} → Reach p q → Step q r → Reach p r

    -- A worker receives nil from the closed channel, and publishMessage reads its Exchange.
    pub record Panics (p : Pool) : Type 0 where
      pub before : List Worker
      pub after : List Worker
      pub receives_nil : p.workers ≡ before ++ receiving ∷ after
      pub channel_drained : p.channel ≡ []
      pub is_closed : p.channel_closed ≡ true
