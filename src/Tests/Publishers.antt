-- ===== src/Tests/Publishers.antt =====
-- A shoveler with one datagram, up to its publication, and pools at a change of the token file.
use xrootd_monitoring_shovel.Base.{
  ℕ, ◌≡◌, refl, Bool, true, List, [], ◌∷◌, ◌++◌, map, bytes, pos, eqb, arith, inl,
}
use xrootd_monitoring_shovel.Verify.{verify_packet}
use xrootd_monitoring_shovel.Queue.{
  ConfirmationQueue, enqueue_to_exchange, dequeue_locked, queue_size,
}
use xrootd_monitoring_shovel.Queue.Disk.{MessageStruct}
use xrootd_monitoring_shovel.Queue.Messages.{MessageQueue, confirmation_messages}
use xrootd_monitoring_shovel.Queue.Waiting as Waiting
use xrootd_monitoring_shovel.Queue.Waiting.{Reach-serves, calling, waiting as in_wait, served, wake}
use xrootd_monitoring_shovel.Publisher.{
  PublisherConfig, stopped, Feeder, dequeuing, dequeued, sending, Worker, receiving, attempting,
  pushing, published, Pool, start_amqp, worker_count, new_workers, exchange_for, Step,
  check_default, dequeues, enters_select, sends, receives, works, check_on, push_works, Reach, here,
  next, Panics, enqueues,
}
use xrootd_monitoring_shovel.Publisher.Order.{message_of, unsettled, Reach-ordered}
use xrootd_monitoring_shovel.Publisher.Restart.{token_changes-Panics}
use xrootd_monitoring_shovel.Shoveler.{ShovelerConfig, shovel_udp}
use xrootd_monitoring_shovel.Shoveler.Delivers.{
  Datagram, message_for, passed, enqueue_shoveled, Shovels, starts, pool_moves, takes,
  Shovels-publishes,
}
use xrootd_monitoring_shovel.Input.Rabbit.{consume}
use xrootd_monitoring_shovel.Shoveler.Received.{deliveries, packet_for, Shovels-received}
use xrootd_monitoring_shovel.Tests.Queues.{disk, disk-Works, empty_queue, empty_queue-IsValid}
use xrootd_monitoring_shovel.Tests.Inputs.{framed, unframed, framed_agree, mapping, fresh}

abbrev queue : MessageQueue
queue = confirmation_messages disk disk-Works 2 1 (omega arith) (omega arith)

abbrev config : PublisherConfig
config = record {
  mode = bytes "shoveler";
  amqp_publish_workers = pos 10;
  amqp_exchange = bytes "shoveled-xrd";
}

abbrev shoveling : ShovelerConfig
shoveling = record { verify = true; version = bytes "1.0"; mapping = mapping }

-- An XML packet of eight bytes, and one that the check drops.
abbrev xml : Datagram
xml = (bytes "<stats/>", record { ip = bytes "10.0.0.1"; port = 9930 })

abbrev noise : Datagram
noise = (1 ∷ 2 ∷ [], record { ip = bytes "10.0.0.1"; port = 9930 })

abbrev sent : MessageStruct
sent = message_for ℕ framed shoveling [] xml

abbrev start : Pool queue
start = start_amqp queue config empty_queue

-- The pool when the message is in the queue, and when it is published.
abbrev waiting : Pool queue
waiting = record start {
  queued = record empty_queue { mem_queue = sent ∷ [] };
  accepted = sent ∷ [];
}

abbrev done_pool : Pool queue
done_pool = record start {
  queued = empty_queue;
  accepted = sent ∷ [];
  fates = published (bytes "shoveled-xrd") sent ∷ [];
}

abbrev feeding : Feeder → Pool queue
feeding f = record start { accepted = sent ∷ []; feeder = f }

abbrev working_on : Worker → Pool queue
working_on w = record start { accepted = sent ∷ []; workers = w ∷ [] }

module _ (P : Pool queue → Type 0)
    (step : (p p' : Pool queue)
      → P p
      → Step queue config p p'
      → p'.accepted ≡ p.accepted
      → P p') where
  -- From the queue to the broker.
  publishing : P waiting → P done_pool
  unfolding start_amqp dequeue_locked queue_size new_workers worker_count eqb exchange_for
  publishing w0 =
      let w1 =
        step waiting (record waiting { feeder = dequeuing }) w0 (check_default waiting refl refl)
          refl in
      let w2 =
        step (record waiting { feeder = dequeuing }) (feeding (dequeued sent)) w1
          (dequeues (record waiting { feeder = dequeuing }) sent empty_queue refl refl) refl in
      let w3 =
        step (feeding (dequeued sent)) (feeding (sending sent 0)) w2
          (enters_select (feeding (dequeued sent)) sent refl) refl in
      let w4 =
        step (feeding (sending sent 0)) (record start { accepted = sent ∷ []; channel = sent ∷ [] })
          w3 (sends (feeding (sending sent 0)) sent 0 refl (omega arith) refl) refl in
      let w5 =
        step (record start { accepted = sent ∷ []; channel = sent ∷ [] })
          (working_on (attempting sent)) w4
          (receives (record start { accepted = sent ∷ []; channel = sent ∷ [] }) [] [] sent [] refl
            refl)
          refl in
      let w6 =
        step (working_on (attempting sent)) (working_on (pushing sent)) w5
          (works (working_on (attempting sent)) [] [] (attempting sent) (pushing sent) [] refl
            (check_on sent))
          refl in
      step (working_on (pushing sent)) done_pool w6
        (works (working_on (pushing sent)) [] [] (pushing sent) receiving
          (published (bytes "shoveled-xrd") sent ∷ []) refl (push_works sent))
        refl

abbrev arrived : List Datagram
arrived = noise ∷ xml ∷ []

abbrev Run : List Datagram → Pool queue → Type 0
Run = Shovels ℕ framed shoveling [] queue config empty_queue

first_taken : Run (noise ∷ []) start
unfolding shovel_udp enqueue_shoveled verify_packet
first_taken = takes noise starts refl refl

second_taken : Run arrived waiting
unfolding shovel_udp enqueue_shoveled verify_packet start_amqp enqueue_to_exchange
second_taken = takes xml first_taken refl refl

shoveled : Run arrived done_pool
shoveled = publishing (Run arrived) (λ p p' s t same. pool_moves s t same) second_taken

Shovels-publishes_example :
    (first : List Datagram) × (rest : List Datagram) × (done_pool.fates
      ≡ map
          (λ (d : Datagram). published (bytes "shoveled-xrd") (message_for ℕ framed shoveling [] d))
          first)
    × (first ++ rest ≡ passed ℕ framed shoveling [] arrived)
unfolding start_amqp
Shovels-publishes_example =
    Shovels-publishes ℕ framed shoveling [] queue config empty_queue arrived done_pool refl
      empty_queue-IsValid refl shoveled refl refl

Shovels-received_example :
    (first : List Datagram) × (rest : List Datagram) × ((consume unframed
        (deliveries 1 done_pool.fates)
        fresh).1.sent
      ≡ map (packet_for ℕ framed shoveling []) first)
    × (first ++ rest ≡ passed ℕ framed shoveling [] arrived)
unfolding start_amqp
Shovels-received_example =
    Shovels-received ℕ framed shoveling [] queue config unframed 1 fresh empty_queue arrived
      done_pool framed_agree refl empty_queue-IsValid refl shoveled refl refl

reached : Reach queue config start done_pool
unfolding enqueue_to_exchange start_amqp
reached =
    publishing (Reach queue config start) (λ p p' s t same. next s t)
      (next here (enqueues start sent))

Reach-ordered_example :
    map message_of done_pool.fates ++ unsettled queue config done_pool ≡ done_pool.accepted
Reach-ordered_example =
    Reach-ordered queue config empty_queue done_pool refl empty_queue-IsValid reached

abbrev any_message : MessageStruct → Bool
any_message m = true

token_changes-Panics_example :
    (p : Pool queue) × Reach queue config start p
    × (p.generation ≡ 1)
    × (p.main ≡ stopped)
    × Panics queue config p
unfolding start_amqp worker_count eqb new_workers
token_changes-Panics_example =
    token_changes-Panics queue config 0 start refl refl refl refl refl (refl, tt)

-- One goroutine finds the queue empty and waits, and a message comes.
abbrev woken : Waiting.Shared queue
woken = record { queued = record empty_queue { mem_queue = sent ∷ [] }; consumers = calling ∷ [] }

shared_steps : Waiting.Reach queue (record { queued = empty_queue; consumers = [] }) woken
unfolding wake dequeue_locked queue_size enqueue_to_exchange
shared_steps =
    Waiting.next
      (Waiting.next
        (Waiting.next Waiting.here
          (Waiting.starts (record { queued = empty_queue; consumers = [] })))
        (Waiting.waits (record { queued = empty_queue; consumers = calling ∷ [] }) [] [] empty_queue
          refl refl))
      (Waiting.enqueues (record { queued = empty_queue; consumers = in_wait ∷ [] }) sent)

Reach-serves_example :
    (q : ConfirmationQueue disk) × Waiting.Step queue woken
      (record { queued = q; consumers = served sent ∷ [] })
    × (queue.messages q ≡ [])
Reach-serves_example =
    Reach-serves queue empty_queue woken [] [] calling sent [] empty_queue-IsValid shared_steps refl
      (inl refl) refl
