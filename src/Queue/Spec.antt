-- ===== src/Queue/Spec.antt =====
-- What clients see of the queue: one queue, first in, first out.
use xrootd_monitoring_shovel.Base.{ℕ, ◌<◌, ◌≡◌, true, false, List, [], ◌∷◌, ◌++◌, length}
use xrootd_monitoring_shovel.Queue.Disk.{MessageStruct, Dque}
use xrootd_monitoring_shovel.Queue.{
  Outcome, got, err_empty, ConfirmationQueue, enqueue_to_exchange, dequeue_locked,
}

module _ (dque : Dque) (max_in_memory low_water_mark : ℕ) where
  open dque use {Q, size, items, size_items, dequeue_items}

  -- The messages in the order in which they will be handed out.
  abbrev pub contents : ConfirmationQueue dque → List MessageStruct
  contents cq = cq.mem_queue ++ items cq.disk_queue

  -- Messages stand in one place only, and in memory there are fewer than `MaxInMemory`.
  pub record IsValid (cq : ConfirmationQueue dque) : Type 0 where
    pub on_disk : cq.using_disk ≡ true → cq.mem_queue ≡ []
    pub in_memory : cq.using_disk ≡ false → items cq.disk_queue ≡ []
    pub bounded : length cq.mem_queue < max_in_memory

  abbrev pub put : MessageStruct → ConfirmationQueue dque → ConfirmationQueue dque
  put m = enqueue_to_exchange dque max_in_memory low_water_mark m.message m.exchange

  abbrev pub take : ConfirmationQueue dque → Outcome × ConfirmationQueue dque
  take = dequeue_locked dque max_in_memory low_water_mark

  -- What one queue in order would do.
  abbrev pub fifo_dequeue : List MessageStruct → Outcome × List MessageStruct
  fifo_dequeue [] = (err_empty, [])
  fifo_dequeue (m ∷ ms) = (got m, ms)

  -- Requests of the clients of the queue, in the order in which they get the mutex.
  pub data Request : Type 0 where
    putting : MessageStruct → Request
    taking : Request

  unfoldable pub run : List Request → ConfirmationQueue dque → List Outcome × ConfirmationQueue dque
  run [] cq = ([], cq)
  run (putting m ∷ rs) cq = run rs (put m cq)
  run (taking ∷ rs) cq = let (o, cq') = take cq in let (os, last) = run rs cq' in (o ∷ os, last)

  unfoldable pub fifo_run : List Request → List MessageStruct → List Outcome × List MessageStruct
  fifo_run [] ms = ([], ms)
  fifo_run (putting m ∷ rs) ms = fifo_run rs (ms ++ m ∷ [])
  fifo_run (taking ∷ rs) ms =
      let (o, ms') = fifo_dequeue ms in let (os, last) = fifo_run rs ms' in (o ∷ os, last)

  -- What the requests give, the messages that are left, and that the queue is valid.
  abbrev pub Runs : List Request → ConfirmationQueue dque → List MessageStruct → Type 0
  Runs rs cq ms =
      ((run rs cq).0 ≡ (fifo_run rs ms).0)
      × (contents (run rs cq).1 ≡ (fifo_run rs ms).1)
      × IsValid (run rs cq).1
