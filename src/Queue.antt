-- ===== src/Queue.antt =====
-- queue.go: `ConfirmationQueue`, a queue in memory that spills to disk. The queue on disk is the
-- package github.com/joncrlsn/dque, which is the parameter `Dque`; `MaxInMemory` and `LowWaterMark`
-- are variables of the program and are parameters too. Each method holds the mutex for its whole
-- run, and a Dequeue that finds nothing waits: `err_empty` is the return to the wait, which is in
-- the child Waiting.
pub mod Disk
mod Fifo
pub mod Spec
pub mod Refines
pub mod Opening
pub mod Messages
pub mod Waiting
use xrootd_monitoring_shovel.Base.{
  ℕ, zero, suc, ◌+◌, ◌-◌, ◌≡◌, Bool, true, false, not, ◌&&◌, List, [], ◌∷◌, ◌++◌, Option, none,
  some, Bytes, length, ltb, leb, ◌==◌, if◌then◌else◌,
}
use xrootd_monitoring_shovel.Queue.Disk.{MessageStruct, Dque}

-- What a Dequeue comes to. `crashed` is the failed type assertion behind a failed read.
pub data Outcome : Type 0 where
  got : MessageStruct → Outcome
  err_empty crashed : Outcome

module _ (dque : Dque) where
  open dque use {Q, size, enqueue, dequeue}

  pub record ConfirmationQueue : Type 0 where
    pub disk_queue : Q
    pub mem_queue : List MessageStruct
    pub using_disk : Bool

  -- `Init`: messages left on disk by an earlier run are there first.
  unfoldable pub init : Q → ConfirmationQueue
  init q = record { disk_queue = q; mem_queue = []; using_disk = ltb 0 (size q) }

  -- A failed write is logged, and its message is lost.
  unfoldable pub write : MessageStruct → Q → Q
  write m q = elim (enqueue m q) [ none ↦ q | some q' ↦ q' ]

  unfoldable pub write_all : List MessageStruct → Q → Q
  unfolding write
  write_all [] q = q
  write_all (m ∷ ms) q = write_all ms (write m q)

  unfoldable pub queue_size : ConfirmationQueue → ℕ
  queue_size cq = if cq.using_disk then size cq.disk_queue else length cq.mem_queue

  -- `for cq.diskQueue.Size() > 0`: to memory, in order. The size is fuel enough.
  unfoldable pub read_all : ℕ → Q → List MessageStruct → Option (Q × List MessageStruct)
  read_all zero q ms = some (q, ms)
  read_all (suc fuel) q ms = elim (ltb 0 (size q)) [
    | false ↦ some (q, ms)
    | true ↦ elim (dequeue q) [ none ↦ none | some (m, q') ↦ read_all fuel q' (ms ++ m ∷ []) ]
  ]

  -- `cq.memQueue.Remove(cq.memQueue.Front())`; of an empty list it is a crash.
  abbrev pub take_front : Q → List MessageStruct → Outcome × ConfirmationQueue
  take_front q [] = (crashed, record { disk_queue = q; mem_queue = []; using_disk = false })
  take_front q (m ∷ ms) = (got m, record { disk_queue = q; mem_queue = ms; using_disk = false })

  module _ (max_in_memory low_water_mark : ℕ) where
    unfoldable pub enqueue_to_exchange : Bytes → Bytes → ConfirmationQueue → ConfirmationQueue
    unfolding write_all
    enqueue_to_exchange msg exchange cq =
        let m : MessageStruct = record { message = msg; exchange = exchange } in
        if not cq.using_disk && ltb (length cq.mem_queue + 1) max_in_memory
        then record cq { mem_queue = cq.mem_queue ++ m ∷ [] }
        else if not cq.using_disk && leb max_in_memory (length cq.mem_queue + 1)
        then record {
          disk_queue = write m (write_all cq.mem_queue cq.disk_queue);
          mem_queue = [];
          using_disk = true;
        }
        else record cq { disk_queue = write m cq.disk_queue }

    -- One message off the disk.
    abbrev take_disk : ConfirmationQueue → Outcome × ConfirmationQueue
    take_disk cq = elim (dequeue cq.disk_queue) [
      | none ↦ (crashed, cq)
      | some (m, q) ↦ (got m, record cq { disk_queue = q })
    ]

    -- All messages off the disk, and the first of them.
    abbrev take_back : ConfirmationQueue → Outcome × ConfirmationQueue
    take_back cq = elim (read_all (size cq.disk_queue) cq.disk_queue cq.mem_queue) [
      | none ↦ (crashed, cq)
      | some (q, ms) ↦ take_front q ms
    ]

    unfoldable pub dequeue_locked : ConfirmationQueue → Outcome × ConfirmationQueue
    dequeue_locked cq =
        if queue_size cq == 0
        then (err_empty, cq)
        else if not cq.using_disk
        then take_front cq.disk_queue cq.mem_queue
        else if leb low_water_mark (size cq.disk_queue - 1)
        then take_disk cq
        else take_back cq
