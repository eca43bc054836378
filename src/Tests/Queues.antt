-- ===== src/Tests/Queues.antt =====
-- The queue on a disk that never fails.
use xrootd_monitoring_shovel.Base.{
  zero, suc, Bytes, eqb, cut_last, split, has_prefix, join, ℕ, ◌≡◌, refl, false, List, [], ◌∷◌,
  ◌++◌, Option, none, some, bytes, length, arith,
}
use xrootd_monitoring_shovel.Queue.Opening.{Disk, opened, failing, corrupt_segment_path}
use xrootd_monitoring_shovel.Queue.Opening.Heals.{Heals}
use xrootd_monitoring_shovel.Queue.Disk.{MessageStruct, Dque, Works}
use xrootd_monitoring_shovel.Queue.{ConfirmationQueue}
use xrootd_monitoring_shovel.Queue.Spec.{Request, putting, taking, IsValid, Runs}
use xrootd_monitoring_shovel.Queue.Refines.{run-fifo_run}

abbrev pub front : List MessageStruct → Option (MessageStruct × List MessageStruct)
front [] = none
front (m ∷ ms) = some (m, ms)

pub dequeue_front :
    (q q' : List MessageStruct) (m : MessageStruct) → front q ≡ some (m, q') → q ≡ m ∷ q'
dequeue_front [] q' m e = cc
dequeue_front (x ∷ xs) q' m e = cc

pub enqueue_back :
    (m : MessageStruct) (q q' : List MessageStruct)
    → some (q ++ m ∷ []) ≡ some q'
    → q' ≡ q ++ m ∷ []
enqueue_back m q q' e = cc

abbrev pub disk : Dque
disk = record {
  Q = List MessageStruct;
  size = length;
  enqueue = λ m q. some (q ++ m ∷ []);
  dequeue = front;
  items = λ q. q;
  size_items = λ q. refl;
  enqueue_items = enqueue_back;
  dequeue_items = dequeue_front;
}

pub disk-Works : Works disk
disk-Works = record { writes = λ m q. (q ++ m ∷ [], refl); reads = λ q m ms e. (ms, ground arith) }

abbrev pub message : ℕ → MessageStruct
message n = record { message = n ∷ []; exchange = bytes "x" }

abbrev pub empty_queue : ConfirmationQueue disk
empty_queue = record { disk_queue = []; mem_queue = []; using_disk = false }

pub empty_queue-IsValid : IsValid disk 2 1 empty_queue
empty_queue-IsValid = record { on_disk = λ e. cc; in_memory = λ _. refl; bounded = omega arith }

-- Two messages fill the memory, the third moves them to the disk.
abbrev requests : List (Request disk 2 1)
requests =
    putting (message 1)
    ∷ putting (message 2)
    ∷ putting (message 3)
    ∷ taking
    ∷ taking
    ∷ taking
    ∷ taking
    ∷ []

run-fifo_run_example : Runs disk 2 1 requests empty_queue []
run-fifo_run_example =
    run-fifo_run disk disk-Works 2 1 (omega arith) (omega arith) requests empty_queue
      empty_queue-IsValid

-- Two corrupt segments on a disk whose state is the number of them.
abbrev segment : Bytes
segment = bytes "/q/7.dque"

abbrev mending : Disk
mending = record {
  W = ℕ;
  Q = ℕ;
  new_or_open = λ w. elim w [ zero ↦ opened 5 | suc n ↦ failing segment ];
  quarantine_segment = λ s w. elim w [ zero ↦ none | suc n ↦ some n ];
  find_segment = λ message. some message;
}

mending_heals : Heals mending (bytes "/q/")
unfolding corrupt_segment_path eqb cut_last split has_prefix join
mending_heals = record {
  corrupt = λ w. w;
  opens = λ w e. rw e (5, refl);
  fails = λ w n e. rw e (segment, segment, n, refl, refl, refl, refl);
}
