-- ===== src/Queue/Disk.antt =====
-- The messages of queue.go, and what it uses of github.com/joncrlsn/dque: a queue on disk, first
-- in, first out.
use xrootd_monitoring_shovel.Base.{ℕ, ◌≡◌, List, [], ◌∷◌, ◌++◌, Option, some, Bytes, length}

pub record MessageStruct : Type 0 where
  pub message : Bytes
  pub exchange : Bytes

-- `none` is an error of the disk. `items` are the messages that the queue holds.
pub record Dque : Type 1 where
  pub Q : Type 0
  pub size : Q → ℕ
  pub enqueue : MessageStruct → Q → Option Q
  pub dequeue : Q → Option (MessageStruct × Q)
  pub items : Q → List MessageStruct
  pub size_items : (q : Q) → size q ≡ length (items q)
  pub enqueue_items :
      (m : MessageStruct) (q q' : Q) → enqueue m q ≡ some q' → items q' ≡ items q ++ m ∷ []
  pub dequeue_items :
      (q q' : Q) (m : MessageStruct) → dequeue q ≡ some (m, q') → items q ≡ m ∷ items q'

-- A disk without errors: a write succeeds, and so does a read of a queue that is not empty.
pub record Works (dque : Dque) : Type 0 where
  pub writes : (m : MessageStruct) (q : dque.Q) → (q' : dque.Q) × (dque.enqueue m q ≡ some q')
  pub reads :
      (q : dque.Q) (m : MessageStruct) (ms : List MessageStruct)
      → dque.items q ≡ m ∷ ms
      → (q' : dque.Q) × (dque.dequeue q ≡ some (m, q'))
