-- ===== src/Collector/WorkQueue.antt =====
-- `enrichmentWorkQueue` of collector/enrichment.go: a bounded queue in pages that are allocated when
-- they are needed. Each method holds the mutex for its whole run, so it is one step; a Dequeue that
-- waits is a step that finds nothing. A page is a slice: its elements and its capacity, of which
-- `page[1:]` takes one. The requests are of any type.
pub mod View
pub mod Refines
use xrootd_monitoring_shovel.Base.{
  ℕ, zero, suc, ◌-◌, ◌≡◌, Bool, true, false, not, ◌&&◌, ◌||◌, List, [], ◌∷◌, ◌++◌, length, ltb, leb,
  ◌==◌, ℤ, pos, negsuc, if◌then◌else◌,
}

abbrev pub default_max_size : ℕ
default_max_size = 1000000

abbrev pub page_size : ℕ
page_size = 4096

-- What an Enqueue returns: (enqueued, closed).
abbrev pub Enqueued : Type 0
Enqueued = Bool × Bool

module _ (Request : Type 0) where
  pub record Page : Type 0 where
    pub elements : List Request
    pub cap : ℕ

  pub record WorkQueue : Type 0 where
    pub pages : List Page
    pub size : ℕ
    pub closed : Bool
    pub capacity : ℕ

  -- What a Dequeue comes to. `crashed` is an index out of range.
  pub data Dequeued : Type 0 where
    got : Request → Dequeued
    waiting drained crashed : Dequeued

  abbrev positive_or_default : ℤ → ℕ
  positive_or_default (pos zero) = default_max_size
  positive_or_default (pos (suc n)) = suc n
  positive_or_default (negsuc n) = default_max_size

  unfoldable pub new_work_queue : ℤ → WorkQueue
  new_work_queue capacity = record {
    pages = [];
    size = 0;
    closed = false;
    capacity = positive_or_default capacity;
  }

  abbrev pub is_full : Page → Bool
  is_full p = length p.elements == p.cap

  -- There is no page, or the last one is full.
  unfoldable pub needs_page : List Page → Bool
  needs_page [] = true
  needs_page (p ∷ []) = is_full p
  needs_page (p ∷ q ∷ ps) = needs_page (q ∷ ps)

  -- append to the last page, which has room.
  unfoldable pub add_last : Request → List Page → List Page
  add_last r [] = []
  add_last r (p ∷ []) = record p { elements = p.elements ++ r ∷ [] } ∷ []
  add_last r (p ∷ q ∷ ps) = p ∷ add_last r (q ∷ ps)

  -- The capacity of a new page.
  abbrev pub page_capacity : WorkQueue → ℕ
  page_capacity q = if ltb (q.capacity - q.size) page_size then q.capacity - q.size else page_size

  abbrev pub with_page : WorkQueue → List Page
  with_page q =
      if needs_page q.pages
      then q.pages ++ record { elements = []; cap = page_capacity q } ∷ []
      else q.pages

  unfoldable pub enqueue_locked : Request → WorkQueue → WorkQueue
  unfolding needs_page add_last
  enqueue_locked r q = record q { pages = add_last r (with_page q); size = suc q.size }

  unfoldable pub enqueue : Request → WorkQueue → Enqueued × WorkQueue
  enqueue r q =
      if q.closed
      then ((false, true), q)
      else if leb q.capacity q.size
      then ((false, false), q)
      else ((true, false), enqueue_locked r q)

  -- The request in front.
  unfoldable pub take_first : WorkQueue → List Page → Dequeued × WorkQueue
  take_first q [] = (crashed, q)
  take_first q (p ∷ ps) = elim p.elements [
    | [] ↦ (crashed, q)
    | r ∷ [] ↦ (got r, record q { pages = ps; size = q.size - 1 })
    | r ∷ s ∷ rs ↦ (
      got r,
      record q { pages = record { elements = s ∷ rs; cap = p.cap - 1 } ∷ ps; size = q.size - 1 },
    )
  ]

  unfoldable pub dequeue : WorkQueue → Dequeued × WorkQueue
  unfolding take_first
  dequeue q =
      if q.size == 0 then ((if q.closed then drained else waiting), q) else take_first q q.pages

  unfoldable pub close : WorkQueue → WorkQueue
  close q = record q { closed = true }
