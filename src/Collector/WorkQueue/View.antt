-- ===== src/Collector/WorkQueue/View.antt =====
-- What clients see of the work queue: one bounded queue, first in, first out, that can be closed.
use xrootd_monitoring_shovel.Base.{
  ℕ, ◌≤◌, ◌<◌, ◌≡◌, Bool, true, false, List, [], ◌∷◌, ◌++◌, length, leb, if◌then◌else◌,
}
use xrootd_monitoring_shovel.Collector.WorkQueue.{
  Page, WorkQueue, Dequeued, got, waiting, drained, Enqueued, enqueue, dequeue, close,
}

module _ (Request : Type 0) where
  -- The requests in the order of the pages.
  abbrev pub flat : List (Page Request) → List Request
  flat [] = []
  flat (p ∷ ps) = p.elements ++ flat ps

  -- Every page has an element, and no more than its capacity.
  abbrev pub ArePages : List (Page Request) → Type 0
  ArePages [] = Unit
  ArePages (p ∷ ps) = (0 < length p.elements) × (length p.elements ≤ p.cap) × ArePages ps

  pub record IsValid (q : WorkQueue Request) : Type 0 where
    pub pages_are : ArePages q.pages
    pub size_is : q.size ≡ length (flat q.pages)
    pub bounded : q.size ≤ q.capacity

  -- What clients see: the requests, whether the queue is closed, and its capacity.
  pub record View : Type 0 where
    pub requests : List Request
    pub closed : Bool
    pub capacity : ℕ

  abbrev pub view : WorkQueue Request → View
  view q = record { requests = flat q.pages; closed = q.closed; capacity = q.capacity }

  unfoldable pub enqueue_view : Request → View → Enqueued × View
  enqueue_view r v =
      if v.closed
      then ((false, true), v)
      else if leb v.capacity (length v.requests)
      then ((false, false), v)
      else ((true, false), record v { requests = v.requests ++ r ∷ [] })

  unfoldable pub dequeue_view : View → Dequeued Request × View
  dequeue_view v = elim v.requests [
    | [] ↦ ((if v.closed then drained else waiting), v)
    | r ∷ rs ↦ (got r, record v { requests = rs })
  ]

  -- The methods that clients call.
  pub data Call : Type 0 where
    enqueuing : Request → Call
    dequeuing closing : Call

  pub data Answer : Type 0 where
    enqueued : Enqueued → Answer
    dequeued : Dequeued Request → Answer
    was_closed : Answer

  unfoldable pub calls : List Call → WorkQueue Request → List Answer × WorkQueue Request
  calls [] q = ([], q)
  calls (enqueuing r ∷ cs) q =
      let (a, q') = enqueue Request r q in let (as', last) = calls cs q' in (enqueued a ∷ as', last)
  calls (dequeuing ∷ cs) q =
      let (a, q') = dequeue Request q in let (as', last) = calls cs q' in (dequeued a ∷ as', last)
  calls (closing ∷ cs) q = let (as', last) = calls cs (close Request q) in (was_closed ∷ as', last)

  unfoldable pub view_calls : List Call → View → List Answer × View
  view_calls [] v = ([], v)
  view_calls (enqueuing r ∷ cs) v =
      let (a, v') = enqueue_view r v in
      let (as', last) = view_calls cs v' in (enqueued a ∷ as', last)
  view_calls (dequeuing ∷ cs) v =
      let (a, v') = dequeue_view v in let (as', last) = view_calls cs v' in (dequeued a ∷ as', last)
  view_calls (closing ∷ cs) v =
      let (as', last) = view_calls cs (record v { closed = true }) in (was_closed ∷ as', last)

  -- The answers, the view that is left, and that the queue is valid.
  abbrev pub Answers : List Call → WorkQueue Request → View → Type 0
  Answers cs q v =
      ((calls cs q).0 ≡ (view_calls cs v).0)
      × (view (calls cs q).1 ≡ (view_calls cs v).1)
      × IsValid (calls cs q).1
