-- ===== src/Collector/WorkQueue/Refines.antt =====
-- The pages of the work queue are one bounded queue.
use xrootd_monitoring_shovel.Base.{
  ℕ, zero, suc, ◌≤◌, ◌<◌, ◌≡◌, refl, sym, ap, ◌∙◌, Bool, true, false, List, [], ◌∷◌, ◌++◌,
  append_assoc, append-nil, length, length-append, leb, ◌==◌, arith, Bool-cases, inl, inr,
}
use xrootd_monitoring_shovel.Collector.WorkQueue.{
  Page, WorkQueue, needs_page, add_last, with_page, enqueue_locked, enqueue, take_first, dequeue,
  close, page_capacity,
}
use xrootd_monitoring_shovel.Collector.WorkQueue.View.{
  flat, ArePages, IsValid, View, view, enqueue_view, dequeue_view, Call, enqueuing, dequeuing,
  closing, Answer, enqueued, dequeued, calls, view_calls, Answers,
}

suc-ne_zero : (n : ℕ) → (suc n == 0) ≡ false
suc-ne_zero n = ground arith

module _ (Request : Type 0) where
  flat-append :
      (ps qs : List (Page Request)) → flat Request (ps ++ qs) ≡ flat Request ps ++ flat Request qs
  flat-append [] qs = refl
  flat-append (p ∷ ps) qs =
      ap (λ (l : List Request). p.elements ++ l) (flat-append ps qs)
      ∙ sym (append_assoc p.elements (flat Request ps) (flat Request qs))

  add_last-append :
      (r : Request) (ps : List (Page Request)) (p : Page Request)
      → add_last Request r (ps ++ p ∷ []) ≡ ps ++ record p { elements = p.elements ++ r ∷ [] } ∷ []
  unfolding add_last
  add_last-append r [] p = refl
  add_last-append r (q ∷ []) p = refl
  add_last-append r (q ∷ q' ∷ ps) p =
      ap (λ (l : List (Page Request)). q ∷ l) (add_last-append r (q' ∷ ps) p)

  ArePages-append :
      (ps : List (Page Request)) (p : Page Request)
      → ArePages Request ps
      → 0 < length p.elements
      → length p.elements ≤ p.cap
      → ArePages Request (ps ++ p ∷ [])
  ArePages-append [] p h l u = (l, u, tt)
  ArePages-append (q ∷ ps) p h l u = (h.0, h.1, ArePages-append ps p h.2 l u)

  -- What a queue's pages are after a request is added to its last page, which has room.
  add_last_lem :
      (r : Request) (ps : List (Page Request))
      → ArePages Request ps
      → needs_page Request ps ≡ false
      → ArePages Request (add_last Request r ps)
        × (flat Request (add_last Request r ps) ≡ flat Request ps ++ r ∷ [])
  unfolding add_last needs_page
  add_last_lem r [] h e = absurd (cc e)
  add_last_lem r (p ∷ []) h e = (ground (arith, length-append p.elements (r ∷ [])), simp append-nil)
  add_last_lem r (p ∷ q ∷ ps) h e =
      let (are, is) = add_last_lem r (q ∷ ps) h.2 e in
      (
        (h.0, h.1, are),
        ap (λ (l : List Request). p.elements ++ l) is
            ∙ sym (append_assoc p.elements (flat Request (q ∷ ps)) (r ∷ [])),
      )

  abbrev Enqueues : Request → WorkQueue Request → Type 0
  Enqueues r q =
      ((enqueue Request r q).0 ≡ (enqueue_view Request r (view Request q)).0)
      × (view Request (enqueue Request r q).1 ≡ (enqueue_view Request r (view Request q)).1)
      × IsValid Request (enqueue Request r q).1

  -- The pages to which a request is added, in a queue with room.
  with_page_lem :
      (r : Request) (q : WorkQueue Request)
      → IsValid Request q
      → q.size < q.capacity
      → ArePages Request (add_last Request r (with_page Request q))
        × (flat Request (add_last Request r (with_page Request q)) ≡ flat Request q.pages ++ r ∷ [])
  with_page_lem r q v room = elim (Bool-cases (needs_page Request q.pages)) [
    | inl full ↦
        let page : Page Request = record { elements = []; cap = page_capacity Request q } in
        rw (full, add_last-append r q.pages page)
          (
            ArePages-append q.pages (record page { elements = r ∷ [] }) v.pages_are (omega arith)
                (ground arith),
            flat-append q.pages (record page { elements = r ∷ [] } ∷ []),
          )
    | inr free ↦ rw free (add_last_lem r q.pages v.pages_are free)
  ]

  abbrev queue_of : List (Page Request) → ℕ → Bool → ℕ → WorkQueue Request
  queue_of ps n b k = record { pages = ps; size = n; closed = b; capacity = k }

  room-Enqueues :
      (r : Request) (ps : List (Page Request)) (n k : ℕ)
      → IsValid Request (queue_of ps n false k)
      → leb k n ≡ false
      → Enqueues r (queue_of ps n false k)
  unfolding enqueue enqueue_view enqueue_locked
  room-Enqueues r ps n k v room =
      let room' : leb k (length (flat Request ps)) ≡ false = ap (leb k) (sym v.size_is) ∙ room in
      let (are, is) = with_page_lem r (queue_of ps n false k) v (ground arith) in
      rw (room, room')
        (
          refl,
          ap (λ (l : List Request). record { requests = l; closed = false; capacity = k }) is,
          record {
            pages_are = are;
            size_is =
                ap suc v.size_is
                ∙ sym (ap length is ∙ length-append (flat Request ps) (r ∷ []) ∙ omega arith);
            bounded = ground arith;
          },
        )

  enqueue-Enqueues :
      (r : Request) (ps : List (Page Request)) (n k : ℕ) (b : Bool)
      → IsValid Request (queue_of ps n b k)
      → Enqueues r (queue_of ps n b k)
  unfolding enqueue enqueue_view
  enqueue-Enqueues r ps n k true v = (refl, refl, v)
  enqueue-Enqueues r ps n k false v = elim (Bool-cases (leb k n)) [
    | inl full ↦
        let full' : leb k (length (flat Request ps)) ≡ true = ap (leb k) (sym v.size_is) ∙ full in
        rw (full, full') (refl, refl, v)
    | inr room ↦ room-Enqueues r ps n k v room
  ]

  pub enqueue-IsValid :
      (r : Request) (q : WorkQueue Request)
      → IsValid Request q
      → IsValid Request (enqueue Request r q).1
  enqueue-IsValid r q v = (enqueue-Enqueues r q.pages q.size q.capacity q.closed v).2

  pub capacity-enqueue :
      (r : Request) (q : WorkQueue Request) → (enqueue Request r q).1.capacity ≡ q.capacity
  unfolding enqueue enqueue_locked
  capacity-enqueue r q = ground arith

  abbrev Dequeues : WorkQueue Request → Type 0
  Dequeues q =
      ((dequeue Request q).0 ≡ (dequeue_view Request (view Request q)).0)
      × (view Request (dequeue Request q).1 ≡ (dequeue_view Request (view Request q)).1)
      × IsValid Request (dequeue Request q).1

  first-Dequeues :
      (rs : List Request) (c : ℕ) (ps : List (Page Request)) (n k : ℕ) (b : Bool)
      → IsValid Request (queue_of (record { elements = rs; cap = c } ∷ ps) n b k)
      → Dequeues (queue_of (record { elements = rs; cap = c } ∷ ps) n b k)
  unfolding dequeue dequeue_view take_first
  first-Dequeues [] c ps n k b v = absurd (omega (arith, v.pages_are.0))
  first-Dequeues (r ∷ rs) c ps zero k b v = absurd (omega (arith, v.size_is))
  first-Dequeues (r ∷ []) c ps (suc n) k b v = rw (suc-ne_zero n) (
    refl,
    refl,
    record {
      pages_are = v.pages_are.2;
      size_is = omega (arith, v.size_is);
      bounded = omega (arith, v.bounded);
    },
  )
  first-Dequeues (r ∷ s ∷ rs) c ps (suc n) k b v = rw (suc-ne_zero n) (
    refl,
    refl,
    record {
      pages_are = (omega arith, omega (arith, v.pages_are.1), v.pages_are.2);
      size_is = omega (arith, v.size_is);
      bounded = omega (arith, v.bounded);
    },
  )

  dequeue-Dequeues :
      (ps : List (Page Request)) (n k : ℕ) (b : Bool)
      → IsValid Request (queue_of ps n b k)
      → Dequeues (queue_of ps n b k)
  unfolding dequeue dequeue_view
  dequeue-Dequeues [] zero k b v = (refl, refl, v)
  dequeue-Dequeues [] (suc n) k b v = absurd (omega (arith, v.size_is))
  dequeue-Dequeues (p ∷ ps) n k b v = first-Dequeues p.elements p.cap ps n k b v

  answered :
      (cs : List (Call Request)) (q : WorkQueue Request) (v v' : (View Request))
      (a a' : Answer Request)
      → a ≡ a'
      → v ≡ v'
      → Answers Request cs q v
      → (a ∷ (calls Request cs q).0 ≡ a' ∷ (view_calls Request cs v').0)
        × (view Request (calls Request cs q).1 ≡ (view_calls Request cs v').1)
        × IsValid Request (calls Request cs q).1
  answered cs q v v' a a' e f (out, kept, valid) = (cc, cc, valid)

  calls-Answers :
      (cs : List (Call Request)) (q : WorkQueue Request) (v : (View Request))
      → view Request q ≡ v
      → IsValid Request q
      → Answers Request cs q v
  unfolding calls view_calls close
  calls-Answers [] q v e valid = (refl, e, valid)
  calls-Answers (enqueuing r ∷ cs) q v e valid =
      let (out, kept, valid') = enqueue-Enqueues r q.pages q.size q.capacity q.closed valid in
      answered cs (enqueue Request r q).1 (enqueue_view Request r (view Request q)).1
        (enqueue_view Request r v).1 _ _
        (ap enqueued out ∙ ap (λ (x : (View Request)). enqueued (enqueue_view Request r x).0) e)
        (ap (λ (x : (View Request)). (enqueue_view Request r x).1) e)
        (calls-Answers cs (enqueue Request r q).1 _ kept valid')
  calls-Answers (dequeuing ∷ cs) q v e valid =
      let (out, kept, valid') = dequeue-Dequeues q.pages q.size q.capacity q.closed valid in
      answered cs (dequeue Request q).1 (dequeue_view Request (view Request q)).1
        (dequeue_view Request v).1 _ _
        (ap dequeued out ∙ ap (λ (x : (View Request)). dequeued (dequeue_view Request x).0) e)
        (ap (λ (x : (View Request)). (dequeue_view Request x).1) e)
        (calls-Answers cs (dequeue Request q).1 _ kept valid')
  calls-Answers (closing ∷ cs) q v e valid = answered cs (close Request q) _ _ _ _ refl refl (
      calls-Answers cs (close Request q) _
        (ap (λ (x : (View Request)). record x { closed = true }) e)
        (record { pages_are = valid.pages_are; size_is = valid.size_is; bounded = valid.bounded }))

  -- For any enqueues, dequeues and closes, in any order, on a valid queue, the answers are those of
  -- one bounded first-in-first-out queue, whatever pages the requests stand in: an enqueue is
  -- refused exactly if the queue is closed or has as many requests as its capacity, a dequeue takes
  -- the oldest request. The queue stays valid; its pages are never empty.
  pub calls-view_calls :
      (cs : List (Call Request)) (q : WorkQueue Request)
      → IsValid Request q
      → Answers Request cs q (view Request q)
  calls-view_calls cs q valid = calls-Answers cs q (view Request q) refl valid
