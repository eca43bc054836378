-- ===== src/Queue/Refines.antt =====
-- The confirmation queue is one queue, first in, first out, wherever its messages are kept.
use native.Mathlib.Decide.{dec_lt}
use mathlib.Core.Path.{ap₂}
use xrootd_monitoring_shovel.Base.{
  ℕ, suc, ◌+◌, ◌-◌, ◌≤◌, ◌<◌, ◌≡◌, refl, ap, ◌∙◌, Bool, true, false, List, [], ◌∷◌, ◌++◌,
  append_assoc, append-nil, some, length, length-append, arith, Bool-cases, ltb, leb, inl, inr,
  ◌==◌,
}
use xrootd_monitoring_shovel.Queue.Disk.{MessageStruct, Dque, Works}
use xrootd_monitoring_shovel.Queue.{
  Outcome, got, ConfirmationQueue, init, write, write_all, queue_size, read_all,
  enqueue_to_exchange, dequeue_locked,
}
use xrootd_monitoring_shovel.Queue.Spec.{
  contents, IsValid, put, take, fifo_dequeue, Request, putting, taking, run, fifo_run, Runs,
}
use xrootd_monitoring_shovel.Queue.Fifo.{items-write, items-write_all, List-cases, read_all_lem}

module _ (dque : Dque) (works : Works dque) (max_in_memory low_water_mark : ℕ)
    (room : 0 < max_in_memory) (marks : low_water_mark ≤ max_in_memory) where
  open dque use {Q, size, items, size_items, dequeue_items}

  abbrev pub Valid : ConfirmationQueue dque → Type 0
  Valid = IsValid dque max_in_memory low_water_mark

  pub init-IsValid : (q : Q) → Valid (init dque q)
  unfolding init
  init-IsValid q = record {
    on_disk = λ _. refl;
    in_memory = λ e. elim (List-cases dque works q) [
      | inl nothing ↦ nothing
      | inr (m, ms, there) ↦ absurd (ground (arith, e, size_items q, ap length there))
    ];
    bounded = room;
  }

  abbrev pub contents_of : ConfirmationQueue dque → List MessageStruct
  contents_of = contents dque max_in_memory low_water_mark

  abbrev pub queue_of : Q → List MessageStruct → Bool → ConfirmationQueue dque
  queue_of q ms b = record { disk_queue = q; mem_queue = ms; using_disk = b }

  abbrev pub Puts : MessageStruct → ConfirmationQueue dque → Type 0
  Puts m cq =
      let cq' = put dque max_in_memory low_water_mark m cq in
      (contents_of cq' ≡ contents_of cq ++ m ∷ []) × Valid cq'

  spill :
      (m : MessageStruct) (q : Q) (ms : List MessageStruct)
      → items q ≡ []
      → items (write dque m (write_all dque ms q)) ≡ ms ++ m ∷ []
  spill m q ms e = rw (items-write dque works, items-write_all dque works, e)

  -- An enqueue puts its message behind all others, also where it moves them all to disk.
  pub put-Puts :
      (m : MessageStruct) (q : Q) (ms : List MessageStruct) (b : Bool)
      → Valid (queue_of q ms b)
      → Puts m (queue_of q ms b)
  unfolding enqueue_to_exchange
  put-Puts m q ms true v = (
    rw (items-write dque works, append_assoc),
    record { on_disk = v.on_disk; in_memory = λ e. cc; bounded = v.bounded },
  )
  put-Puts m q ms false v = elim (Bool-cases (ltb (length ms + 1) max_in_memory)) [
    | inl small ↦ rw small (
      rw (v.in_memory refl, append-nil, append-nil),
      record {
        on_disk = λ e. cc;
        in_memory = v.in_memory;
        bounded = ground (arith, length-append ms (m ∷ []));
      },
    )
    | inr large ↦
        let le : leb max_in_memory (length ms + 1) ≡ true = ground arith in
        rw (large, le)
          (
            rw (spill m q ms (v.in_memory refl), v.in_memory refl, append-nil),
            record { on_disk = λ _. refl; in_memory = λ e. cc; bounded = room },
          )
  ]

  abbrev pub Takes : ConfirmationQueue dque → Outcome × ConfirmationQueue dque → Type 0
  Takes cq (o, cq') =
      (o ≡ (fifo_dequeue dque max_in_memory low_water_mark (contents_of cq)).0)
      × (contents_of cq' ≡ (fifo_dequeue dque max_in_memory low_water_mark (contents_of cq)).1)
      × Valid cq'

  take_memory :
      (q : Q) (ms : List MessageStruct)
      → Valid (queue_of q ms false)
      → Takes (queue_of q ms false) (take dque max_in_memory low_water_mark (queue_of q ms false))
  unfolding dequeue_locked queue_size
  take_memory q [] v = (rw (v.in_memory refl), rw (v.in_memory refl), v)
  take_memory q (m ∷ ms) v =
      let there : (suc (length ms) == 0) ≡ false = ground arith in
      rw there (
        refl,
        refl,
        record { on_disk = λ e. cc; in_memory = v.in_memory; bounded = omega (arith, v.bounded) },
      )

  take_disk_empty :
      (q : Q)
      → items q ≡ []
      → Valid (queue_of q [] true)
      → Takes (queue_of q [] true) (take dque max_in_memory low_water_mark (queue_of q [] true))
  unfolding dequeue_locked queue_size
  take_disk_empty q e v =
      let nothing : size q ≡ 0 = omega (arith, size_items q, ap length e) in
      rw nothing (rw e, rw e, v)

  dequeue_locked-high :
      (q q' : Q) (m : MessageStruct)
      → 0 < size q
      → low_water_mark ≤ size q - 1
      → dque.dequeue q ≡ some (m, q')
      → take dque max_in_memory low_water_mark (queue_of q [] true) ≡ (got m, queue_of q' [] true)
  unfolding dequeue_locked queue_size
  dequeue_locked-high q q' m there high d = ground arith

  dequeue_locked-low :
      (q q' : Q) (m : MessageStruct) (ms : List MessageStruct)
      → 0 < size q
      → size q - 1 < low_water_mark
      → read_all dque (size q) q [] ≡ some (q', m ∷ ms)
      → take dque max_in_memory low_water_mark (queue_of q [] true) ≡ (got m, queue_of q' ms false)
  unfolding dequeue_locked queue_size
  dequeue_locked-low q q' m ms there low d = ground arith

  take_disk :
      (q : Q) (m : MessageStruct) (ms : List MessageStruct)
      → items q ≡ m ∷ ms
      → Valid (queue_of q [] true)
      → Takes (queue_of q [] true) (take dque max_in_memory low_water_mark (queue_of q [] true))
  take_disk q m ms e v =
      let counted : size q ≡ suc (length ms) = size_items q ∙ ap length e in
      elim (dec_lt (size q - 1) low_water_mark) [
        | no high ↦
            let (q', d) = works.reads q m ms e in
            rw (dequeue_locked-high q q' m (omega arith) (omega arith) d, dequeue_items q q' m d)
              (refl, refl, record { on_disk = λ _. refl; in_memory = λ e. cc; bounded = room })
        | yes low ↦
            let (q', all, nothing) = read_all_lem dque works (size q) q [] (omega arith) in
            rw (dequeue_locked-low q q' m ms (omega arith) low (all ∙ rw e), e)
              (
                refl,
                rw (nothing, append-nil),
                record { on_disk = λ e. cc; in_memory = λ _. nothing; bounded = omega arith },
              )
      ]

  pub take-Takes :
      (q : Q) (ms : List MessageStruct) (b : Bool)
      → Valid (queue_of q ms b)
      → Takes (queue_of q ms b) (take dque max_in_memory low_water_mark (queue_of q ms b))
  take-Takes q ms false v = take_memory q ms v
  take-Takes q [] true v = elim (List-cases dque works q) [
    | inl nothing ↦ take_disk_empty q nothing v
    | inr (m, r, there) ↦ take_disk q m r there v
  ]
  take-Takes q (m ∷ ms) true v = cc (v.on_disk refl)

  abbrev Refined :
      List (Request dque max_in_memory low_water_mark)
      → ConfirmationQueue dque
      → List MessageStruct
      → Type 0
  Refined = Runs dque max_in_memory low_water_mark

  run-Runs :
      (rs : List (Request dque max_in_memory low_water_mark)) (cq : ConfirmationQueue dque)
      (ms : List MessageStruct)
      → contents_of cq ≡ ms
      → Valid cq
      → Refined rs cq ms
  unfolding run fifo_run
  run-Runs [] cq ms e v = (refl, e, v)
  run-Runs (putting m ∷ rs) cq ms e v =
      let (kept, valid) = put-Puts m cq.disk_queue cq.mem_queue cq.using_disk v in
      run-Runs rs (put dque max_in_memory low_water_mark m cq) (ms ++ m ∷ [])
        (kept ∙ ap (λ (l : List MessageStruct). l ++ m ∷ []) e) valid
  run-Runs (taking ∷ rs) cq ms e v =
      let spec = fifo_dequeue dque max_in_memory low_water_mark in
      let (out, kept, valid) = take-Takes cq.disk_queue cq.mem_queue cq.using_disk v in
      let (os, last, valid') =
        run-Runs rs (take dque max_in_memory low_water_mark cq).1 (spec ms).1
          (kept ∙ ap (λ (l : List MessageStruct). (spec l).1) e) valid in
      (
        ap₂ (λ (o : Outcome) (l : List Outcome). o ∷ l)
            (out ∙ ap (λ (l : List MessageStruct). (spec l).0) e) os,
        last,
        valid',
      )

  -- For any enqueues and dequeues, in any order, on a valid queue: the dequeues hand out what one
  -- queue in first-in-first-out order would, wherever messages move between memory and disk; the
  -- messages left are those that it would have left; and the queue stays valid. The disk works, and
  -- `LowWaterMark` is at most `MaxInMemory`, which is positive.
  pub run-fifo_run :
      (rs : List (Request dque max_in_memory low_water_mark)) (cq : ConfirmationQueue dque)
      → IsValid dque max_in_memory low_water_mark cq
      → Runs dque max_in_memory low_water_mark rs cq (contents dque max_in_memory low_water_mark cq)
  run-fifo_run rs cq v = run-Runs rs cq (contents_of cq) refl v
