-- ===== src/Queue/Messages.antt =====
-- What a client of queue.go relies on, as an interface that the confirmation queue fills.
use xrootd_monitoring_shovel.Base.{ℕ, ◌≤◌, ◌<◌, ◌≡◌, refl, ap, ◌∙◌, sym, subst, List, [], ◌∷◌, ◌++◌}
use xrootd_monitoring_shovel.Queue.Disk.{MessageStruct, Dque, Works}
use xrootd_monitoring_shovel.Queue.{Outcome, got, err_empty, ConfirmationQueue}
use xrootd_monitoring_shovel.Queue.Spec.{contents, IsValid, put, take, fifo_dequeue}
use xrootd_monitoring_shovel.Queue.Refines.{put-Puts, take-Takes}

-- A queue of messages in order. `take` is a Dequeue that has got the mutex.
pub record MessageQueue : Type 1 where
  pub Q : Type 0
  pub put : MessageStruct → Q → Q
  pub take : Q → Outcome × Q
  pub Valid : Q → Type 0
  pub messages : Q → List MessageStruct
  pub put_messages :
      (m : MessageStruct) (q : Q)
      → Valid q
      → (messages (put m q) ≡ messages q ++ m ∷ []) × Valid (put m q)
  pub take_messages :
      (m : MessageStruct) (q q' : Q)
      → take q ≡ (got m, q')
      → Valid q
      → (messages q ≡ m ∷ messages q') × Valid q'
  pub take_first :
      (m : MessageStruct) (ms : List MessageStruct) (q : Q)
      → messages q ≡ m ∷ ms
      → Valid q
      → (q' : Q) × (take q ≡ (got m, q'))
  pub take_empty :
      (q q' : Q)
      → take q ≡ (err_empty, q')
      → Valid q
      → (messages q ≡ []) × (messages q' ≡ []) × Valid q'

module _ (dque : Dque) (works : Works dque) (max_in_memory low_water_mark : ℕ)
    (room : 0 < max_in_memory) (marks : low_water_mark ≤ max_in_memory) where
  first_of :
      (m : MessageStruct) (ms ms' : List MessageStruct)
      → got m ≡ (fifo_dequeue dque max_in_memory low_water_mark ms).0
      → ms' ≡ (fifo_dequeue dque max_in_memory low_water_mark ms).1
      → ms ≡ m ∷ ms'
  first_of m [] ms' e r = cc
  first_of m (x ∷ xs) ms' e r = cc

  pub confirmation-take :
      (m : MessageStruct) (cq cq' : ConfirmationQueue dque)
      → take dque max_in_memory low_water_mark cq ≡ (got m, cq')
      → IsValid dque max_in_memory low_water_mark cq
      → (contents dque max_in_memory low_water_mark cq
          ≡ m ∷ contents dque max_in_memory low_water_mark cq')
        × IsValid dque max_in_memory low_water_mark cq'
  confirmation-take m cq cq' e v =
      let (out, kept, valid) =
        take-Takes dque works max_in_memory low_water_mark room marks cq.disk_queue cq.mem_queue
          cq.using_disk v in
      (
        first_of m (contents dque max_in_memory low_water_mark cq)
            (contents dque max_in_memory low_water_mark cq')
            (ap (λ (t : Outcome × ConfirmationQueue dque). t.0) (sym e) ∙ out)
            (ap
                (λ (t : Outcome × ConfirmationQueue dque).
                  contents dque max_in_memory low_water_mark t.1)
                (sym e)
              ∙ kept),
        subst
            (λ (t : Outcome × ConfirmationQueue dque).
              IsValid dque max_in_memory low_water_mark t.1)
            e valid,
      )

  abbrev Conf : Type 0
  Conf = ConfirmationQueue dque

  abbrev held : Conf → List MessageStruct
  held = contents dque max_in_memory low_water_mark

  abbrev taken : Conf → Outcome × Conf
  taken = take dque max_in_memory low_water_mark

  confirmation-taken :
      (cq : Conf)
      → IsValid dque max_in_memory low_water_mark cq
      → ((taken cq).0 ≡ (fifo_dequeue dque max_in_memory low_water_mark (held cq)).0)
        × (held (taken cq).1 ≡ (fifo_dequeue dque max_in_memory low_water_mark (held cq)).1)
        × IsValid dque max_in_memory low_water_mark (taken cq).1
  confirmation-taken cq v =
      take-Takes dque works max_in_memory low_water_mark room marks cq.disk_queue cq.mem_queue
        cq.using_disk v

  pub confirmation-first :
      (m : MessageStruct) (ms : List MessageStruct) (cq : Conf)
      → held cq ≡ m ∷ ms
      → IsValid dque max_in_memory low_water_mark cq
      → (cq' : Conf) × (taken cq ≡ (got m, cq'))
  confirmation-first m ms cq e v =
      let (out, _, _) = confirmation-taken cq v in
      (
        (taken cq).1,
        ap (λ (o : Outcome). (o, (taken cq).1))
            (out
              ∙ ap
                  (λ (l : List MessageStruct). (fifo_dequeue dque max_in_memory low_water_mark l).0)
                  e),
      )

  empty_of :
      (ms : List MessageStruct)
      → err_empty ≡ (fifo_dequeue dque max_in_memory low_water_mark ms).0
      → ms ≡ []
  empty_of [] e = refl
  empty_of (m ∷ ms) e = cc

  pub confirmation-empty :
      (cq cq' : Conf)
      → taken cq ≡ (err_empty, cq')
      → IsValid dque max_in_memory low_water_mark cq
      → (held cq ≡ []) × (held cq' ≡ []) × IsValid dque max_in_memory low_water_mark cq'
  confirmation-empty cq cq' e v =
      let (out, kept, valid) = confirmation-taken cq v in
      let nothing : held cq ≡ [] =
        empty_of (held cq) (ap (λ (t : Outcome × Conf). t.0) (sym e) ∙ out) in
      (
        nothing,
        ap (λ (t : Outcome × Conf). held t.1) (sym e)
            ∙ kept
            ∙ ap (λ (l : List MessageStruct). (fifo_dequeue dque max_in_memory low_water_mark l).1)
                nothing,
        subst (λ (t : Outcome × Conf). IsValid dque max_in_memory low_water_mark t.1) e valid,
      )

  -- The confirmation queue on a disk that works.
  abbrev pub confirmation_messages : MessageQueue
  confirmation_messages = record {
    Q = ConfirmationQueue dque;
    put = put dque max_in_memory low_water_mark;
    take = take dque max_in_memory low_water_mark;
    Valid = IsValid dque max_in_memory low_water_mark;
    messages = contents dque max_in_memory low_water_mark;
    put_messages = λ m cq v.
        put-Puts dque works max_in_memory low_water_mark room marks m cq.disk_queue cq.mem_queue
          cq.using_disk v;
    take_messages = confirmation-take;
    take_first = confirmation-first;
    take_empty = confirmation-empty;
  }
