-- ===== src/Queue/Waiting.antt =====
-- queue.go: Dequeue with its wait on emptyCond, as a step relation over any number of goroutines that
-- call it. A step is one hold of the mutex, which Wait gives up and suspends in one; EnqueueToExchange
-- ends in a Broadcast.
use xrootd_monitoring_shovel.Base.{◌≡◌, ◌≢◌, ◌⊎◌, inl, inr, subst, List, [], ◌∷◌, ◌++◌, map}
use xrootd_monitoring_shovel.Queue.Disk.{MessageStruct}
use xrootd_monitoring_shovel.Queue.{got, err_empty}
use xrootd_monitoring_shovel.Queue.Messages.{MessageQueue}

-- A caller of Dequeue: before it has the mutex, anew or behind a wait; in the wait; and with what
-- Dequeue returned.
pub data Consumer : Type 0 where
  calling waiting : Consumer
  served : MessageStruct → Consumer

-- Broadcast
unfoldable pub wake : Consumer → Consumer
wake calling = calling
wake waiting = calling
wake (served m) = served m

abbrev pub InDequeue : Consumer → Type 0
InDequeue c = (c ≡ calling) ⊎ (c ≡ waiting)

abbrev NoneWaiting : List Consumer → Type 0
NoneWaiting [] = Unit
NoneWaiting (c ∷ cs) = (c ≢ waiting) × NoneWaiting cs

wake-ne-waiting : (c : Consumer) → wake c ≢ waiting
unfolding wake
wake-ne-waiting calling e = cc
wake-ne-waiting waiting e = cc
wake-ne-waiting (served m) e = cc

NoneWaiting-wake : (cs : List Consumer) → NoneWaiting (map wake cs)
NoneWaiting-wake [] = tt
NoneWaiting-wake (c ∷ cs) = (wake-ne-waiting c, NoneWaiting-wake cs)

-- One consumer of a list changes.
NoneWaiting-change :
    (before after : List Consumer) (c c' : Consumer)
    → c' ≢ waiting
    → NoneWaiting (before ++ c ∷ after)
    → NoneWaiting (before ++ c' ∷ after)
NoneWaiting-change [] after c c' h n = (h, n.1)
NoneWaiting-change (b ∷ before) after c c' h n = (n.0, NoneWaiting-change before after c c' h n.1)

NoneWaiting-at :
    (before after : List Consumer) (c : Consumer) → NoneWaiting (before ++ c ∷ after) → c ≢ waiting
NoneWaiting-at [] after c n = n.0
NoneWaiting-at (b ∷ before) after c n = NoneWaiting-at before after c n.1

module _ (queue : MessageQueue) where
  open queue use {
    Q, put, take, Valid, messages, put_messages, take_messages, take_first, take_empty,
  }

  pub record Shared : Type 0 where
    pub queued : Q
    pub consumers : List Consumer

  pub data Step : Shared → Shared → Type 0 where
    -- EnqueueToExchange with its Broadcast
    enqueues :
        (s : Shared) (m : MessageStruct)
        → Step s (record { queued = put m s.queued; consumers = map wake s.consumers })
    -- a round of Dequeue
    dequeues :
        (s : Shared) (before after : List Consumer) (m : MessageStruct) (q : Q)
        → s.consumers ≡ before ++ calling ∷ after
        → take s.queued ≡ (got m, q)
        → Step s (record { queued = q; consumers = before ++ served m ∷ after })
    waits :
        (s : Shared) (before after : List Consumer) (q : Q)
        → s.consumers ≡ before ++ calling ∷ after
        → take s.queued ≡ (err_empty, q)
        → Step s (record { queued = q; consumers = before ++ waiting ∷ after })
    -- a goroutine calls Dequeue, for the first time or again
    starts : (s : Shared) → Step s (record s { consumers = calling ∷ s.consumers })
    calls_again :
        (s : Shared) (before after : List Consumer) (m : MessageStruct)
        → s.consumers ≡ before ++ served m ∷ after
        → Step s (record s { consumers = before ++ calling ∷ after })

  pub data Reach (s : Shared) : Shared → Type 0 where
    here : Reach s s
    next : {t u : Shared} → Reach s t → Step t u → Reach s u

  -- Nobody waits while there is a message.
  record IsAwake (s : Shared) : Type 0 where
    is_valid : Valid s.queued
    awake : (messages s.queued ≡ []) ⊎ NoneWaiting s.consumers

  Step-IsAwake : {s t : Shared} → Step s t → IsAwake s → IsAwake t
  Step-IsAwake (enqueues s m) a = record {
    is_valid = (put_messages m s.queued a.is_valid).1;
    awake = inr (NoneWaiting-wake s.consumers);
  }
  Step-IsAwake (dequeues s before after m q e t) a =
      let (kept, valid) = take_messages m s.queued q t a.is_valid in
      record {
        is_valid = valid;
        awake = elim a.awake [
          | inl nothing ↦ absurd (cc (kept, nothing))
          | inr awake ↦ inr (
              NoneWaiting-change before after calling (served m) (λ x. cc)
                (subst NoneWaiting e awake))
        ];
      }
  Step-IsAwake (waits s before after q e t) a =
      let (_, nothing, valid) = take_empty s.queued q t a.is_valid in
      record { is_valid = valid; awake = inl nothing }
  Step-IsAwake (starts s) a = record {
    is_valid = a.is_valid;
    awake = elim a.awake [ inl nothing ↦ inl nothing | inr awake ↦ inr (λ x. cc, awake) ];
  }
  Step-IsAwake (calls_again s before after m e) a = record {
    is_valid = a.is_valid;
    awake = elim a.awake [
      | inl nothing ↦ inl nothing
      | inr awake ↦
          inr (
            NoneWaiting-change before after (served m) calling (λ x. cc)
              (subst NoneWaiting e awake))
    ];
  }

  Reach-IsAwake : {s t : Shared} → Reach s t → IsAwake s → IsAwake t
  Reach-IsAwake here a = a
  Reach-IsAwake (next r st) a = Step-IsAwake st (Reach-IsAwake r a)

  calling_of : (c : Consumer) → InDequeue c → c ≢ waiting → c ≡ calling
  calling_of c (inl e) h = e
  calling_of c (inr e) h = absurd (h e)

  -- On a valid queue with no callers at the start: whatever is enqueued and whoever calls Dequeue, in
  -- whatever order they get the mutex, as soon as there is a message, every goroutine that is in
  -- Dequeue can return the first message in its next hold of the mutex, which leaves the other
  -- messages in the queue.
  pub Reach-serves :
      (q : Q) (s : Shared) (before after : List Consumer) (c : Consumer) (m : MessageStruct)
      (ms : List MessageStruct)
      → Valid q
      → Reach (record { queued = q; consumers = [] }) s
      → s.consumers ≡ before ++ c ∷ after
      → InDequeue c
      → messages s.queued ≡ m ∷ ms
      → (q' : Q) × Step s (record { queued = q'; consumers = before ++ served m ∷ after })
        × (messages q' ≡ ms)
  Reach-serves q s before after c m ms v r e i there =
      let a = Reach-IsAwake r (record { is_valid = v; awake = inr tt }) in
      let none_waits : NoneWaiting s.consumers = elim a.awake [
        | inl nothing ↦ absurd (cc (there, nothing))
        | inr awake ↦ awake
      ] in
      let is_calling =
        calling_of c i (NoneWaiting-at before after c (subst NoneWaiting e none_waits)) in
      let (q', t) = take_first m ms s.queued there a.is_valid in
      let (kept, _) = take_messages m s.queued q' t a.is_valid in
      (q', dequeues s before after m q' (rw is_calling at e) t, cc)
