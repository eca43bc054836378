-- ===== src/Publisher/Order.antt =====
-- In which order a pool with one worker settles the messages of the queue.
use xrootd_monitoring_shovel.Base.{
  ℕ, zero, suc, ◌≤◌, ◌≡◌, refl, ap, subst, Bool, false, List, [], ◌∷◌, ◌++◌, map, append_assoc,
  append-nil, length, length-append, bytes, eqb, arith,
}
use mathlib.Core.Path.{ap₂}
use mathlib.Core.List.{map-append}
use xrootd_monitoring_shovel.Queue.Disk.{MessageStruct}
use xrootd_monitoring_shovel.Queue.Messages.{MessageQueue}
use xrootd_monitoring_shovel.Publisher.{
  PublisherConfig, Feeder, checking, dequeuing, returned, dequeued, sending, gave_up, Worker,
  receiving, ended, attempting, pushing, backing_off, Fate, published, given_up, worker_count,
  exchange_for, new_workers, AllEnded, Pool, start_amqp, Attempt, check_on, check_off, push_works,
  push_fails, wait_off, wait_on, stop_worker, Step, enqueues, check_done, check_default, dequeues,
  enters_select, sends, send_done, receives, works, token_changes, restarts, watcher_done,
  stop_cancels, stop_joins, stop_closes, Reach, here, next,
}

abbrev pub message_of : Fate → MessageStruct
message_of (published exchange m) = m
message_of (given_up m) = m

-- What a worker, and what the feeder, has in hand.
abbrev pub in_hand : Worker → List MessageStruct
in_hand receiving = []
in_hand ended = []
in_hand (attempting m) = m ∷ []
in_hand (pushing m) = m ∷ []
in_hand (backing_off m) = m ∷ []

abbrev pub in_hands : List Worker → List MessageStruct
in_hands [] = []
in_hands (w ∷ ws) = in_hand w ++ in_hands ws

abbrev pub fed : Feeder → List MessageStruct
fed checking = []
fed dequeuing = []
fed returned = []
fed (dequeued m) = m ∷ []
fed (sending m g) = m ∷ []
fed (gave_up m) = m ∷ []

alone :
    (before after : List Worker) (w : Worker)
    → length (before ++ w ∷ after) ≤ 1
    → (before ≡ []) × (after ≡ [])
alone [] [] w h = (refl, refl)
alone [] (x ∷ after) w h = absurd (omega arith)
alone (x ∷ before) after w h = absurd (omega (arith, length-append before (w ∷ after)))

pub in_hands-new_workers : (n : ℕ) → in_hands (new_workers n) ≡ []
unfolding new_workers
in_hands-new_workers zero = refl
in_hands-new_workers (suc n) = in_hands-new_workers n

length-new_workers : (n : ℕ) → length (new_workers n) ≡ n
unfolding new_workers
length-new_workers zero = refl
length-new_workers (suc n) = ap suc (length-new_workers n)

pub in_hands-AllEnded : (ws : List Worker) → AllEnded ws → in_hands ws ≡ []
in_hands-AllEnded [] e = refl
in_hands-AllEnded (w ∷ ws) e = rw (e.0) (in_hands-AllEnded ws e.1)

settles :
    (fs gs : List Fate) (held held' rest accepted : List MessageStruct)
    → held ≡ map message_of gs ++ held'
    → map message_of fs ++ ((held ++ []) ++ rest) ≡ accepted
    → map message_of (fs ++ gs) ++ ((held' ++ []) ++ rest) ≡ accepted
settles fs gs held held' rest accepted e o =
    simp (map-append, append_assoc, append-nil) (rw (e, append-nil, append_assoc) at o)

module _ (queue : MessageQueue) (config : PublisherConfig) where
  open queue use {Q, Valid, messages, put_messages, take_messages}

  -- What is put in and not yet settled, the next first.
  abbrev pub unsettled : Pool queue → List MessageStruct
  unsettled p = in_hands p.workers ++ (p.channel ++ (fed p.feeder ++ messages p.queued))

  pub in_hand-Attempt :
      {b : Bool} {w w' : Worker} {fs : List Fate}
      → Attempt queue config b w w' fs
      → in_hand w ≡ map message_of fs ++ in_hand w'
  in_hand-Attempt (check_on m) = refl
  in_hand-Attempt (check_off m) = refl
  in_hand-Attempt (push_works m) = refl
  in_hand-Attempt (push_fails m) = refl
  in_hand-Attempt (wait_off m) = refl
  in_hand-Attempt (wait_on m) = refl
  in_hand-Attempt stop_worker = refl

  pub record InOrder (p : Pool queue) : Type 0 where
    pub few : length p.workers ≤ 1
    pub is_valid : Valid p.queued
    pub ordered : map message_of p.fates ++ unsettled p ≡ p.accepted

  -- What a step does to the list, from what it does to the parts that it touches.
  split_few :
      (p : Pool queue) (before after : List Worker) (w : Worker)
      → InOrder p
      → p.workers ≡ before ++ w ∷ after
      → (before ≡ []) × (after ≡ [])
  split_few p before after w inv e =
      alone before after w (subst (λ (ws : List Worker). length ws ≤ 1) e inv.few)

  Step-InOrder :
      {p q : Pool queue} → worker_count config ≤ 1 → Step queue config p q → InOrder p → InOrder q
  Step-InOrder one (enqueues p m) inv =
      let (kept, valid) = put_messages m p.queued inv.is_valid in
      record {
        few = inv.few;
        is_valid = valid;
        ordered = rw kept (rw (← inv.ordered) (simp append_assoc));
      }
  Step-InOrder one (check_done p e c) inv = record {
    few = inv.few;
    is_valid = inv.is_valid;
    ordered = rw e at (inv.ordered);
  }
  Step-InOrder one (check_default p e c) inv = record {
    few = inv.few;
    is_valid = inv.is_valid;
    ordered = rw e at (inv.ordered);
  }
  Step-InOrder one (dequeues p m q e t) inv =
      let (kept, valid) = take_messages m p.queued q t inv.is_valid in
      record { few = inv.few; is_valid = valid; ordered = rw (e, kept) at (inv.ordered) }
  Step-InOrder one (enters_select p m e) inv = record {
    few = inv.few;
    is_valid = inv.is_valid;
    ordered = rw e at (inv.ordered);
  }
  Step-InOrder one (sends p m g e room open_) inv = record {
    few = inv.few;
    is_valid = inv.is_valid;
    ordered = rw (append_assoc) (rw e at (inv.ordered));
  }
  Step-InOrder one (send_done p m g e d) inv = record {
    few = inv.few;
    is_valid = inv.is_valid;
    ordered = rw e at (inv.ordered);
  }
  Step-InOrder one (receives p before after m ms e c) inv =
      let (b, a) = split_few p before after receiving inv e in
      rw (b, a)
        (record {
          few = omega arith;
          is_valid = inv.is_valid;
          ordered = rw (e, b, a, c) at (inv.ordered);
        })
  Step-InOrder one (works p before after w w' fs e t) inv =
      let (b, a) = split_few p before after w inv e in
      rw (b, a)
        (record {
          few = omega arith;
          is_valid = inv.is_valid;
          ordered =
              settles p.fates fs (in_hand w) (in_hand w')
                (p.channel ++ (fed p.feeder ++ messages p.queued)) p.accepted (in_hand-Attempt t)
                (rw (e, b, a) at (inv.ordered));
        })
  Step-InOrder one (token_changes p e) inv = record {
    few = inv.few;
    is_valid = inv.is_valid;
    ordered = inv.ordered;
  }
  Step-InOrder one (restarts p e ends) inv = record {
    few = rw length-new_workers one;
    is_valid = inv.is_valid;
    ordered = rw in_hands-new_workers (rw (in_hands-AllEnded p.workers ends) at (inv.ordered));
  }
  Step-InOrder one (watcher_done p e c) inv = record {
    few = inv.few;
    is_valid = inv.is_valid;
    ordered = inv.ordered;
  }
  Step-InOrder one (stop_cancels p e d) inv = record {
    few = inv.few;
    is_valid = inv.is_valid;
    ordered = inv.ordered;
  }
  Step-InOrder one (stop_joins p g e d) inv = record {
    few = inv.few;
    is_valid = inv.is_valid;
    ordered = inv.ordered;
  }
  Step-InOrder one (stop_closes p e f) inv = record {
    few = inv.few;
    is_valid = inv.is_valid;
    ordered = inv.ordered;
  }

  Reach-InOrder :
      {p q : Pool queue} → worker_count config ≤ 1 → Reach queue config p q → InOrder p → InOrder q
  Reach-InOrder one here inv = inv
  Reach-InOrder one (next r s) inv = Step-InOrder one s (Reach-InOrder one r inv)

  start_amqp-InOrder :
      (q : Q) → worker_count config ≤ 1 → Valid q → InOrder (start_amqp queue config q)
  unfolding start_amqp
  start_amqp-InOrder q one v = record {
    few = rw length-new_workers one;
    is_valid = v;
    ordered = rw in_hands-new_workers refl;
  }

  one_worker : config.mode ≡ bytes "shoveler" → worker_count config ≤ 1
  unfolding worker_count eqb
  one_worker e = rw e (omega arith)

  -- In shoveler mode, whatever the goroutines, the broker and the token file do: the messages that
  -- the queue had at the start and those put into it are, in that order, those settled, the one that
  -- the worker has, those in the channel, the one that the feeder has, and those still in the queue.
  -- The queue was valid at the start.
  pub Reach-ordered :
      (q : Q) (p : Pool queue)
      → config.mode ≡ bytes "shoveler"
      → Valid q
      → Reach queue config (start_amqp queue config q) p
      → map message_of p.fates ++ unsettled p ≡ p.accepted
  Reach-ordered q p e v r =
      (Reach-InOrder (one_worker e) r (start_amqp-InOrder q (one_worker e) v)).ordered

  abbrev pub publication : MessageStruct → Fate
  publication m = published (exchange_for config m) m

  abbrev AllPublished : List Fate → Type 0
  AllPublished fs = fs ≡ map publication (map message_of fs)

  Attempt-AllPublished :
      {b : Bool} {w w' : Worker} {fs : List Fate}
      → Attempt queue config b w w' fs
      → b ≡ false
      → AllPublished fs
  Attempt-AllPublished (check_on m) e = refl
  Attempt-AllPublished (check_off m) e = cc
  Attempt-AllPublished (push_works m) e = refl
  Attempt-AllPublished (push_fails m) e = refl
  Attempt-AllPublished (wait_off m) e = cc
  Attempt-AllPublished (wait_on m) e = refl
  Attempt-AllPublished stop_worker e = refl

  -- What holds while the first context is not cancelled.
  abbrev Uncancelled : Pool queue → Type 0
  Uncancelled p = p.generation ≡ 0 → p.cancelled ≡ false → AllPublished p.fates

  Step-Uncancelled : {p q : Pool queue} → Step queue config p q → Uncancelled p → Uncancelled q
  Step-Uncancelled (works p before after w w' fs e t) u = λ g c.
      rw (map-append, map-append)
        (ap₂ (λ (a b : List Fate). a ++ b) (u g c) (Attempt-AllPublished t c))
  Step-Uncancelled (token_changes p e) u = λ g c. cc
  Step-Uncancelled (restarts p e ends) u = λ g c. absurd (omega (arith, g))
  Step-Uncancelled (stop_cancels p e d) u = λ g c. cc
  Step-Uncancelled (enqueues p m) u = u
  Step-Uncancelled (check_done p e c) u = u
  Step-Uncancelled (check_default p e c) u = u
  Step-Uncancelled (dequeues p m q e t) u = u
  Step-Uncancelled (enters_select p m e) u = u
  Step-Uncancelled (sends p m g e room open_) u = u
  Step-Uncancelled (send_done p m g e d) u = u
  Step-Uncancelled (receives p before after m ms e c) u = u
  Step-Uncancelled (watcher_done p e c) u = u
  Step-Uncancelled (stop_joins p g e d) u = u
  Step-Uncancelled (stop_closes p e f) u = u

  Reach-Uncancelled : {p q : Pool queue} → Reach queue config p q → Uncancelled p → Uncancelled q
  Reach-Uncancelled here u = u
  Reach-Uncancelled (next r s) u = Step-Uncancelled s (Reach-Uncancelled r u)

  -- In shoveler mode, until the token file changes for the first time: what the pool has published
  -- are the first of the messages, in their order, each to its own exchange, or to the configured
  -- one if it names none; the rest is on its way, in order. Nothing is given up, whatever Pushes fail.
  pub Reach-publishes :
      (q : Q) (p : Pool queue)
      → config.mode ≡ bytes "shoveler"
      → Valid q
      → Reach queue config (start_amqp queue config q) p
      → p.generation ≡ 0
      → p.cancelled ≡ false
      → (done : List MessageStruct) × (p.fates ≡ map publication done)
        × (done ++ unsettled p ≡ p.accepted)
  unfolding start_amqp
  Reach-publishes q p e v r g c =
      (map message_of p.fates, Reach-Uncancelled r (λ _ _. refl) g c, Reach-ordered q p e v r)
