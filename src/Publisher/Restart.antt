-- ===== src/Publisher/Restart.antt =====
-- What a change of the token file can do to the pool.
use mathlib.Core.Bool.{or-true}
use xrootd_monitoring_shovel.Base.{
  ℕ, suc, ◌≡◌, refl, ◌∙◌, inl, true, false, List, [], ◌∷◌, ◌++◌, append_assoc, append-nil,
}
use xrootd_monitoring_shovel.Queue.Messages.{MessageQueue}
use xrootd_monitoring_shovel.Publisher.{
  PublisherConfig, checking, returned, Worker, receiving, ended, Fate, worker_count, new_workers,
  AllEnded, awaiting, joining, awaiting_feeder, stopped, watching, restarting, Pool, stop_worker,
  Step, check_done, works, token_changes, restarts, stop_cancels, stop_joins, stop_closes, Reach,
  here, next, Panics,
}

abbrev pub AllReceiving : List Worker → Type 0
AllReceiving [] = Unit
AllReceiving (w ∷ ws) = (w ≡ receiving) × AllReceiving ws

AllEnded-append : (ws : List Worker) → AllEnded ws → AllEnded (ws ++ ended ∷ [])
AllEnded-append [] e = (refl, tt)
AllEnded-append (w ∷ ws) e = (e.0, AllEnded-append ws e.1)

module _ (queue : MessageQueue) (config : PublisherConfig) where
  Reach-first :
      {p q r : Pool queue} → Step queue config p q → Reach queue config q r → Reach queue config p r
  Reach-first s here = next here s
  Reach-first s (next r t) = next (Reach-first s r) t

  Reach-trans :
      {p q r : Pool queue}
      → Reach queue config p q
      → Reach queue config q r
      → Reach queue config p r
  Reach-trans r here = r
  Reach-trans r (next s t) = next (Reach-trans r s) t

  -- All workers can end when the context is cancelled.
  Reach-AllEnded :
      (before after : List Worker) (p : Pool queue)
      → p.workers ≡ before ++ after
      → AllEnded before
      → AllReceiving after
      → p.cancelled ≡ true
      → (ws : List Worker) × (fs : List Fate) × Reach queue config p
          (record p { workers = ws; fates = fs })
        × AllEnded ws
  Reach-AllEnded before [] p e b a c = (p.workers, p.fates, here, rw (e ∙ append-nil before) b)
  Reach-AllEnded before (w ∷ after) p e b a c =
      let (ws, fs, r, ends) =
        Reach-AllEnded (before ++ ended ∷ []) after
          (record p { workers = before ++ ended ∷ after; fates = p.fates ++ [] })
          (rw append_assoc refl) (AllEnded-append before b) a.1 c in
      (
        ws,
        fs,
        Reach-first (works p before after receiving ended [] (rw (← a.0) e) (rw c stop_worker)) r,
        ends,
      )

  -- From an idle pool whose context has not been cancelled before, with workers to start, the
  -- goroutines can come to a state in which Restart has started the workers of the next context,
  -- StartAMQP has stopped the pool, and a worker receives nil from the closed channel, which panics.
  pub token_changes-Panics :
      (n : ℕ) (p : Pool queue)
      → worker_count config ≡ suc n
      → p.main ≡ awaiting
      → p.watcher ≡ watching
      → p.feeder ≡ checking
      → p.channel ≡ []
      → AllReceiving p.workers
      → (q : Pool queue) × Reach queue config p q
        × (q.generation ≡ suc p.generation)
        × (q.main ≡ stopped)
        × Panics queue config q
  unfolding new_workers
  token_changes-Panics n p count waits watches checks drained idle =
      let p1 : Pool queue = record p { watcher = restarting; cancelled = true } in
      let p2 : Pool queue = record p1 { feeder = returned } in
      let r2 : Reach queue config p p2 =
        next (next here (token_changes p watches)) (check_done p1 checks refl) in
      let (ws, fs, r, ends) = Reach-AllEnded [] p.workers p2 refl tt idle refl in
      let p3 : Pool queue = record p2 { workers = ws; fates = fs } in
      let p4 : Pool queue = record p3 { main = joining p.generation; cancelled = true } in
      let p5 : Pool queue = record p4 { main = awaiting_feeder } in
      let p6 : Pool queue = record p5 { main = stopped; channel_closed = true } in
      let rest : Reach queue config p3 p6 =
        next
          (next (next here (stop_cancels p3 waits (or-true _)))
            (stop_joins p4 p.generation refl (inl ends)))
          (stop_closes p5 refl (inl refl)) in
      (
        record p6 {
          watcher = watching;
          generation = suc p.generation;
          cancelled = false;
          workers = new_workers (worker_count config);
        },
        next (Reach-trans (Reach-trans r2 r) rest) (restarts p6 refl ends),
        refl,
        refl,
        record {
          before = [];
          after = new_workers n;
          receives_nil = rw count refl;
          channel_drained = drained;
          is_closed = refl;
        },
      )
