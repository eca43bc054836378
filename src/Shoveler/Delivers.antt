-- ===== src/Shoveler/Delivers.antt =====
-- From the datagrams of a shoveler to what its pool publishes.
use mathlib.Core.List.{map-append}
use xrootd_monitoring_shovel.Base.{
  ◌≡◌, refl, sym, ap, ◌∙◌, false, List, [], ◌∷◌, ◌++◌, map, append_assoc, append-nil, Option, Bytes,
  bytes, Bool-cases, inl, inr, if◌then◌else◌,
}
use xrootd_monitoring_shovel.Packaging.{UdpAddr, Encoders, package_udp}
use xrootd_monitoring_shovel.Queue.Disk.{MessageStruct}
use xrootd_monitoring_shovel.Queue.Messages.{MessageQueue}
use xrootd_monitoring_shovel.Publisher.{
  PublisherConfig, Fate, published, exchange_for, Pool, start_amqp, Step, enqueues, Reach, here,
  next,
}
use xrootd_monitoring_shovel.Publisher.Order.{unsettled, publication, Reach-publishes}
use xrootd_monitoring_shovel.Shoveler.{
  ShovelerConfig, is_refused, Shoveled, dropped, panicked, enqueued, shovel_udp,
}

-- A packet and its sender.
abbrev pub Datagram : Type 0
Datagram = Bytes × UdpAddr

-- The parts of a list made by a function are made by it of the parts of its argument.
map_parts :
    {A B : Type 0} (f : A → B) (xs : List A) (bs cs : List B)
    → bs ++ cs ≡ map f xs
    → (ys : List A) × (zs : List A) × (ys ++ zs ≡ xs) × (bs ≡ map f ys)
map_parts f xs [] cs e = ([], xs, refl, refl)
map_parts f [] (b ∷ bs) cs e = cc
map_parts f (x ∷ xs) (b ∷ bs) cs e =
    let (ys, zs, whole, made) = map_parts f xs bs cs (cc) in (x ∷ ys, zs, cc, cc)

module _ (Conn : Type 0) (enc : Encoders) (shoveling : ShovelerConfig)
    (destinations : List (Option Conn)) where
  -- The message of a datagram, as Enqueue makes it.
  abbrev pub message_for : Datagram → MessageStruct
  message_for (packet, remote) = record {
    message = package_udp enc packet remote shoveling.version shoveling.mapping;
    exchange = [];
  }

  -- The datagrams that the check lets pass.
  abbrev pub passed : List Datagram → List Datagram
  passed [] = []
  passed ((packet, remote) ∷ ds) =
      let rest = passed ds in
      if is_refused Conn enc shoveling packet then rest else (packet, remote) ∷ rest

  passed-append : (ds es : List Datagram) → passed (ds ++ es) ≡ passed ds ++ passed es
  passed-append [] es = refl
  passed-append ((packet, remote) ∷ ds) es =
      elim (Bool-cases (is_refused Conn enc shoveling packet)) [
        | inl refused ↦ simp (refused, passed-append ds es)
        | inr goes ↦ simp (goes, passed-append ds es)
      ]

  module _ (queue : MessageQueue) (config : PublisherConfig) where
    open queue use {Q, put, messages, Valid}

    -- What a round of the shoveler does to the pool: it enqueues.
    unfoldable pub enqueue_shoveled : Shoveled Conn → Pool queue → Pool queue
    enqueue_shoveled dropped p = p
    enqueue_shoveled panicked p = p
    enqueue_shoveled (enqueued msg writes) p =
        let m : MessageStruct = record { message = msg; exchange = [] } in
        record p { queued = put m p.queued; accepted = p.accepted ++ m ∷ [] }

    abbrev pub shovel : Datagram → Pool queue → Pool queue
    shovel (packet, remote) =
        enqueue_shoveled (shovel_udp Conn enc shoveling destinations packet remote)

    -- A shoveler and its pool, with the datagrams that have arrived: the pool moves by itself, which
    -- enqueues nothing, or the shoveler takes a datagram.
    pub data Shovels (q : Q) : List Datagram → Pool queue → Type 0 where
      starts : Shovels q [] (start_amqp queue config q)
      pool_moves :
          {ds : List Datagram} {p p' : Pool queue}
          → Shovels q ds p
          → Step queue config p p'
          → p'.accepted ≡ p.accepted
          → Shovels q ds p'
      takes :
          {ds ds' : List Datagram} {p p' : Pool queue} (d : Datagram)
          → Shovels q ds p
          → ds' ≡ ds ++ d ∷ []
          → p' ≡ shovel d p
          → Shovels q ds' p'

    shovel-accepted :
        (d : Datagram) (p : Pool queue)
        → (shovel d p).accepted ≡ p.accepted ++ map message_for (passed (d ∷ []))
    unfolding shovel_udp enqueue_shoveled
    shovel-accepted (packet, remote) p = elim (Bool-cases (is_refused Conn enc shoveling packet)) [
      | inl refused ↦ simp (refused, append-nil)
      | inr goes ↦ simp goes
    ]

    Shovels-accepted :
        {q : Q} {ds : List Datagram} {p : Pool queue}
        → Shovels q ds p
        → p.accepted ≡ messages q ++ map message_for (passed ds)
    unfolding start_amqp
    Shovels-accepted {q} starts = sym (append-nil (messages q))
    Shovels-accepted (pool_moves s t same) = same ∙ Shovels-accepted s
    Shovels-accepted {q} (takes {ds} {p} d s e f) =
        rw (e, f)
          (shovel-accepted d p
            ∙ ap (λ (l : List MessageStruct). l ++ map message_for (passed (d ∷ [])))
                (Shovels-accepted s)
            ∙ simp (append_assoc, passed-append, map-append))

    Reach-shovel :
        (q : Q) (d : Datagram) (p : Pool queue)
        → Reach queue config (start_amqp queue config q) p
        → Reach queue config (start_amqp queue config q) (shovel d p)
    unfolding shovel_udp enqueue_shoveled
    Reach-shovel q (packet, remote) p r = elim (Bool-cases (is_refused Conn enc shoveling packet)) [
      | inl refused ↦ simp refused r
      | inr goes ↦ simp goes (next r (enqueues p (message_for (packet, remote))))
    ]

    Shovels-Reach :
        {q : Q} {ds : List Datagram} {p : Pool queue}
        → Shovels q ds p
        → Reach queue config (start_amqp queue config q) p
    Shovels-Reach starts = here
    Shovels-Reach (pool_moves s t same) = next (Shovels-Reach s) t
    Shovels-Reach {q} (takes {p} d s e f) = rw f (Reach-shovel q d p (Shovels-Reach s))

    publications_default :
        (ds : List Datagram)
        → map (publication queue config) (map message_for ds)
          ≡ map (λ (d : Datagram). published config.amqp_exchange (message_for d)) ds
    unfolding exchange_for
    publications_default [] = refl
    publications_default (d ∷ ds) =
        ap (λ (l : List Fate). published config.amqp_exchange (message_for d) ∷ l)
          (publications_default ds)

    -- A shoveler in shoveler mode on an empty queue, until its token file changes for the first time:
    -- what its pool has published are the first of the datagrams that have arrived and passed the
    -- check, in the order of their arrival, each packaged with its sender and sent to the configured
    -- exchange, whatever the broker and the threads do.
    pub Shovels-publishes :
        (q : Q) (ds : List Datagram) (p : Pool queue)
        → config.mode ≡ bytes "shoveler"
        → Valid q
        → messages q ≡ []
        → Shovels q ds p
        → p.generation ≡ 0
        → p.cancelled ≡ false
        → (first : List Datagram) × (rest : List Datagram) × (p.fates
            ≡ map (λ (d : Datagram). published config.amqp_exchange (message_for d)) first)
          × (first ++ rest ≡ passed ds)
    Shovels-publishes q ds p mode v nothing s g c =
        let (done, settled, kept) = Reach-publishes queue config q p mode v (Shovels-Reach s) g c in
        let all : p.accepted ≡ map message_for (passed ds) = rw nothing at (Shovels-accepted s) in
        let (first, rest, whole, made) =
          map_parts message_for (passed ds) done (unsettled queue config p) (kept ∙ all) in
        (
          first,
          rest,
          settled ∙ ap (map (publication queue config)) made ∙ publications_default first,
          whole,
        )
