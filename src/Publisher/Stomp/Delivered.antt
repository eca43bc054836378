-- ===== src/Publisher/Stomp/Delivered.antt =====
-- What a STOMP broker has received.
use mathlib.Core.List.{map-append}
use xrootd_monitoring_shovel.Base.{
  suc, ◌≡◌, refl, sym, ap, ◌∙◌, subst, Bool, true, false, List, [], ◌∷◌, ◌++◌, map, append_assoc,
  append-nil, none, some, Bytes,
}
use xrootd_monitoring_shovel.Publisher.Stomp.{
  StompSession, Called, topic_path, handle_reconnect, Sending, in_send, in_reconnect, publish_from,
  publish, StompEvent, hour, dequeued, on_stomp, and_then, stomp_loop, start_stomp,
}

abbrev pub messages : List StompEvent → List Bytes
messages [] = []
messages (hour ∷ es) = messages es
messages (dequeued msg ∷ es) = msg ∷ messages es

-- What a call adds: it has delivered the first of these messages, and all if it has returned.
pub record Delivers (topic : Bytes) (ms : List Bytes) (before : List (Bytes × Bytes)) (c : Called)
    : Type 0 where
  pub first : List Bytes
  pub rest : List Bytes
  pub whole : first ++ rest ≡ ms
  pub all : (bs : List Bool) → c.0 ≡ some bs → rest ≡ []
  pub keeps : c.1.topic ≡ topic
  pub adds : c.1.delivered ≡ before ++ map (λ (m : Bytes). (topic, m)) first

handle_reconnect-Delivers :
    (bs : List Bool) (s : StompSession) → Delivers s.topic [] s.delivered (handle_reconnect bs s)
unfolding handle_reconnect
handle_reconnect-Delivers [] s = record {
  first = [];
  rest = [];
  whole = refl;
  all = λ _ _. refl;
  keeps = refl;
  adds = sym (append-nil s.delivered);
}
handle_reconnect-Delivers (true ∷ bs) s = record {
  first = [];
  rest = [];
  whole = refl;
  all = λ _ _. refl;
  keeps = refl;
  adds = sym (append-nil s.delivered);
}
handle_reconnect-Delivers (false ∷ bs) s = handle_reconnect-Delivers bs s

publish_from-Delivers :
    (phase : Sending) (bs : List Bool) (msg : Bytes) (s : StompSession)
    → Delivers s.topic (msg ∷ []) s.delivered (publish_from phase bs msg s)
unfolding publish_from
publish_from-Delivers in_send [] msg s = record {
  first = [];
  rest = msg ∷ [];
  whole = refl;
  all = λ bs e. cc;
  keeps = refl;
  adds = sym (append-nil s.delivered);
}
publish_from-Delivers in_reconnect [] msg s = record {
  first = [];
  rest = msg ∷ [];
  whole = refl;
  all = λ bs e. cc;
  keeps = refl;
  adds = sym (append-nil s.delivered);
}
publish_from-Delivers in_send (true ∷ bs) msg s = record {
  first = msg ∷ [];
  rest = [];
  whole = refl;
  all = λ _ _. refl;
  keeps = refl;
  adds = refl;
}
publish_from-Delivers in_send (false ∷ bs) msg s = publish_from-Delivers in_reconnect bs msg s
publish_from-Delivers in_reconnect (true ∷ bs) msg s =
    publish_from-Delivers in_send bs msg (record s { connections = suc s.connections })
publish_from-Delivers in_reconnect (false ∷ bs) msg s = publish_from-Delivers in_reconnect bs msg s

-- One call, and then others.
and_then-Delivers :
    (topic : Bytes) (ms ns : List Bytes) (before : List (Bytes × Bytes)) (c : Called)
    (f : List Bool → StompSession → Called)
    → Delivers topic ms before c
    → ((bs : List Bool) (s : StompSession)
        → s.topic ≡ topic
        → Delivers topic ns s.delivered (f bs s))
    → Delivers topic (ms ++ ns) before (and_then c f)
and_then-Delivers topic ms ns before (none, s) f d next = record {
  first = d.first;
  rest = d.rest ++ ns;
  whole = sym (append_assoc d.first d.rest ns) ∙ ap (λ l. l ++ ns) d.whole;
  all = λ bs e. cc;
  keeps = d.keeps;
  adds = d.adds;
}
and_then-Delivers topic ms ns before (some bs, s) f d next =
    let n = next bs s d.keeps in
    let whole_first : d.first ≡ ms =
      sym (append-nil d.first)
      ∙ ap (λ (l : List Bytes). d.first ++ l) (sym (d.all bs refl))
      ∙ d.whole in
    record {
      first = ms ++ n.first;
      rest = n.rest;
      whole = append_assoc ms n.first n.rest ∙ ap (λ (l : List Bytes). ms ++ l) n.whole;
      all = n.all;
      keeps = n.keeps;
      adds =
          n.adds
          ∙ ap (λ (l : List (Bytes × Bytes)). l ++ map (λ (m : Bytes). (topic, m)) n.first)
              (d.adds
                ∙ ap (λ (l : List Bytes). before ++ map (λ (m : Bytes). (topic, m)) l) whole_first)
          ∙ simp (append_assoc, map-append);
    }

on_stomp-Delivers :
    (e : StompEvent) (bs : List Bool) (s : StompSession)
    → Delivers s.topic (messages (e ∷ [])) s.delivered (on_stomp e bs s)
unfolding on_stomp publish
on_stomp-Delivers hour bs s = handle_reconnect-Delivers bs s
on_stomp-Delivers (dequeued msg) bs s = publish_from-Delivers in_send bs msg s

messages-cons :
    (e : StompEvent) (es : List StompEvent) → messages (e ∷ []) ++ messages es ≡ messages (e ∷ es)
messages-cons hour es = refl
messages-cons (dequeued msg) es = refl

stomp_loop-Delivers :
    (es : List StompEvent) (bs : List Bool) (s : StompSession)
    → Delivers s.topic (messages es) s.delivered (stomp_loop es bs s)
unfolding stomp_loop
stomp_loop-Delivers [] bs s = record {
  first = [];
  rest = [];
  whole = refl;
  all = λ _ _. refl;
  keeps = refl;
  adds = sym (append-nil s.delivered);
}
stomp_loop-Delivers (e ∷ es) bs s =
    subst
      (λ (ms : List Bytes).
        Delivers s.topic ms s.delivered (and_then (on_stomp e bs s) (stomp_loop es)))
      (messages-cons e es)
      (and_then-Delivers s.topic (messages (e ∷ [])) (messages es) s.delivered (on_stomp e bs s)
        (stomp_loop es) (on_stomp-Delivers e bs s)
        (λ bs' s' same.
          subst (λ (t : Bytes). Delivers t (messages es) s'.delivered (stomp_loop es bs' s')) same
            (stomp_loop-Delivers es bs' s')))

-- All that start_stomp does.
pub start_stomp-Delivers :
    (topic : Bytes) (es : List StompEvent) (bs : List Bool)
    → Delivers (topic_path topic) (messages es) [] (start_stomp topic es bs)
unfolding start_stomp
start_stomp-Delivers topic es bs =
    let fresh : StompSession = record {
      topic = topic_path topic;
      connections = 0;
      delivered = [];
    } in
    and_then-Delivers (topic_path topic) [] (messages es) [] (handle_reconnect bs fresh)
      (stomp_loop es) (handle_reconnect-Delivers bs fresh)
      (λ bs' s' same.
        subst (λ (t : Bytes). Delivers t (messages es) s'.delivered (stomp_loop es bs' s')) same
          (stomp_loop-Delivers es bs' s'))

-- However often the network fails and the hourly reconnection comes between: the broker has receipts
-- for the first of the messages from the queue, in their order and each once, on the configured topic
-- with its prefix.
pub start_stomp-delivered :
    (topic : Bytes) (es : List StompEvent) (bs : List Bool)
    → (first : List Bytes) × (rest : List Bytes) × (first ++ rest ≡ messages es)
      × ((start_stomp topic es bs).1.delivered ≡ map (λ (m : Bytes). (topic_path topic, m)) first)
start_stomp-delivered topic es bs =
    let d = start_stomp-Delivers topic es bs in (d.first, d.rest, d.whole, d.adds)
