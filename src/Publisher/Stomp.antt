-- ===== src/Publisher/Stomp.antt =====
-- stomp.go: the session that publishes to a STOMP broker, and the loop of StartStomp. The package
-- go-stomp and the dialling are the network: a list says whether its calls work, in their order, and
-- where the list ends the code is still in the call.
pub mod Delivered
pub mod Returns
use xrootd_monitoring_shovel.Base.{
  ℕ, suc, Bool, true, false, List, [], ◌∷◌, ◌++◌, Option, none, some, Bytes, bytes, has_prefix,
  if◌then◌else◌,
}

-- The part of the StompSession that changes, with the messages that the broker has a receipt for.
pub record StompSession : Type 0 where
  pub topic : Bytes
  pub connections : ℕ
  pub delivered : List (Bytes × Bytes)

-- The answers that are left, or none, and the session.
abbrev pub Called : Type 0
Called = Option (List Bool) × StompSession

unfoldable pub topic_path : Bytes → Bytes
topic_path topic = if has_prefix topic (bytes "/topic/") then topic else bytes "/topic/" ++ topic

-- handleReconnect: an error of Disconnect is logged only, and the loop dials until it succeeds.
unfoldable pub handle_reconnect : List Bool → StompSession → Called
handle_reconnect [] s = (none, s)
handle_reconnect (true ∷ bs) s = (some bs, record s { connections = suc s.connections })
handle_reconnect (false ∷ bs) s = handle_reconnect bs s

-- publish is in Send, or in the handleReconnect behind a failed one.
pub data Sending : Type 0 where
  in_send in_reconnect : Sending

unfoldable pub publish_from : Sending → List Bool → Bytes → StompSession → Called
publish_from phase [] msg s = (none, s)
publish_from in_send (true ∷ bs) msg s =
    (some bs, record s { delivered = s.delivered ++ (s.topic, msg) ∷ [] })
publish_from in_send (false ∷ bs) msg s = publish_from in_reconnect bs msg s
publish_from in_reconnect (true ∷ bs) msg s =
    publish_from in_send bs msg (record s { connections = suc s.connections })
publish_from in_reconnect (false ∷ bs) msg s = publish_from in_reconnect bs msg s

unfoldable pub publish : List Bool → Bytes → StompSession → Called
unfolding publish_from
publish bs msg s = publish_from in_send bs msg s

-- What the select of StartStomp takes: the hourly tick, or a message from the queue.
pub data StompEvent : Type 0 where
  hour : StompEvent
  dequeued : Bytes → StompEvent

unfoldable pub on_stomp : StompEvent → List Bool → StompSession → Called
unfolding handle_reconnect publish
on_stomp hour bs s = handle_reconnect bs s
on_stomp (dequeued msg) bs s = publish bs msg s

-- What is done with the result of a call, which may not have returned.
abbrev pub and_then : Called → (List Bool → StompSession → Called) → Called
and_then (none, s) f = (none, s)
and_then (some bs, s) f = f bs s

-- The loop: the next event is taken when the call has returned.
unfoldable pub stomp_loop : List StompEvent → List Bool → StompSession → Called
unfolding on_stomp
stomp_loop [] bs s = (some bs, s)
stomp_loop (e ∷ es) bs s = and_then (on_stomp e bs s) (stomp_loop es)

-- StartStomp: the first connection, and the loop.
unfoldable pub start_stomp : Bytes → List StompEvent → List Bool → Called
unfolding topic_path handle_reconnect stomp_loop
start_stomp topic es bs =
    and_then
      (handle_reconnect bs (record { topic = topic_path topic; connections = 0; delivered = [] }))
      (stomp_loop es)
