-- ===== src/Publisher/Session.antt =====
-- amqp.go: the `Session` of a worker. Its goroutine, handleReconnect with handleReInit, makes a step
-- between two waits; the broker, the network and the worker that calls Close are the other events.
-- Of github.com/streadway/amqp the model has that a closed connection opens no channel, and that the
-- notifications come when a connection or a channel is closed.
pub mod Reconnects
use xrootd_monitoring_shovel.Base.{
  ℕ, Bool, true, false, ◌&&◌, not, List, [], ◌∷◌, Bytes, if◌then◌else◌,
}

-- Where the goroutine waits: in Dial, behind a failed one, in Channel and Confirm, behind a failed
-- one, in the select of handleReInit; and returned.
pub data Phase : Type 0 where
  dialling waiting_reconnect initialising waiting_reinit serving ended : Phase

-- `connection_open` and `channel_open` are the state of the connection and of the channel, and
-- `done_closed` whether the channel `done` is closed.
pub record Session : Type 0 where
  pub phase : Phase
  pub is_ready : Bool
  pub done_closed : Bool
  pub connection_open : Bool
  pub channel_open : Bool

-- New, with the goroutine in its first Dial.
abbrev pub new_session : Session
new_session = record {
  phase = dialling;
  is_ready = false;
  done_closed = false;
  connection_open = false;
  channel_open = false;
}

-- What ends a wait of the goroutine: connect and init with their outcome, a delay, and what a select
-- receives from.
pub data Wake : Type 0 where
  connects inits : Bool → Wake
  delay_over done conn_close chan_close : Wake

-- The part of handleReconnect behind handleReInit: false is another round.
abbrev pub reconnect : Session → Session
reconnect s = record s { phase = dialling; is_ready = false }

abbrev pub reinit : Session → Session
reinit s = record s { phase = initialising; is_ready = false }

-- session.init(conn), and what follows it
unfoldable pub after_init : Bool → Session → Session
after_init works s =
    if works && s.connection_open
    then record s { phase = serving; is_ready = true; channel_open = true }
    else record s { phase = waiting_reinit }

-- session.connect(), and what follows it
unfoldable pub after_connect : Bool → Session → Session
after_connect works s =
    if works
    then reinit (record s { connection_open = true; channel_open = false })
    else record s { phase = waiting_reconnect }

abbrev pub end_if_done : Session → Session
end_if_done s = if s.done_closed then record s { phase = ended } else s

-- A wake that the phase does not wait for changes nothing.
unfoldable pub wake_in : Phase → Wake → Session → Session
unfolding after_init after_connect
wake_in dialling (connects works) s = after_connect works s
wake_in waiting_reconnect done s = end_if_done s
wake_in waiting_reconnect delay_over s = reconnect s
wake_in initialising (inits works) s = after_init works s
wake_in waiting_reinit done s = end_if_done s
wake_in waiting_reinit delay_over s = reinit s
wake_in serving done s = end_if_done s
wake_in serving conn_close s = if not s.connection_open then reconnect s else s
wake_in serving chan_close s = if not s.channel_open then reinit s else s
wake_in phase wake s = s

-- What Close returns; closing `done` a second time panics.
pub data Closing : Type 0 where
  closed already_closed failed panicked : Closing

-- The flags are whether channel.Close and connection.Close work.
unfoldable pub close_session : Bool → Bool → Session → Closing × Session
close_session channel_closes connection_closes s =
    if not s.is_ready
    then (already_closed, s)
    else if s.done_closed
    then (panicked, s)
    else if not channel_closes
    then (failed, record s { done_closed = true })
    else if not connection_closes
    then (failed, record s { done_closed = true; channel_open = false })
    else (
      closed,
      record s {
        done_closed = true;
        channel_open = false;
        connection_open = false;
        is_ready = false;
      },
    )

pub data Event : Type 0 where
  wakes : Wake → Event
  closes : Bool → Bool → Event
  connection_breaks channel_breaks : Event

unfoldable pub on_event : Event → Session → Session
unfolding wake_in close_session
on_event (wakes w) s = wake_in s.phase w s
on_event (closes ch co) s = (close_session ch co s).1
on_event connection_breaks s = record s { connection_open = false; channel_open = false }
on_event channel_breaks s = record s { channel_open = false }

unfoldable pub run_session : List Event → Session → Session
unfolding on_event
run_session [] s = s
run_session (e ∷ es) s = run_session es (on_event e s)

-- One round of the loop in Push: what isReady is, whether Publish works, and whether the select
-- behind a failure takes `done`.
pub record Try : Type 0 where
  pub ready : Bool
  pub publishes : Bool
  pub takes_done : Bool

-- Push has returned nil, the error of its first test, or errShutdown, or is in its loop; with the
-- number of calls of Publish that worked.
pub data Pushed : Type 0 where
  pushed refused shut_down trying : Pushed

unfoldable pub unsafe_push : Try → Bool
unsafe_push t = t.ready && t.publishes

unfoldable pub push_loop : List Try → Pushed × ℕ
unfolding unsafe_push
push_loop [] = (trying, 0)
push_loop (t ∷ ts) =
    let rest = push_loop ts in
    if unsafe_push t then (pushed, 1) else if t.takes_done then (shut_down, 0) else rest

-- The first argument is isReady at the first test.
unfoldable pub push : Bool → List Try → Pushed × ℕ
unfolding push_loop
push is_ready ts = if not is_ready then (refused, 0) else push_loop ts
