-- ===== src/Publisher/Session/Reconnects.antt =====
-- When a session reconnects, and when its goroutine ends.
use xrootd_monitoring_shovel.Base.{
  ℕ, ◌≡◌, ◌≢◌, refl, ◌⊎◌, inl, inr, Bool, true, false, List, [], ◌∷◌, ◌++◌, arith, Bool-cases,
}
use xrootd_monitoring_shovel.Publisher.Session.{
  Phase, initialising, waiting_reinit, ended, Session, new_session, Wake, connects, inits,
  delay_over, done, conn_close, chan_close, after_init, after_connect, wake_in, close_session,
  Event, wakes, closes, connection_breaks, channel_breaks, on_event, run_session, Try, Pushed,
  pushed, push_loop, push,
}

-- The phases of handleReInit before its select, and the end.
abbrev InInit : Phase → Type 0
InInit p = (p ≡ initialising) ⊎ ((p ≡ waiting_reinit) ⊎ (p ≡ ended))

record Stuck (s : Session) : Type 0 where
  in_init : InInit s.phase
  not_ready : s.is_ready ≡ false
  no_connection : s.connection_open ≡ false

-- A call of Close on a session that is ready, among the events.
abbrev pub ClosedReady : List Event → Session → Type 0
ClosedReady es s =
    (before : List Event) × (after : List Event) × (ch : Bool) × (co : Bool) × (es
      ≡ before ++ closes ch co ∷ after)
    × ((run_session before s).is_ready ≡ true)

record Lives (s : Session) : Type 0 where
  not_done : s.done_closed ≡ false
  not_ended : s.phase ≢ ended

abbrev ClosesReady : Event → Session → Type 0
ClosesReady e s = (ch : Bool) × (co : Bool) × (e ≡ closes ch co) × (s.is_ready ≡ true)

wakes-Lives : (w : Wake) (s : Session) → Lives s → Lives (on_event (wakes w) s)
unfolding on_event wake_in after_init after_connect
wakes-Lives (connects works) s l = ground arith
wakes-Lives (inits works) s l = ground arith
wakes-Lives delay_over s l = ground arith
wakes-Lives done s l = ground arith
wakes-Lives conn_close s l = ground arith
wakes-Lives chan_close s l = ground arith

closes-Lives :
    (ch co : Bool) (s : Session) → s.is_ready ≡ false → Lives s → Lives (on_event (closes ch co) s)
unfolding on_event close_session
closes-Lives ch co s r l = ground arith

on_event-Lives : (e : Event) (s : Session) → Lives s → ClosesReady e s ⊎ Lives (on_event e s)
unfolding on_event
on_event-Lives (wakes w) s l = inr (wakes-Lives w s l)
on_event-Lives (closes ch co) s l = elim (Bool-cases s.is_ready) [
  | inl ready ↦ inl (ch, co, refl, ready)
  | inr unready ↦ inr (closes-Lives ch co s unready l)
]
on_event-Lives connection_breaks s l =
    inr (record { not_done = l.not_done; not_ended = l.not_ended })
on_event-Lives channel_breaks s l = inr (record { not_done = l.not_done; not_ended = l.not_ended })

run_session-Lives :
    (es : List Event) (s : Session) → Lives s → (run_session es s).phase ≡ ended → ClosedReady es s
unfolding run_session
run_session-Lives [] s l e = absurd (l.not_ended e)
run_session-Lives (x ∷ es) s l e = elim (on_event-Lives x s l) [
  | inl (ch, co, is, ready) ↦ ([], es, ch, co, rw is refl, ready)
  | inr lives ↦
      let (before, after, ch, co, is, ready) = run_session-Lives es (on_event x s) lives e in
      (x ∷ before, after, ch, co, rw is refl, ready)
]

-- The goroutine of a session ends only if Close was called while the session was ready.
pub run_session-ended :
    (es : List Event) → (run_session es new_session).phase ≡ ended → ClosedReady es new_session
run_session-ended es e =
    run_session-Lives es new_session (record { not_done = refl; not_ended = λ q. cc }) e

-- How often Publish worked when Push comes to an outcome.
abbrev once : Pushed → ℕ
once pushed = 1
once _ = 0

push_loop-once : (ts : List Try) → (push_loop ts).1 ≡ once (push_loop ts).0
unfolding push_loop
push_loop-once [] = refl
push_loop-once (t ∷ ts) = ground (arith, push_loop-once ts)

-- Whatever becomes of its tries, a Push that returns nil has published once, and any other Push has
-- not published.
pub push-once : (is_ready : Bool) (ts : List Try) → (push is_ready ts).1 ≡ once (push is_ready ts).0
unfolding push
push-once is_ready ts = ground (arith, push_loop-once ts)
