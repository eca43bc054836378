-- ===== src/Input/Rabbit/Settled.antt =====
-- The reader settles the deliveries: what it counts as not acked is what the broker waits for.
use xrootd_monitoring_shovel.Base.{
  ℕ, ◌≡◌, ◌≤◌, ◌<◌, refl, true, false, List, [], ◌∷◌, ltb, length, ◌==◌, arith, Bool-cases, inl,
  inr, if◌then◌else◌,
}
use xrootd_monitoring_shovel.Input.Rabbit.{
  Call, delivered, acked, ack_failed, rejected, reject_failed, Reader, note, call_ack, has_unacked,
  ack_counted, on_tick, Event, tick, message, stop, closed, Ending, waiting, stopped,
  channel_closed,
}

-- What AMQP says: an Ack with the multiple flag settles every delivery up to its tag, a Nack one.
abbrev above : ℕ → List ℕ → List ℕ
above t [] = []
above t (u ∷ us) = let rest = above t us in if ltb t u then u ∷ rest else rest

abbrev without : ℕ → List ℕ → List ℕ
without t [] = []
without t (u ∷ us) = let rest = without t us in if u == t then rest else u ∷ rest

-- The tags of the deliveries that are not settled.
abbrev pub unsettled : List Call → List ℕ
unsettled [] = []
unsettled (delivered t ∷ cs) = t ∷ unsettled cs
unsettled (acked t ∷ cs) = above t (unsettled cs)
unsettled (ack_failed t ∷ cs) = unsettled cs
unsettled (rejected t ∷ cs) = without t (unsettled cs)
unsettled (reject_failed t ∷ cs) = unsettled cs

abbrev AreBelow : ℕ → List ℕ → Type 0
AreBelow t [] = Unit
AreBelow t (u ∷ us) = (0 < u) × (u ≤ t) × AreBelow t us

-- The reader's count is the number of unsettled deliveries, less than a batch, and none of them
-- has a tag above the last one.
unfoldable pub IsCounted : Reader → Type 0
IsCounted r =
    (length (unsettled r.calls) ≡ r.unacked_count)
    × (r.unacked_count < 100)
    × AreBelow r.last_ack_delivery_tag (unsettled r.calls)

above-AreBelow : (t : ℕ) (us : List ℕ) → AreBelow t us → above t us ≡ []
above-AreBelow t [] h = refl
above-AreBelow t (u ∷ us) h = ground (arith, above-AreBelow t us h.2)

-- The event's calls work, and the tags of the deliveries go up.
abbrev pub Works : ℕ → List Event → Type 0
Works t [] = Unit
Works t (tick works ∷ es) = (works ≡ true) × Works t es
Works t (message d acks nacks stopping ∷ es) =
    (acks ≡ true) × (nacks ≡ true) × (t < d.tag) × Works d.tag es
Works t (stop works ∷ es) = (works ≡ true)
Works t (closed ∷ es) = Unit

length-zero : (us : List ℕ) → length us ≡ 0 → us ≡ []
length-zero [] h = refl
length-zero (u ∷ us) h = absurd (omega arith)

AreBelow-zero : (us : List ℕ) → AreBelow 0 us → us ≡ []
AreBelow-zero [] h = refl
AreBelow-zero (u ∷ us) h = absurd (omega arith)

has_unacked-false : (r : Reader) → IsCounted r → has_unacked r ≡ false → unsettled r.calls ≡ []
unfolding has_unacked IsCounted
has_unacked-false r h e = elim (Bool-cases (ltb 0 r.unacked_count)) [
  | inl t ↦
      let zero : r.last_ack_delivery_tag ≡ 0 = ground arith in
      AreBelow-zero (unsettled r.calls) (rw (← zero) h.2)
  | inr f ↦ length-zero (unsettled r.calls) (ground arith)
]

on_tick-settles : (r : Reader) → IsCounted r → unsettled (on_tick true r).calls ≡ []
unfolding on_tick ack_counted call_ack note IsCounted
on_tick-settles r h = elim (Bool-cases (has_unacked r)) [
  | inl t ↦ rw t (above-AreBelow r.last_ack_delivery_tag (unsettled r.calls) h.2)
  | inr f ↦ rw f (has_unacked-false r h f)
]

-- After the loop's return on stop nothing is unsettled; else the count is right.
abbrev pub IsSound : Ending × Reader → Type 0
IsSound (stopped, r) = unsettled r.calls ≡ []
IsSound (waiting, r) = IsCounted r
IsSound (channel_closed, r) = IsCounted r
