-- ===== src/Input/Source/Kept.antt =====
-- What the events of a source do to the packets that it has handed over or holds.
use mathlib.Core.List.{Sublist, sublist-append_left}
use mathlib.Core.List.Sublist as Sublist
use xrootd_monitoring_shovel.Base.{
  ◌≤◌, ◌≡◌, refl, sym, ◌⊎◌, inl, inr, Bool, true, false, not, ◌&&◌, ◌||◌, List, [], ◌∷◌, ◌++◌,
  length, length-append, append_assoc, arith, Bool-cases,
}
use xrootd_monitoring_shovel.Input.Source.{
  Source, packets_capacity, has_room, receive, returns, offer,
}

module _ (A : Type 0) where
  -- The packets handed over, and those in the channel, in order.
  abbrev pub kept : Source A → List A
  kept s = s.received ++ s.buffered

  pub kept-receive : (s : Source A) → kept (receive A s) ≡ kept s
  unfolding receive
  kept-receive s = by_buffer s.buffered s.received
    where
      by_buffer :
          (ps rs : List A) → kept (receive A (record s { buffered = ps; received = rs })) ≡ rs ++ ps
      by_buffer [] rs = refl
      by_buffer (p ∷ ps) rs = append_assoc rs (p ∷ []) ps

  pub length-receive : (s : Source A) → length (receive A s).buffered ≤ length s.buffered
  unfolding receive
  length-receive s = ground arith

  -- An offer puts the packet behind all others, or changes nothing that is kept.
  pub kept-offer :
      (b : Bool) (p : A) (s : Source A)
      → (kept (offer A b p s) ≡ kept s) ⊎ (kept (offer A b p s) ≡ kept s ++ p ∷ [])
  unfolding offer returns
  kept-offer b p s = elim (Bool-cases (s.stopping && (b || not (has_room A s)))) [
    | inl stops ↦ inl (rw stops refl)
    | inr goes ↦ elim (Bool-cases (has_room A s)) [
      | inl room ↦ inr (rw (goes, room) (sym (append_assoc s.received s.buffered (p ∷ []))))
      | inr full ↦ inl (rw (goes, full) refl)
    ]
  ]

  pub length-offer :
      (b : Bool) (p : A) (s : Source A)
      → length s.buffered ≤ packets_capacity
      → length (offer A b p s).buffered ≤ packets_capacity
  unfolding offer returns
  length-offer b p s h = ground (arith, length-append s.buffered (p ∷ []))

  -- With room and no stop, an offer keeps the packet.
  pub offer-room :
      (b : Bool) (p : A) (s : Source A)
      → s.stopping ≡ false
      → has_room A s ≡ true
      → offer A b p s ≡ record s { buffered = s.buffered ++ p ∷ [] }
  unfolding offer
  offer-room b p s st room = rw (st, room) refl

  -- What is kept are some of those seen, in their order, and the channel is within its capacity.
  pub record Within (seen : List A) (s : Source A) : Type 0 where
    pub in_order : Sublist (kept s) seen
    pub bounded : length s.buffered ≤ packets_capacity

  pub Within-append : (seen more : List A) (s : Source A) → Within seen s → Within (seen ++ more) s
  Within-append seen more s w = record {
    in_order = Sublist.trans w.in_order (sublist-append_left seen more);
    bounded = w.bounded;
  }

  pub offer-Within :
      (b : Bool) (p : A) (seen : List A) (s : Source A)
      → Within seen s
      → Within (seen ++ p ∷ []) (offer A b p s)
  offer-Within b p seen s w = record {
    in_order = elim (kept-offer b p s) [
      | inl same ↦ rw same (Sublist.trans w.in_order (sublist-append_left seen (p ∷ [])))
      | inr more ↦ rw more (Sublist.append w.in_order (Sublist.refl (p ∷ [])))
    ];
    bounded = length-offer b p s w.bounded;
  }
