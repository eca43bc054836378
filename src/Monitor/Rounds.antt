-- ===== src/Monitor/Rounds.antt =====
-- The loop over the records of an f-stream packet: what a round keeps the loop keeps, and when it
-- ends. A round steps by the size that the record gives, whatever it is.
use xrootd_monitoring_shovel.Base.{
  ◌+◌, ℕ, zero, suc, ◌≡◌, ◌≢◌, ◌<◌, ◌≤◌, ◌-◌, ◌==◌, refl, ap, sym, ◌∙◌, false, none, some, arith,
  Option-cases, inl, inr,
}
use xrootd_monitoring_shovel.Parser.Wire.{>>=-some, some-injective}
use xrootd_monitoring_shovel.Monitor.Memory.{Packet, plus32, minus16, widen}
use xrootd_monitoring_shovel.Monitor.State.{
  Library, Monitor, Outcome, finished, failed, panicked, running,
}
use xrootd_monitoring_shovel.Monitor.Files.{FileHeader, file_record}
use xrootd_monitoring_shovel.Monitor.Loop.{header_at, record_round, record_loop}

suc-is-no-zero : (n : ℕ) → (suc n == 0) ≡ false
suc-is-no-zero n = ground arith

module _ (lib : Library) where
  -- The predicate holds for the state that the call leaves, if it leaves one.
  abbrev pub Leaves : (Monitor lib → Type 0) → Outcome (Monitor lib) → Type 0
  Leaves P (finished s) = P s
  Leaves P (failed s) = P s
  Leaves P panicked = Unit
  Leaves P running = Unit

  record_loop-end :
      (fuel : ℕ) (p : Packet) (offset : ℕ) (s : Monitor lib)
      → record_loop lib fuel p offset 0 s ≡ finished s
  unfolding record_loop
  record_loop-end zero p offset s = refl
  record_loop-end (suc fuel) p offset s = refl

  record_loop-none :
      (fuel : ℕ) (p : Packet) (offset remain : ℕ) (s : Monitor lib)
      → (remain == 0) ≡ false
      → record_round lib p offset remain s ≡ none
      → record_loop lib (suc fuel) p offset remain s ≡ panicked
  unfolding record_loop
  record_loop-none fuel p offset remain s h e = ground arith

  record_loop-some :
      (fuel : ℕ) (p : Packet) (offset remain offset' remain' : ℕ) (s s' : Monitor lib)
      → (remain == 0) ≡ false
      → record_round lib p offset remain s ≡ some (offset', remain', s')
      → record_loop lib (suc fuel) p offset remain s ≡ record_loop lib fuel p offset' remain' s'
  unfolding record_loop
  record_loop-some fuel p offset remain offset' remain' s s' h e = ground arith

  record_round-file_record :
      (p : Packet) (offset remain offset' remain' : ℕ) (s s' : Monitor lib)
      → record_round lib p offset remain s ≡ some (offset', remain', s')
      → (h : FileHeader) × (header_at p offset ≡ some h)
        × (file_record lib p offset h s ≡ some s')
        × (offset' ≡ plus32 offset (widen h.rec_size))
        × (remain' ≡ minus16 remain h.rec_size)
  unfolding record_round
  record_round-file_record p offset remain offset' remain' s s' e =
      let (h, a, e) = >>=-some (header_at p offset) _ _ e in
      let (s1, b, e) = >>=-some (file_record lib p offset h s) _ _ e in
      let t = some-injective e in
      (h, a, b ∙ ap (λ t. some (t.2)) t, sym (ap (λ t. t.0) t), sym (ap (λ t. t.1) t))

  module _ (P : Monitor lib → Type 0)
      (keep : (p : Packet) (offset : ℕ) (h : FileHeader) (s s' : Monitor lib)
        → file_record lib p offset h s ≡ some s'
        → P s
        → P s') where
    pub record_loop-Leaves :
        (fuel : ℕ) (p : Packet) (offset remain : ℕ) (s : Monitor lib)
        → P s
        → Leaves P (record_loop lib fuel p offset remain s)
    record_loop-Leaves fuel p offset zero s h = rw (record_loop-end fuel p offset s) h
    record_loop-Leaves zero p offset (suc r) s h = unfold record_loop in ground arith
    record_loop-Leaves (suc fuel) p offset (suc r) s h =
        elim (Option-cases (record_round lib p offset (suc r) s)) [
          | inl e ↦ rw (record_loop-none fuel p offset (suc r) s (suc-is-no-zero r) e) tt
          | inr ((o, m, s'), e) ↦
              let (h', a, b, c, d) = record_round-file_record p offset (suc r) o m s s' e in
              rw (record_loop-some fuel p offset (suc r) o m s s' (suc-is-no-zero r) e)
                (record_loop-Leaves fuel p o m s' (keep p offset h' s s' b h))
        ]

  -- The call returns, with an error or without.
  abbrev pub Returns : Outcome (Monitor lib) → Type 0
  Returns (finished s) = Unit
  Returns (failed s) = Unit
  Returns panicked = ⊥
  Returns running = ⊥

  -- From the offset on, records of positive sizes fill the bytes that remain.
  pub data IsSized (p : Packet) : ℕ → ℕ → Type 0 where
    done : {offset : ℕ} → IsSized p offset 0
    next :
        {offset remain : ℕ} (h : FileHeader)
        → header_at p offset ≡ some h
        → 0 < h.rec_size
        → h.rec_size < 0x8000
        → h.rec_size ≤ remain
        → IsSized p (offset + h.rec_size) (remain - h.rec_size)
        → IsSized p offset remain

  -- If the records have positive sizes that fill the packet, as many rounds as bytes remain are
  -- enough for the loop to come to an end.
  pub record_loop-IsSized :
      (p : Packet) {offset remain : ℕ} (fuel : ℕ) (s : Monitor lib)
      → IsSized p offset remain
      → remain ≤ fuel
      → remain < 0x10000
      → offset + remain < 0x100000000
      → record_loop lib fuel p offset remain s ≢ running
  record_loop-IsSized p {offset = offset} fuel s done f m o =
      rw (record_loop-end fuel p offset s) (λ e. absurd (ground arith))
  record_loop-IsSized p zero s (next h e z i j r) f m o = absurd (omega arith)
  record_loop-IsSized p {offset = offset} {remain = zero} (suc fuel) s (next h e z i j r) f m o =
      absurd (omega arith)
  record_loop-IsSized p {offset = offset} {remain = suc rem} (suc fuel) s (next h e z i j r) f m o =
      elim (Option-cases (record_round lib p offset (suc rem) s)) [
        | inl n ↦
            rw (record_loop-none fuel p offset (suc rem) s (suc-is-no-zero rem) n)
              (λ e. absurd (ground arith))
        | inr ((o', m', s'), n) ↦
            let (h', a, b, c, d) = record_round-file_record p offset (suc rem) o' m' s s' n in
            let same : h' ≡ h = some-injective (sym a ∙ e) in
            let o_same : o' ≡ offset + h.rec_size = ground arith in
            let m_same : m' ≡ suc rem - h.rec_size = ground arith in
            rw
              (
                record_loop-some fuel p offset (suc rem) o' m' s s' (suc-is-no-zero rem) n,
                o_same,
                m_same,
              )
              (record_loop-IsSized p fuel s' r (omega arith) (omega arith) (omega arith))
      ]
