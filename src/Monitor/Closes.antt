-- ===== src/Monitor/Closes.antt =====
-- What a close record adds to the counters: the difference to the record in the cache, which is the
-- whole transfer only if no transfer record came in between.
use xrootd_monitoring_shovel.Base.{
  ℕ, ◌-◌, ◌≤◌, ◌<◌, ◌≡◌, ◌==◌, refl, List, [], ◌∷◌, ◌++◌, Option, none, some, false, ℤ, pos,
  to_int64, bit_and, arith,
}
use xrootd_monitoring_shovel.Monitor.Memory.{Packet, plus32, minus64, word64}
use xrootd_monitoring_shovel.Monitor.State.{
  Library, Monitor, FileRecord, CacheLaws, RegistryLaws, Labels, Counter, Kind,
}
use xrootd_monitoring_shovel.Monitor.Files.{
  FileHeader, or_empty, count, count_bytes, count_close, close_labels, end_session, drop_transfer,
  close_record, xfr_record,
}

minus64-pos : (a b : ℕ) → b ≤ a → a < 0x8000000000000000 → to_int64 (minus64 a b) ≡ pos (a - b)
minus64-pos a b h k = ground arith

-- The three words that close and transfer records hold from the given place on.
abbrev pub Holds : Packet → ℕ → ℕ → ℕ → ℕ → Type 0
Holds p at a b c =
    (word64 p at (plus32 at 8) ≡ some a)
    × (word64 p (plus32 at 8) (plus32 at 16) ≡ some b)
    × (word64 p (plus32 at 16) (plus32 at 24) ≡ some c)

-- The counts of the record are at most the given ones, which an int64 holds.
abbrev pub AtMost : FileRecord → ℕ → ℕ → ℕ → Type 0
AtMost f a b c =
    (f.read_bytes ≤ a)
    × (a < 0x8000000000000000)
    × (f.readv_bytes ≤ b)
    × (b < 0x8000000000000000)
    × (f.write_bytes ≤ c)
    × (c < 0x8000000000000000)

-- The calls of Add for the bytes that moved since the record, the last first.
abbrev pub moved : Labels → FileRecord → ℕ → ℕ → ℕ → List (Counter × ℤ)
moved l f a b c =
    (Counter.transfer_bytes l Kind.write, pos (c - f.write_bytes))
    ∷ (Counter.transfer_bytes l Kind.readv, pos (b - f.readv_bytes))
    ∷ (Counter.transfer_bytes l Kind.read, pos (a - f.read_bytes))
    ∷ []

module _ (lib : Library) (laws : RegistryLaws lib.registry) where
  -- The call returns a state whose counters have those additions and which is the same else.
  abbrev pub Adds : List (Counter × ℤ) → Monitor lib → Option (Monitor lib) → Type 0
  Adds l s o =
      (r : lib.registry.R) × (o ≡ some (record s { counters = r }))
      × (laws.history r ≡ l ++ laws.history s.counters)

  count-pos :
      (c : Counter) (n : ℕ) (s : Monitor lib) → Adds ((c, pos n) ∷ []) s (count lib c (pos n) s)
  unfolding count
  count-pos c n s = let (r, e, h) = laws.add-pos c n s.counters in (r, rw (count, e) refl, h)

  count_bytes-Adds :
      (p : Packet) (offset a b c : ℕ) (l : Labels) (f : FileRecord) (s : Monitor lib)
      → Holds p (plus32 offset 8) a b c
      → AtMost f a b c
      → Adds (moved l f a b c) s (count_bytes lib p offset l f s)
  unfolding count_bytes
  count_bytes-Adds p offset a b c l f s (ha, hb, hc) (la, ua, lb, ub, lc, uc) =
      let (r1, e1, h1) = count-pos (Counter.transfer_bytes l Kind.read) (a - f.read_bytes) s in
      let (r2, e2, h2) =
        count-pos (Counter.transfer_bytes l Kind.readv) (b - f.readv_bytes)
          (record s { counters = r1 }) in
      let (r3, e3, h3) =
        count-pos (Counter.transfer_bytes l Kind.write) (c - f.write_bytes)
          (record s { counters = r2 }) in
      (
        r3,
        rw
            (
              ha,
              minus64-pos a f.read_bytes la ua,
              e1,
              hb,
              minus64-pos b f.readv_bytes lb ub,
              e2,
              hc,
              minus64-pos c f.write_bytes lc uc,
              e3,
            )
            refl,
        rw (h3, h2, h1) refl,
      )

  pub close_record-counts :
      (cache : CacheLaws lib.files)
      → (p : Packet) (offset a b c : ℕ) (h : FileHeader) (f : FileRecord) (s : Monitor lib)
      → lib.files.get h.file_id s.transfers ≡ some f
      → (bit_and h.rec_flag 2 == 2) ≡ false
      → Holds p (plus32 offset 8) a b c
      → AtMost f a b c
      → (s' : Monitor lib) × (close_record lib p offset h s ≡ some s')
        × (laws.history s'.counters
            ≡ moved (close_labels lib (some f) s) f a b c ++ laws.history s.counters)
        × (lib.files.get h.file_id s'.transfers ≡ none)
  unfolding close_record drop_transfer end_session or_empty count_close
  close_record-counts cache p offset a b c h f s g flag reads most =
      let s0 = end_session lib (some f) (drop_transfer lib h.file_id s) in
      let (r, e, t) =
        count_bytes-Adds p offset a b c (close_labels lib (some f) s) f s0 reads most in
      (record s0 { counters = r }, rw (g, flag) e, t, cache.get-delete h.file_id _)

  -- A transfer record of a file and then its close: the bytes that the transfer record tells are in
  -- no counter, since it adds nothing and the close adds only what came after it.
  pub close_record-xfr_record :
      (cache : CacheLaws lib.files)
      → (p q : Packet) (x y a b c a' b' c' : ℕ) (h k : FileHeader) (s : Monitor lib)
      → h.file_id ≡ k.file_id
      → (bit_and k.rec_flag 2 == 2) ≡ false
      → Holds p (plus32 x 8) a b c
      → Holds q (plus32 y 8) a' b' c'
      → (a ≤ a') × (b ≤ b') × (c ≤ c')
      → (a' < 0x8000000000000000) × (b' < 0x8000000000000000) × (c' < 0x8000000000000000)
      → (s' s'' : Monitor lib) × (l : Labels) × (xfr_record lib p x h s ≡ some s')
        × (close_record lib q y k s' ≡ some s'')
        × (laws.history s''.counters
            ≡ (Counter.transfer_bytes l Kind.write, pos (c' - c))
              ∷ (Counter.transfer_bytes l Kind.readv, pos (b' - b))
              ∷ (Counter.transfer_bytes l Kind.read, pos (a' - a))
              ∷ laws.history s.counters)
  unfolding xfr_record
  close_record-xfr_record cache p q x y a b c a' b' c' h k s same flag (ha, hb, hc) reads less
        bound =
      let e16 : plus32 x 16 ≡ plus32 (plus32 x 8) 8 = omega arith in
      let e24 : plus32 x 24 ≡ plus32 (plus32 x 8) 16 = omega arith in
      let e32 : plus32 x 32 ≡ plus32 (plus32 x 8) 24 = omega arith in
      let f = record (or_empty (lib.files.get h.file_id s.transfers)) {
        read_bytes = a;
        readv_bytes = b;
        write_bytes = c;
      } in
      let s' = record s {
        transfers = lib.files.set h.file_id f (lib.files.touch h.file_id s.transfers);
      } in
      let found : lib.files.get k.file_id s'.transfers ≡ some f =
        rw (← same) (cache.get-set h.file_id f _) in
      let (s'', e, t, gone) =
        close_record-counts cache q y a' b' c' k f s' found flag reads
          (less.0, bound.0, less.1, bound.1, less.2, bound.2) in
      (s', s'', close_labels lib (some f) s', rw (e16, e24, e32, ha, hb, hc) refl, e, t)
