-- ===== src/Parser/Files/Progress.antt =====
-- The loop of `parseFileRecords` ends, and reports at most one record for every eight bytes.
use xrootd_monitoring_shovel.Base.{
  ℕ, zero, suc, ◌+◌, ◌*◌, ◌≤◌, ◌≡◌, inl, inr, List, [], ◌∷◌, Option, none, some, arith, Bytes,
  length, drop, length-drop, length-append, Option-cases, Bool-cases, ltb,
}
use xrootd_monitoring_shovel.Parser.Records.{FileHeader, FileRecord, FileTimeRecord, time_record}
use xrootd_monitoring_shovel.Parser.Wire.{◌>>=◌, u8, u16, u32, u64}
use xrootd_monitoring_shovel.Parser.FileRecords.{read_common, read_time}
use xrootd_monitoring_shovel.Parser.Files.{
  dispatch, checked, round, Round, stop, fail, next, time_failed, Parsed, done, failed, out_of_fuel,
  appended, parse_loop, skip_time, parse_file_records,
}

-- What a reader leaves, if it succeeds, is n bytes shorter.
abbrev pub Consumes {ℓ} : {A : Type ℓ} → ℕ → Bytes → Option (A × Bytes) → Type 0
Consumes n b none = Unit
Consumes n b (some (_, r)) = length r + n ≡ length b

u8-Consumes : (b : Bytes) → Consumes 1 b (u8 b)
unfolding u8
u8-Consumes b = ground arith

u16-Consumes : (b : Bytes) → Consumes 2 b (u16 b)
unfolding u16
u16-Consumes b = ground arith

u32-Consumes : (b : Bytes) → Consumes 4 b (u32 b)
unfolding u32
u32-Consumes b = ground arith

Consumes-shift :
    {A : Type 0} (m n : ℕ) (b r : Bytes) (o : Option (A × Bytes))
    → length r + m ≡ length b
    → Consumes n r o
    → Consumes (m + n) b o
Consumes-shift m n b r none e h = tt
Consumes-shift m n b r (some _) e h = omega arith

Consumes-bind :
    {A B : Type 0} (m n : ℕ) (b : Bytes) (o : Option (A × Bytes))
    (f : A × Bytes → Option (B × Bytes))
    → Consumes m b o
    → ((a : A) (r : Bytes) → Consumes n r (f (a, r)))
    → Consumes (m + n) b (o >>= f)
Consumes-bind m n b none f h k = tt
Consumes-bind m n b (some (a, r)) f h k = Consumes-shift m n b r (f (a, r)) h (k a r)

u64-Consumes : (b : Bytes) → Consumes 8 b (u64 b)
unfolding u64
u64-Consumes b =
    Consumes-bind 4 4 b (u32 b) _ (u32-Consumes b)
      λ _ r. Consumes-bind 4 0 r (u32 r) _ (u32-Consumes r) λ _ _. omega arith

read_common-Consumes : (b : Bytes) → Consumes 8 b (read_common b)
unfolding read_common
read_common-Consumes b = Consumes-bind 1 7 b (u8 b) _ (u8-Consumes b) λ _ b.
    Consumes-bind 1 6 b (u8 b) _ (u8-Consumes b) λ _ b.
      Consumes-bind 2 4 b (u16 b) _ (u16-Consumes b)
        λ _ b. Consumes-bind 4 0 b (u32 b) _ (u32-Consumes b) λ _ _. omega arith

pub read_time-Consumes : (b : Bytes) → Consumes 28 b (read_time b)
unfolding read_time
read_time-Consumes b = Consumes-bind 8 20 b (read_common b) _ (read_common-Consumes b) λ _ b.
    Consumes-bind 2 18 b (u16 b) _ (u16-Consumes b) λ _ b.
      Consumes-bind 2 16 b (u16 b) _ (u16-Consumes b) λ _ b.
        Consumes-bind 4 12 b (u32 b) _ (u32-Consumes b) λ _ b.
          Consumes-bind 4 8 b (u32 b) _ (u32-Consumes b)
            λ _ b. Consumes-bind 8 0 b (u64 b) _ (u64-Consumes b) λ _ _. omega arith

-- A round that goes on has read eight bytes at least.
abbrev Advances : Bytes → Round → Type 0
Advances b stop = Unit
Advances b (fail _) = Unit
Advances b (next _ r) = length r + 8 ≤ length b

time-Advances :
    (b : Bytes) (o : Option (FileTimeRecord × Bytes))
    → Consumes 28 b o
    → Advances b
        (elim o [ none ↦ fail time_failed | some (r, b') ↦ next (some (time_record r)) b' ])
time-Advances b none h = tt
time-Advances b (some _) h = omega arith

dispatch-Advances :
    (h : FileHeader) (b : Bytes)
    → 8 ≤ h.rec_size
    → h.rec_size ≤ length b
    → Advances b (dispatch h b)
unfolding dispatch
dispatch-Advances h b l u =
    ground (arith, time-Advances b (read_time b) (read_time-Consumes b), length-drop h.rec_size b)

checked-Advances : (h : FileHeader) (b : Bytes) → Advances b (checked h b)
unfolding checked
checked-Advances h b = ground (arith, dispatch-Advances h b)

round-Advances : (b : Bytes) → Advances b (round b)
unfolding round
round-Advances b =
    elim (read_common b) as (λ o. Advances b (elim o [ none ↦ stop | some (h, _) ↦ checked h b ])) [
      | none ↦ tt
      | some (h, r) ↦ checked-Advances h b
    ]

-- The result is there, with at most a record for each eight of the n bytes.
abbrev pub EndsWithin : ℕ → Parsed → Type 0
EndsWithin n (done rs) = 8 * length rs ≤ n
EndsWithin n (failed rs _) = 8 * length rs ≤ n
EndsWithin n out_of_fuel = ⊥

length-appended :
    (rs : List FileRecord) (r : Option FileRecord) → length (appended rs r) ≤ length rs + 1
length-appended rs none = omega arith
length-appended rs (some r) = omega (arith, length-append rs (r ∷ []))

parse_loop-EndsWithin :
    (fuel n : ℕ) (rs : List FileRecord) (b : Bytes)
    → length b ≤ fuel
    → 8 * length rs + length b ≤ n
    → EndsWithin n (parse_loop fuel rs b)
unfolding parse_loop
parse_loop-EndsWithin fuel n rs [] f h = omega arith
parse_loop-EndsWithin zero n rs (c ∷ cs) f h = absurd (omega arith)
parse_loop-EndsWithin (suc fuel) n rs (c ∷ cs) f h =
    go (round (c ∷ cs)) (round-Advances (c ∷ cs)) (parse_loop-EndsWithin fuel n)
  where
    go :
        (x : Round)
        → Advances (c ∷ cs) x
        → ((rs : List FileRecord) (b : Bytes)
            → length b ≤ fuel
            → 8 * length rs + length b ≤ n
            → EndsWithin n (parse_loop fuel rs b))
        → EndsWithin n (elim x [
          | stop ↦ done rs
          | fail e ↦ failed rs e
          | next r b ↦ parse_loop fuel (appended rs r) b
        ])
    go stop a ih = omega arith
    go (fail e) a ih = omega arith
    go (next r b) a ih = ih (appended rs r) b (omega arith) (omega (arith, length-appended rs r))

length-skip_time : (b : Bytes) → length (skip_time b) ≤ length b
unfolding skip_time
length-skip_time b = elim (Option-cases (read_common b)) [
  | inl e ↦ rw e (ground arith)
  | inr ((h, r), e) ↦ rw e (ground (arith, length-drop h.rec_size b))
]

-- `parseFileRecords` always comes to a result, also on bytes that no server would send, and the
-- result has at most one record for every eight bytes of the packet.
pub parse_file_records-EndsWithin : (b : Bytes) → EndsWithin (length b) (parse_file_records b)
unfolding parse_file_records
parse_file_records-EndsWithin b = elim (Bool-cases (ltb (length b) 8)) [
  | inl short ↦ rw short (omega arith)
  | inr long ↦ rw long (
      parse_loop-EndsWithin (length b) (length b) [] (skip_time (drop 8 b))
        (omega (arith, length-skip_time (drop 8 b), length-drop 8 b))
        (omega (arith, length-skip_time (drop 8 b), length-drop 8 b)))
]
