-- ===== src/Parser/Files/TimeRecords.antt =====
-- `case RecTypeTime` of the loop, which does not go by the record's size.
use xrootd_monitoring_shovel.Base.{
  ◌+◌, ◌≤◌, ◌≡◌, refl, sym, subst, Option, none, some, Bytes, length, arith, ◌==◌, true,
}
use xrootd_monitoring_shovel.Parser.Records.{FileHeader, FileTimeRecord, time_record}
use xrootd_monitoring_shovel.Parser.FileRecords.{read_common, read_time, rec_type_time}
use xrootd_monitoring_shovel.Parser.Files.{
  dispatch, checked, round, Round, stop, fail, next, time_failed,
}
use xrootd_monitoring_shovel.Parser.Files.Progress.{Consumes, read_time-Consumes}

-- The round fails to read a time record, or goes on 28 bytes behind the record's start.
abbrev pub TakesTime : Bytes → Round → Type 0
TakesTime b stop = ⊥
TakesTime b (fail e) = e ≡ time_failed
TakesTime b (next none r) = ⊥
TakesTime b (next (some (time_record _)) r) = length r + 28 ≡ length b
TakesTime b (next (some _) r) = ⊥

time-TakesTime :
    (b : Bytes) (o : Option (FileTimeRecord × Bytes))
    → Consumes 28 b o
    → TakesTime b
        (elim o [ none ↦ fail time_failed | some (r, b') ↦ next (some (time_record r)) b' ])
time-TakesTime b none h = refl
time-TakesTime b (some _) h = h

dispatch-TakesTime :
    (h : FileHeader) (b : Bytes) → h.rec_type ≡ rec_type_time → TakesTime b (dispatch h b)
unfolding dispatch
dispatch-TakesTime h b t =
    let same : (h.rec_type == rec_type_time) ≡ true = ground arith in
    rw same (time-TakesTime b (read_time b) (read_time-Consumes b))

-- A time record inside the loop that passes the checks, whatever its size field says, either cannot
-- be read or is stepped over by 28 bytes.
pub round-TakesTime :
    (b rest : Bytes) (h : FileHeader)
    → read_common b ≡ some (h, rest)
    → h.rec_type ≡ rec_type_time
    → 8 ≤ h.rec_size
    → h.rec_size ≤ 16384
    → h.rec_size ≤ length b
    → TakesTime b (round b)
unfolding round checked
round-TakesTime b rest h e t low high there =
    let same : round b ≡ dispatch h b = ground arith in
    subst (λ (x : Round). TakesTime b x) (sym same) (dispatch-TakesTime h b t)
