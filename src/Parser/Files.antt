-- ===== src/Parser/Files.antt =====
-- `parseFileRecords`: the file records of an f-stream packet. The reader is the list of bytes that
-- it has not read. All seeks go to a record's start plus a length, so a seek is a `drop` from there;
-- past the end it leaves no bytes, as a bytes.Reader does.
pub mod Progress
pub mod Encode
mod Fields
mod Rounds
pub mod RoundTrip
pub mod TimeRecords
use xrootd_monitoring_shovel.Base.{
  ℕ, zero, suc, ◌-◌, Bool, not, ◌&&◌, ◌||◌, List, [], ◌∷◌, ◌++◌, Option, none, some, Bytes, pos,
  to_int16, to_int32, to_int64, length, take, drop, ltb, leb, ◌==◌, if◌then◌else◌, bit_and,
}
use xrootd_monitoring_shovel.Parser.Records.{
  FileHeader, FileTimeRecord, StatXfr, StatOps, FileCloseRecord, FileOpenRecord,
  FileDisconnectRecord, FileRecord, time_record, close_record, open_record, disconnect_record,
  zero_ops,
}
use xrootd_monitoring_shovel.Parser.Wire.{◌>>=◌, u8, u16, u32, u64}
use xrootd_monitoring_shovel.Parser.FileRecords.{
  rec_type_close, rec_type_open, rec_type_time, rec_type_disc, read_common, read_time, read_xfr,
  read_ops, has_ops, has_user, close_ops, read_close, trim_nulls, open_user, open_lfn, read_open,
}

pub data FileError : Type 0 where
  too_short time_failed close_failed open_failed : FileError

-- One round of the loop on a reader that is not empty: it ends, or fails, or goes on with the
-- bytes left and perhaps a record.
pub data Round : Type 0 where
  stop : Round
  fail : FileError → Round
  next : Option FileRecord → Bytes → Round

unfoldable pub disconnect_of : FileHeader → FileDisconnectRecord
disconnect_of h = record { header = h; user_id = h.file_id }

-- The switch on the record type.
unfoldable pub dispatch : FileHeader → Bytes → Round
unfolding disconnect_of
dispatch h b =
    if h.rec_type == rec_type_time
    then (elim (read_time b) [
      | none ↦ fail time_failed
      | some (r, b') ↦ next (some (time_record r)) b'
    ])
    else if h.rec_type == rec_type_close
    then (elim (read_close b) [
      | none ↦ fail close_failed
      | some r ↦ next (some (close_record r)) (drop h.rec_size b)
    ])
    else if h.rec_type == rec_type_open
    then (elim (read_open b) [
      | none ↦ fail open_failed
      | some r ↦ next (some (open_record r)) (drop h.rec_size b)
    ])
    else if h.rec_type == rec_type_disc
    then next (some (disconnect_record (disconnect_of h))) (drop h.rec_size b)
    else next none (drop h.rec_size b)

-- The checks in front of the switch. `reader.Len()+8` is the length at the record's start.
unfoldable pub checked : FileHeader → Bytes → Round
checked h b =
    if ltb h.rec_size 8 || ltb 16384 h.rec_size
    then stop
    else if ltb (length b) h.rec_size
    then stop
    else dispatch h b

unfoldable pub round : Bytes → Round
round b = elim (read_common b) [ none ↦ stop | some (h, _) ↦ checked h b ]

-- `([]interface{}, error)`, and the case that the fuel runs out.
pub data Parsed : Type 0 where
  done : List FileRecord → Parsed
  failed : List FileRecord → FileError → Parsed
  out_of_fuel : Parsed

abbrev pub appended : List FileRecord → Option FileRecord → List FileRecord
appended records none = records
appended records (some r) = records ++ r ∷ []

unfoldable pub parse_loop : ℕ → List FileRecord → Bytes → Parsed
parse_loop fuel records [] = done records
parse_loop zero records (_ ∷ _) = out_of_fuel
parse_loop (suc fuel) records (c ∷ cs) = elim (round (c ∷ cs)) [
  | stop ↦ done records
  | fail e ↦ failed records e
  | next r b ↦ parse_loop fuel (appended records r) b
]

-- A time record in front is stepped over by its size, which is not checked.
unfoldable pub skip_time : Bytes → Bytes
skip_time b =
    if leb 8 (length b)
    then (elim (read_common b) [
      | none ↦ b
      | some (h, _) ↦ if h.rec_type == rec_type_time then drop h.rec_size b else b
    ])
    else b

-- A round reads a byte at least, so the packet's length is fuel enough.
unfoldable pub parse_file_records : Bytes → Parsed
parse_file_records b =
    if ltb (length b) 8
    then failed [] too_short
    else parse_loop (length b) [] (skip_time (drop 8 b))
