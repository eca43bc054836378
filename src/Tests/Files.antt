-- ===== src/Tests/Files.antt =====
-- f-stream packets: a round trip, and packets that are cut short or that claim a wrong size.
use xrootd_monitoring_shovel.Base.{
  ℕ, ◌≡◌, refl, List, [], ◌∷◌, ◌++◌, Bytes, bytes, pos, negsuc, arith,
}
use xrootd_monitoring_shovel.Parser.Records.{
  FileHeader, FileCloseRecord, FileOpenRecord, FileDisconnectRecord, FileRecord, close_record,
  open_record, disconnect_record, zero_ops,
}
use xrootd_monitoring_shovel.Parser.Wire.{u8, u16, u32, be16, be32}
use xrootd_monitoring_shovel.Parser.FileRecords.{
  rec_type_close, rec_type_open, rec_type_time, rec_type_disc,
}
use xrootd_monitoring_shovel.Parser.Files.{parse_file_records, done}
use xrootd_monitoring_shovel.Parser.Files.Encode.{encode_common, encode_records, OpsFits}
use xrootd_monitoring_shovel.Parser.Files.RoundTrip.{parse_file_records-encode_records}
use xrootd_monitoring_shovel.Parser.Wire.{u8, u16, u32, be16, be32}
use xrootd_monitoring_shovel.Parser.FileRecords.{read_common}
use xrootd_monitoring_shovel.Parser.Files.{round}
use xrootd_monitoring_shovel.Parser.Files.TimeRecords.{TakesTime, round-TakesTime}
use xrootd_monitoring_shovel.Parser.Files.Progress.{EndsWithin, parse_file_records-EndsWithin}

abbrev pub header_of : ℕ → ℕ → ℕ → ℕ → ℕ → FileHeader
header_of type flag size file_id user_id = record {
  rec_type = type;
  rec_flag = flag;
  rec_size = size;
  file_id = file_id;
  user_id = user_id;
  n_recs0 = pos 0;
  n_recs1 = pos 0;
}

abbrev pub opened : FileOpenRecord
opened = record {
  header = header_of rec_type_open 1 22 7 5;
  file_size = pos 4096;
  user = 5;
  lfn = bytes "/a";
}

abbrev pub closed : FileCloseRecord
closed = record {
  header = header_of rec_type_close 0 32 7 0;
  xfr = record { read = pos 100; readv = pos 20; write = negsuc 2 };
  ops = zero_ops;
}

abbrev pub left : FileDisconnectRecord
left = record { header = header_of rec_type_disc 0 8 5 0; user_id = 5 }

abbrev records : List FileRecord
records = open_record opened ∷ close_record closed ∷ disconnect_record left ∷ []

abbrev eight : Bytes
eight = 102 ∷ 0 ∷ 0 ∷ 94 ∷ 0 ∷ 0 ∷ 0 ∷ 9 ∷ []

abbrev sixteen : Bytes
sixteen = eight ++ eight

zero_ops-OpsFits : OpsFits zero_ops
zero_ops-OpsFits = record {
  read = omega arith;
  readv = omega arith;
  write = omega arith;
  rs_min = omega arith;
  rs_max = omega arith;
  rsegs = omega arith;
  rd_min = omega arith;
  rd_max = omega arith;
  rv_min = omega arith;
  rv_max = omega arith;
  wr_min = omega arith;
  wr_max = omega arith;
}

parse_file_records-encode_records_example :
    parse_file_records (
      eight
      ++ ((encode_common (header_of rec_type_time 1 24 0 0) ++ sixteen) ++ encode_records records))
    ≡ done records
parse_file_records-encode_records_example =
    parse_file_records-encode_records eight (header_of rec_type_time 1 24 0 0) sixteen records refl
      refl refl
      (
        (
          record { type_is = refl; size_is = refl; no_recs0 = refl; no_recs1 = refl },
          omega arith,
          refl,
          λ e. cc,
          omega arith,
          λ e. omega arith,
        ),
        (
          (
            record { type_is = refl; size_is = refl; no_recs0 = refl; no_recs1 = refl },
            refl,
            (omega arith, omega arith, omega arith),
            zero_ops-OpsFits,
            λ _. refl,
          ),
          (
            (
              record { type_is = refl; size_is = refl; no_recs0 = refl; no_recs1 = refl },
              refl,
              refl,
            ),
            tt,
          ),
        ),
      )

-- A packet that stops in the middle of a record.
parse_file_records-EndsWithin_example :
    EndsWithin 27 (parse_file_records (sixteen ++ eight ++ 1 ∷ 2 ∷ 3 ∷ []))
parse_file_records-EndsWithin_example =
    parse_file_records-EndsWithin (sixteen ++ eight ++ 1 ∷ 2 ∷ 3 ∷ [])

-- A time record of 24 bytes with 8 bytes of another record behind it.
abbrev short_time : Bytes
short_time = encode_common (header_of rec_type_time 1 24 0 0) ++ (sixteen ++ eight)

round-TakesTime_example : TakesTime short_time (round short_time)
unfolding encode_common read_common u8 u16 u32 be16 be32
round-TakesTime_example =
    round-TakesTime short_time (sixteen ++ eight) (header_of rec_type_time 1 24 0 0) refl refl
      (omega arith) (omega arith) (omega arith)
