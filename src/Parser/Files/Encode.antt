-- ===== src/Parser/Files/Encode.antt =====
-- The file records as a server writes them, and which records the format can carry.
use xrootd_monitoring_shovel.Base.{
  ℕ, ◌+◌, ◌≤◌, ◌≡◌, ◌≢◌, false, List, [], ◌∷◌, ◌++◌, Bytes, pos, length, if◌then◌else◌,
}
use xrootd_monitoring_shovel.Parser.Records.{
  FileHeader, StatXfr, StatOps, FileCloseRecord, FileOpenRecord, FileRecord, time_record,
  close_record, open_record, disconnect_record, zero_ops,
}
use xrootd_monitoring_shovel.Parser.Wire.{
  be16, be32, be64, of_int16, of_int32, of_int64, InInt16, InInt32, InInt64,
}
use xrootd_monitoring_shovel.Parser.FileRecords.{
  rec_type_close, rec_type_open, rec_type_disc, has_ops, has_user,
}

unfoldable pub encode_common : FileHeader → Bytes
encode_common h = h.rec_type ∷ h.rec_flag ∷ (be16 h.rec_size ++ be32 h.file_id)

unfoldable pub encode_xfr : StatXfr → Bytes
encode_xfr x = be64 (of_int64 x.read) ++ (be64 (of_int64 x.readv) ++ be64 (of_int64 x.write))

unfoldable pub encode_ops : StatOps → Bytes
encode_ops o =
    be32 (of_int32 o.read)
    ++ (be32 (of_int32 o.readv)
        ++ (be32 (of_int32 o.write)
            ++ (be16 (of_int16 o.rs_min)
                ++ (be16 (of_int16 o.rs_max)
                    ++ (be64 (of_int64 o.rsegs)
                        ++ (be32 (of_int32 o.rd_min)
                            ++ (be32 (of_int32 o.rd_max)
                                ++ (be32 (of_int32 o.rv_min)
                                    ++ (be32 (of_int32 o.rv_max)
                                        ++ (be32 (of_int32 o.wr_min)
                                            ++ be32 (of_int32 o.wr_max)))))))))))

-- The statistics behind a close record's header are there if the flag says so.
unfoldable pub encode_record : FileRecord → Bytes
encode_record (time_record r) = []
encode_record (close_record r) =
    encode_common r.header
    ++ (encode_xfr r.xfr ++ (if has_ops r.header.rec_flag then encode_ops r.ops else []))
encode_record (open_record r) =
    encode_common r.header
    ++ (be64 (of_int64 r.file_size)
        ++ ((if has_user r.header.rec_flag then be32 r.user else []) ++ r.lfn))
encode_record (disconnect_record r) = encode_common r.header

unfoldable pub encode_records : List FileRecord → Bytes
encode_records [] = []
encode_records (r ∷ rs) = encode_record r ++ encode_records rs

-- A header of the given type, whose size field is n and whose fields of other records are zero.
pub record HeaderFits (type n : ℕ) (h : FileHeader) : Type 0 where
  pub type_is : h.rec_type ≡ type
  pub size_is : h.rec_size ≡ n
  pub no_recs0 : h.n_recs0 ≡ pos 0
  pub no_recs1 : h.n_recs1 ≡ pos 0

pub record OpsFits (o : StatOps) : Type 0 where
  pub read : InInt32 o.read
  pub readv : InInt32 o.readv
  pub write : InInt32 o.write
  pub rs_min : InInt16 o.rs_min
  pub rs_max : InInt16 o.rs_max
  pub rsegs : InInt64 o.rsegs
  pub rd_min : InInt32 o.rd_min
  pub rd_max : InInt32 o.rd_max
  pub rv_min : InInt32 o.rv_min
  pub rv_max : InInt32 o.rv_max
  pub wr_min : InInt32 o.wr_min
  pub wr_max : InInt32 o.wr_max

abbrev pub XfrFits : StatXfr → Type 0
XfrFits x = InInt64 x.read × InInt64 x.readv × InInt64 x.write

-- A name that does not end in a null byte.
abbrev pub EndsClean : Bytes → Type 0
EndsClean [] = Unit
EndsClean (c ∷ []) = c ≢ 0
EndsClean (c ∷ d ∷ ds) = EndsClean (d ∷ ds)

-- The sizes of a close record without and with statistics, and of an open record.
abbrev pub CloseFits : FileCloseRecord → Type 0
CloseFits r =
    HeaderFits rec_type_close (if has_ops r.header.rec_flag then 80 else 32) r.header
    × (r.header.user_id ≡ 0)
    × XfrFits r.xfr
    × OpsFits r.ops
    × (has_ops r.header.rec_flag ≡ false → r.ops ≡ zero_ops)

abbrev pub OpenFits : FileOpenRecord → Type 0
OpenFits r =
    HeaderFits rec_type_open ((if has_user r.header.rec_flag then 20 else 16) + length r.lfn)
      r.header
    × (r.header.rec_size ≤ 16384)
    × (r.header.user_id ≡ r.user)
    × (has_user r.header.rec_flag ≡ false → r.user ≡ 0)
    × InInt64 r.file_size
    × EndsClean r.lfn

abbrev pub RecordFits : FileRecord → Type 0
RecordFits (time_record r) = ⊥
RecordFits (close_record r) = CloseFits r
RecordFits (open_record r) = OpenFits r
RecordFits (disconnect_record r) =
    HeaderFits rec_type_disc 8 r.header × (r.header.user_id ≡ 0) × (r.user_id ≡ r.header.file_id)

abbrev pub AllFit : List FileRecord → Type 0
AllFit [] = Unit
AllFit (r ∷ rs) = RecordFits r × AllFit rs
