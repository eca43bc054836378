-- ===== src/Parser/FileRecords.antt =====
-- The reads of the single records of f-stream packets in `parseFileRecords` of
-- parser/xrootd_parser.go.
use xrootd_monitoring_shovel.Base.{
  ℕ, ◌-◌, Bool, not, ◌&&◌, [], ◌∷◌, Option, none, some, Bytes, pos, to_int16, to_int32, to_int64,
  length, take, leb, ◌==◌, if◌then◌else◌, bit_and,
}
use xrootd_monitoring_shovel.Parser.Records.{
  FileHeader, FileTimeRecord, StatXfr, StatOps, FileCloseRecord, FileOpenRecord, zero_ops,
}
use xrootd_monitoring_shovel.Parser.Wire.{◌>>=◌, u8, u16, u32, u64}

abbrev pub rec_type_close : ℕ
rec_type_close = 0

abbrev pub rec_type_open : ℕ
rec_type_open = 1

abbrev pub rec_type_time : ℕ
rec_type_time = 2

abbrev pub rec_type_disc : ℕ
rec_type_disc = 4

-- `binaryFileHeaderCommon`, as a file header whose other fields are zero.
unfoldable pub read_common : Bytes → Option (FileHeader × Bytes)
read_common b = do
  (t, b) ← u8 b
  (f, b) ← u8 b
  (s, b) ← u16 b
  (i, b) ← u32 b
  some (
    record {
      rec_type = t;
      rec_flag = f;
      rec_size = s;
      file_id = i;
      user_id = 0;
      n_recs0 = pos 0;
      n_recs1 = pos 0;
    },
    b,
  )

-- `case RecTypeTime`: 28 bytes, whatever the record's size says.
unfoldable pub read_time : Bytes → Option (FileTimeRecord × Bytes)
read_time b = do
  (h, b) ← read_common b
  (n0, b) ← u16 b
  (n1, b) ← u16 b
  (t0, b) ← u32 b
  (t1, b) ← u32 b
  (s, b) ← u64 b
  some (
    record {
      header = record h { n_recs0 = to_int16 n0; n_recs1 = to_int16 n1 };
      t_beg = to_int32 t0;
      t_end = to_int32 t1;
      sid = to_int64 s;
    },
    b,
  )

unfoldable pub read_xfr : Bytes → Option (StatXfr × Bytes)
read_xfr b = do
  (r, b) ← u64 b
  (v, b) ← u64 b
  (w, b) ← u64 b
  some (record { read = to_int64 r; readv = to_int64 v; write = to_int64 w }, b)

unfoldable pub read_ops : Bytes → Option (StatOps × Bytes)
read_ops b = do
  (r, b) ← u32 b
  (v, b) ← u32 b
  (w, b) ← u32 b
  (smin, b) ← u16 b
  (smax, b) ← u16 b
  (segs, b) ← u64 b
  (rmin, b) ← u32 b
  (rmax, b) ← u32 b
  (vmin, b) ← u32 b
  (vmax, b) ← u32 b
  (wmin, b) ← u32 b
  (wmax, b) ← u32 b
  some (
    record {
      read = to_int32 r;
      readv = to_int32 v;
      write = to_int32 w;
      rs_min = to_int16 smin;
      rs_max = to_int16 smax;
      rsegs = to_int64 segs;
      rd_min = to_int32 rmin;
      rd_max = to_int32 rmax;
      rv_min = to_int32 vmin;
      rv_max = to_int32 vmax;
      wr_min = to_int32 wmin;
      wr_max = to_int32 wmax;
    },
    b,
  )

-- RecFlag & 0x02
abbrev pub has_ops : ℕ → Bool
has_ops flag = not (bit_and flag 0x02 == 0)

-- RecFlag & 0x01
abbrev pub has_user : ℕ → Bool
has_user flag = not (bit_and flag 0x01 == 0)

-- The statistics, if the flag and the bytes left allow them.
unfoldable pub close_ops : ℕ → Bytes → StatOps
close_ops flag b =
    if has_ops flag && leb 48 (length b)
    then elim (read_ops b) [ none ↦ zero_ops | some (ops, _) ↦ ops ]
    else zero_ops

-- `case RecTypeClose`
unfoldable pub read_close : Bytes → Option FileCloseRecord
read_close b = do
  (h, b) ← read_common b
  (x, b) ← read_xfr b
  some (record { header = h; xfr = x; ops = close_ops h.rec_flag b })

-- Trailing null bytes off.
unfoldable pub trim_nulls : Bytes → Bytes
trim_nulls [] = []
trim_nulls (c ∷ cs) = elim (trim_nulls cs) [
  | [] ↦ if c == 0 then [] else c ∷ []
  | d ∷ ds ↦ c ∷ d ∷ ds
]

-- The user id behind an open record's header, if the flag has it; 0 if not. A read that fails
-- has consumed all that was left.
unfoldable pub open_user : ℕ → Bytes → ℕ × Bytes
open_user flag b =
    if has_user flag then elim (u32 b) [ none ↦ (0, []) | some (u, b') ↦ (u, b') ] else (0, b)

-- The name in the bytes up to the record's end; `left` counts the bytes that the reader holds,
-- `total` those that it held at the record's start.
unfoldable pub open_lfn : ℕ → ℕ → Bytes → Bytes
open_lfn size total b =
    let lfn_len = size - (total - length b) in
    if leb lfn_len (length b) then trim_nulls (take lfn_len b) else []

-- `case RecTypeOpen`
unfoldable pub read_open : Bytes → Option FileOpenRecord
read_open start = do
  (h, b) ← read_common start
  (s, b) ← u64 b
  let (u, b') = open_user h.rec_flag b
  some (record {
    header = record h { user_id = u };
    file_size = to_int64 s;
    user = u;
    lfn = open_lfn h.rec_size (length start) b';
  })
