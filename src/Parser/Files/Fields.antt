-- ===== src/Parser/Files/Fields.antt =====
-- The parts of a file record are read back as they were written.
use xrootd_monitoring_shovel.Base.{
  ℕ, ◌+◌, ◌-◌, ◌≡◌, refl, inl, inr, ◌∙◌, Bool, true, false, [], ◌∷◌, ◌++◌, append_assoc, some,
  arith, Bytes, pos, to_int64, length, length-append, le→leb, take-append, Bool-cases,
  if◌then◌else◌,
}
use xrootd_monitoring_shovel.Parser.Records.{
  FileHeader, StatXfr, StatOps, FileCloseRecord, FileOpenRecord, close_record, open_record,
  zero_ops,
}
use xrootd_monitoring_shovel.Parser.Wire.{
  u8, u64, be16, be32, be64, u16-be16, u32-be32, u64-be64, of_int64, to_int16-of_int16,
  to_int32-of_int32, to_int64-of_int64,
}
use xrootd_monitoring_shovel.Parser.FileRecords.{
  read_common, read_xfr, read_ops, read_close, read_open, close_ops, open_user, open_lfn,
  trim_nulls, has_ops, has_user,
}
use xrootd_monitoring_shovel.Parser.Files.Encode.{
  encode_common, encode_xfr, encode_ops, encode_record, OpsFits, XfrFits, EndsClean, CloseFits,
  OpenFits,
}

-- The part of a header that is on the wire.
abbrev pub plain : FileHeader → FileHeader
plain h = record h { user_id = 0; n_recs0 = pos 0; n_recs1 = pos 0 }

pub read_common-encode_common :
    (h : FileHeader) (r : Bytes) → read_common (encode_common h ++ r) ≡ some (plain h, r)
unfolding read_common encode_common u8
read_common-encode_common h r = rw (append_assoc, u16-be16, u32-be32)

pub read_xfr-encode_xfr :
    (x : StatXfr) (r : Bytes) → XfrFits x → read_xfr (encode_xfr x ++ r) ≡ some (x, r)
unfolding read_xfr encode_xfr
read_xfr-encode_xfr x r (a, b, c) =
    simp (append_assoc, u64-be64)
      (ground (
        arith,
        to_int64-of_int64 x.read a,
        to_int64-of_int64 x.readv b,
        to_int64-of_int64 x.write c,
      ))

pub read_ops-encode_ops :
    (o : StatOps) (r : Bytes) → OpsFits o → read_ops (encode_ops o ++ r) ≡ some (o, r)
unfolding read_ops encode_ops
read_ops-encode_ops o r f =
    simp (append_assoc, u64-be64, u32-be32, u16-be16)
      (rw (
        to_int32-of_int32 o.read f.read,
        to_int32-of_int32 o.readv f.readv,
        to_int32-of_int32 o.write f.write,
        to_int16-of_int16 o.rs_min f.rs_min,
        to_int16-of_int16 o.rs_max f.rs_max,
        to_int64-of_int64 o.rsegs f.rsegs,
        to_int32-of_int32 o.rd_min f.rd_min,
        to_int32-of_int32 o.rd_max f.rd_max,
        to_int32-of_int32 o.rv_min f.rv_min,
        to_int32-of_int32 o.rv_max f.rv_max,
        to_int32-of_int32 o.wr_min f.wr_min,
        to_int32-of_int32 o.wr_max f.wr_max,
      ))

pub length-encode_common : (h : FileHeader) → length (encode_common h) ≡ 8
unfolding encode_common be16 be32
length-encode_common h = refl

pub length-encode_xfr : (x : StatXfr) → length (encode_xfr x) ≡ 24
unfolding encode_xfr be64 be32
length-encode_xfr x = refl

pub length-encode_ops : (o : StatOps) → length (encode_ops o) ≡ 48
unfolding encode_ops be64 be32 be16
length-encode_ops o = refl

pub trim_nulls-EndsClean : (b : Bytes) → EndsClean b → trim_nulls b ≡ b
unfolding trim_nulls
trim_nulls-EndsClean [] h = refl
trim_nulls-EndsClean (c ∷ []) h = ground arith
trim_nulls-EndsClean (c ∷ d ∷ ds) h = rw (trim_nulls-EndsClean (d ∷ ds) h)

pub close_ops-encode_ops :
    (flag : ℕ) (o : StatOps) (rest : Bytes)
    → OpsFits o
    → (has_ops flag ≡ false → o ≡ zero_ops)
    → close_ops flag ((if has_ops flag then encode_ops o else []) ++ rest) ≡ o
unfolding close_ops
close_ops-encode_ops flag o rest f z = elim (Bool-cases (has_ops flag)) [
  | inl e ↦
      ground (
        arith,
        read_ops-encode_ops o rest f,
        length-append (encode_ops o) rest,
        length-encode_ops o,
      )
  | inr e ↦ ground (arith, z e)
]

pub read_close-encode :
    (r : FileCloseRecord) (rest : Bytes)
    → CloseFits r
    → read_close (encode_record (close_record r) ++ rest) ≡ some r
unfolding read_close encode_record
read_close-encode r rest (f, u, x, o, z) =
    rw (append_assoc, read_common-encode_common, append_assoc, read_xfr-encode_xfr r.xfr _ x)
      (ground
        (arith, close_ops-encode_ops r.header.rec_flag r.ops rest o z, f.no_recs0, f.no_recs1))

pub open_lfn_lem :
    (size before : ℕ) (lfn rest : Bytes)
    → EndsClean lfn
    → size ≡ before + length lfn
    → open_lfn size (before + length (lfn ++ rest)) (lfn ++ rest) ≡ lfn
unfolding open_lfn
open_lfn_lem size before lfn rest clean e =
    let n : size - (before + length (lfn ++ rest) - length (lfn ++ rest)) ≡ length lfn =
      omega arith in
    rw
      (
        n,
        le→leb (length lfn) (length (lfn ++ rest)) (omega (arith, length-append lfn rest)),
        take-append lfn rest,
      )
      (trim_nulls-EndsClean lfn clean)

abbrev pub user_bytes : Bool → ℕ → Bytes
user_bytes b u = if b then be32 u else []

pub length-user_bytes : (b : Bool) (u : ℕ) → length (user_bytes b u) ≡ (if b then 4 else 0)
unfolding be32
length-user_bytes true u = refl
length-user_bytes false u = refl

pub open_user_lem :
    (flag u : ℕ) (rest : Bytes)
    → (has_user flag ≡ false → u ≡ 0)
    → open_user flag (user_bytes (has_user flag) u ++ rest) ≡ (u, rest)
unfolding open_user
open_user_lem flag u rest z = elim (Bool-cases (has_user flag)) [
  | inl e ↦ rw e (ground (arith, u32-be32 u rest))
  | inr e ↦ rw (e, z e) refl
]

pub length-encode_open :
    (r : FileOpenRecord) (rest : Bytes)
    → length (encode_record (open_record r) ++ rest)
      ≡ (if has_user r.header.rec_flag then 20 else 16) + length (r.lfn ++ rest)
unfolding encode_record be64 be32 encode_common be16
length-encode_open r rest = elim (Bool-cases (has_user r.header.rec_flag)) [
  | inl e ↦ rw e (omega arith)
  | inr e ↦ rw e (omega arith)
]

pub read_open_parts :
    (h : FileHeader) (start b b' b'' : Bytes) (s u : ℕ)
    → read_common start ≡ some (h, b)
    → u64 b ≡ some (s, b')
    → open_user h.rec_flag b' ≡ (u, b'')
    → read_open start
      ≡ some (record {
        header = record h { user_id = u };
        file_size = to_int64 s;
        user = u;
        lfn = open_lfn h.rec_size (length start) b'';
      })
unfolding read_open
read_open_parts h start b b' b'' s u p q r = rw (p, q, r)

pub read_open-encode :
    (r : FileOpenRecord) (rest : Bytes)
    → OpenFits r
    → read_open (encode_record (open_record r) ++ rest) ≡ some r
unfolding encode_record
read_open-encode r rest (f, l, u, z, s, clean) =
    let named = user_bytes (has_user r.header.rec_flag) r.user in
    let sized = be64 (of_int64 r.file_size) ++ (named ++ (r.lfn ++ rest)) in
    read_open_parts (plain r.header) (encode_record (open_record r) ++ rest) sized
      (named ++ (r.lfn ++ rest)) (r.lfn ++ rest) (of_int64 r.file_size) r.user
      (simp append_assoc (read_common-encode_common r.header sized))
      (u64-be64 (of_int64 r.file_size) (named ++ (r.lfn ++ rest)))
      (open_user_lem r.header.rec_flag r.user (r.lfn ++ rest) z)
    ∙ rw (length-encode_open r rest, open_lfn_lem _ _ r.lfn rest clean f.size_is)
        (ground (arith, to_int64-of_int64 r.file_size s, f.no_recs0, f.no_recs1))
