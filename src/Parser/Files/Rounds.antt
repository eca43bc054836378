-- ===== src/Parser/Files/Rounds.antt =====
-- One round of the loop reads back one record that the format can carry.
use xrootd_monitoring_shovel.Base.{
  ℕ, ◌+◌, ◌≤◌, ◌≡◌, refl, sym, ap, ◌∙◌, Bool, true, false, [], ◌++◌, append-nil, append_assoc, some,
  arith, Bytes, length, drop, length-append, drop-append, if◌then◌else◌,
}
use xrootd_monitoring_shovel.Parser.Records.{
  FileHeader, StatOps, FileCloseRecord, FileOpenRecord, FileDisconnectRecord, FileRecord,
  time_record, close_record, open_record, disconnect_record,
}
use xrootd_monitoring_shovel.Parser.Wire.{be32, be64, of_int64}
use xrootd_monitoring_shovel.Parser.FileRecords.{read_common, has_ops, has_user}
use xrootd_monitoring_shovel.Parser.Files.{dispatch, checked, round, next}
use xrootd_monitoring_shovel.Parser.Files.Encode.{
  encode_common, encode_xfr, encode_ops, encode_record, CloseFits, OpenFits, RecordFits,
}
use xrootd_monitoring_shovel.Parser.Files.Fields.{
  plain, read_common-encode_common, length-encode_common, length-encode_xfr, length-encode_ops,
  read_close-encode, read_open-encode, user_bytes,
}

pub round-checked :
    (h : FileHeader) (b r : Bytes) → read_common b ≡ some (h, r) → round b ≡ checked h b
unfolding round
round-checked h b r e = rw (e, round)

pub checked-dispatch :
    (h : FileHeader) (b : Bytes)
    → 8 ≤ h.rec_size
    → h.rec_size ≤ 16384
    → h.rec_size ≤ length b
    → checked h b ≡ dispatch h b
unfolding checked
checked-dispatch h b l m n = ground arith

pub drop-of_length : (n : ℕ) (xs ys : Bytes) → length xs ≡ n → drop n (xs ++ ys) ≡ ys
drop-of_length n xs ys e = rw (← e) (drop-append xs ys)

module _ (h : FileHeader) (body rest : Bytes) where
  pub read_common-framed :
      read_common ((encode_common h ++ body) ++ rest) ≡ some (plain h, body ++ rest)
  read_common-framed = rw append_assoc (read_common-encode_common h (body ++ rest))

  -- A record whose size field is right passes the checks in front of the switch.
  pub round-framed :
      h.rec_size ≡ 8 + length body
      → h.rec_size ≤ 16384
      → round ((encode_common h ++ body) ++ rest)
        ≡ dispatch (plain h) ((encode_common h ++ body) ++ rest)
  round-framed e l =
      round-checked (plain h) _ (body ++ rest) read_common-framed
      ∙ checked-dispatch (plain h) _ (omega arith) l (
          omega (
            arith,
            length-append (encode_common h ++ body) rest,
            length-append (encode_common h) body,
            length-encode_common h,
          ))

  pub length-framed : h.rec_size ≡ 8 + length body → length (encode_common h ++ body) ≡ h.rec_size
  length-framed e = omega (arith, length-append (encode_common h) body, length-encode_common h)

  pub drop-framed :
      h.rec_size ≡ 8 + length body → drop h.rec_size ((encode_common h ++ body) ++ rest) ≡ rest
  drop-framed e = drop-of_length h.rec_size (encode_common h ++ body) rest (length-framed e)

pub length-if_ops :
    (b : Bool) (o : StatOps) → length (if b then encode_ops o else []) ≡ (if b then 48 else 0)
length-if_ops true o = length-encode_ops o
length-if_ops false o = refl

pub round_close :
    (r : FileCloseRecord) (rest : Bytes)
    → CloseFits r
    → round (encode_record (close_record r) ++ rest) ≡ next (some (close_record r)) rest
unfolding encode_record dispatch
round_close r rest c =
    let body = encode_xfr r.xfr ++ (if has_ops r.header.rec_flag then encode_ops r.ops else []) in
    let size : r.header.rec_size ≡ 8 + length body = ground (
      arith,
      c.0.size_is,
      length-append (encode_xfr r.xfr) (if has_ops r.header.rec_flag then encode_ops r.ops else []),
      length-encode_xfr r.xfr,
      length-if_ops (has_ops r.header.rec_flag) r.ops,
    ) in
    let small : r.header.rec_size ≤ 16384 = ground (arith, c.0.size_is) in
    round-framed r.header body rest size small
    ∙ ground (arith, c.0.type_is, read_close-encode r rest c, drop-framed r.header body rest size)

pub length-open_body :
    (b : Bool) (n u : ℕ) (lfn : Bytes)
    → length (be64 n ++ (user_bytes b u ++ lfn)) ≡ (if b then 12 else 8) + length lfn
unfolding be64 be32
length-open_body true n u lfn = omega arith
length-open_body false n u lfn = omega arith

pub round_open :
    (r : FileOpenRecord) (rest : Bytes)
    → OpenFits r
    → round (encode_record (open_record r) ++ rest) ≡ next (some (open_record r)) rest
unfolding encode_record dispatch
round_open r rest c =
    let flag = has_user r.header.rec_flag in
    let body = be64 (of_int64 r.file_size) ++ (user_bytes flag r.user ++ r.lfn) in
    let size : r.header.rec_size ≡ 8 + length body =
      ground (arith, c.0.size_is, length-open_body flag (of_int64 r.file_size) r.user r.lfn) in
    round-framed r.header body rest size c.1
    ∙ ground (arith, c.0.type_is, read_open-encode r rest c, drop-framed r.header body rest size)

pub round_disconnect :
    (r : FileDisconnectRecord) (rest : Bytes)
    → RecordFits (disconnect_record r)
    → round (encode_record (disconnect_record r) ++ rest) ≡ next (some (disconnect_record r)) rest
unfolding encode_record dispatch
round_disconnect r rest (f, u, e) =
    ap (λ (b : Bytes). round (b ++ rest)) (sym (append-nil (encode_common r.header)))
    ∙ round-framed r.header [] rest f.size_is (omega (arith, f.size_is))
    ∙ ground (
      arith,
      f.type_is,
      f.no_recs0,
      f.no_recs1,
      append-nil (encode_common r.header),
      drop-framed r.header [] rest f.size_is,
    )

pub round-encode_record :
    (r : FileRecord) (rest : Bytes)
    → RecordFits r
    → round (encode_record r ++ rest) ≡ next (some r) rest
round-encode_record (time_record r) rest h = absurd h
round-encode_record (close_record r) rest h = round_close r rest h
round-encode_record (open_record r) rest h = round_open r rest h
round-encode_record (disconnect_record r) rest h = round_disconnect r rest h

-- A record is not empty on the wire.
pub eight-le-length-encode_record : (r : FileRecord) → RecordFits r → 8 ≤ length (encode_record r)
unfolding encode_record
eight-le-length-encode_record (time_record r) h = absurd h
eight-le-length-encode_record (close_record r) h =
    omega (arith, length-append (encode_common r.header) _, length-encode_common r.header)
eight-le-length-encode_record (open_record r) h =
    omega (arith, length-append (encode_common r.header) _, length-encode_common r.header)
eight-le-length-encode_record (disconnect_record r) h = omega (arith, length-encode_common r.header)
