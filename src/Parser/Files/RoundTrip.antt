-- ===== src/Parser/Files/RoundTrip.antt =====
-- `parseFileRecords` reads back what `encode_records` writes.
use xrootd_monitoring_shovel.Base.{
  ℕ, zero, suc, ◌+◌, ◌≤◌, ◌<◌, ◌≡◌, ap, ◌∙◌, List, [], ◌∷◌, ◌++◌, append-nil, append_assoc, some,
  arith, Bytes, length, length-append, le→ltb_false,
}
use xrootd_monitoring_shovel.Parser.Records.{FileHeader, FileRecord}
use xrootd_monitoring_shovel.Parser.FileRecords.{rec_type_time}
use xrootd_monitoring_shovel.Parser.Files.{
  round, next, done, parse_loop, skip_time, parse_file_records,
}
use xrootd_monitoring_shovel.Parser.Files.Encode.{
  encode_common, encode_record, encode_records, AllFit,
}
use xrootd_monitoring_shovel.Parser.Files.Rounds.{
  drop-of_length, read_common-framed, length-framed, drop-framed, round-encode_record,
  eight-le-length-encode_record,
}

parse_loop-next :
    (fuel : ℕ) (acc : List FileRecord) (r : FileRecord) (b rest : Bytes)
    → round b ≡ next (some r) rest
    → 0 < length b
    → parse_loop (suc fuel) acc b ≡ parse_loop fuel (acc ++ r ∷ []) rest
unfolding parse_loop
parse_loop-next fuel acc r [] rest e h = absurd (omega arith)
parse_loop-next fuel acc r (c ∷ cs) rest e h = ground arith

parse_loop-encode_records :
    (rs acc : List FileRecord) (fuel : ℕ)
    → AllFit rs
    → length (encode_records rs) ≤ fuel
    → parse_loop fuel acc (encode_records rs) ≡ done (acc ++ rs)
unfolding encode_records
parse_loop-encode_records [] acc fuel h f = unfold parse_loop in rw append-nil
parse_loop-encode_records (r ∷ rs) acc zero h f = absurd (
    omega (
      arith,
      length-append (encode_record r) (encode_records rs),
      eight-le-length-encode_record r h.0,
    ))
parse_loop-encode_records (r ∷ rs) acc (suc fuel) h f =
    let longer = length-append (encode_record r) (encode_records rs) in
    let some_bytes = eight-le-length-encode_record r h.0 in
    parse_loop-next fuel acc r _ (encode_records rs) (round-encode_record r (encode_records rs) h.0)
      (omega (arith, longer, some_bytes))
    ∙ parse_loop-encode_records rs (acc ++ r ∷ []) fuel h.1 (omega (arith, longer, some_bytes))
    ∙ ap done (append_assoc acc (r ∷ []) rs)

-- The first record of an f-stream packet, a time record of whatever length its size field gives.
module _ (h : FileHeader) (body rest : Bytes) where
  skip_time-encode_common :
      h.rec_type ≡ rec_type_time
      → h.rec_size ≡ 8 + length body
      → skip_time ((encode_common h ++ body) ++ rest) ≡ rest
  unfolding skip_time
  skip_time-encode_common t e = ground (
    arith,
    t,
    read_common-framed h body rest,
    drop-framed h body rest e,
    length-append (encode_common h ++ body) rest,
    length-framed h body rest e,
  )

-- A packet that holds a header of eight bytes, a time record and then any closes, opens and
-- disconnects that fit the format is read back as those records, in their order.
pub parse_file_records-encode_records :
    (front : Bytes) (h : FileHeader) (body : Bytes) (rs : List FileRecord)
    → length front ≡ 8
    → h.rec_type ≡ rec_type_time
    → h.rec_size ≡ 8 + length body
    → AllFit rs
    → parse_file_records (front ++ ((encode_common h ++ body) ++ encode_records rs)) ≡ done rs
unfolding parse_file_records
parse_file_records-encode_records front h body rs n t e fit =
    let tail = (encode_common h ++ body) ++ encode_records rs in
    let total = length-append front tail in
    rw
      (
        le→ltb_false (length (front ++ tail)) 8 (omega (arith, total)),
        drop-of_length 8 front tail n,
        skip_time-encode_common h body (encode_records rs) t e,
      )
      (parse_loop-encode_records rs [] _ fit
        (omega (arith, total, length-append (encode_common h ++ body) (encode_records rs))))
