-- ===== src/Monitor/Files.antt =====
-- `ParseFileHeader`, `NullTermToString` and the cases of the f-stream records in HandlePacket, of
-- metrics/xrootd_metrics.go. `none` is a panic of the code, from a slice out of range or from a
-- counter that would go down.
use xrootd_monitoring_shovel.Base.{
  ℕ, Bool, true, false, ◌+◌, ◌*◌, ◌==◌, [], ◌∷◌, Option, none, some, Bytes, bytes, cut, ℤ, to_int32,
  to_int64, bit_and, if◌then◌else◌,
}
use xrootd_monitoring_shovel.Parser.Wire.{◌>>=◌}
use xrootd_monitoring_shovel.Monitor.Memory.{
  Packet, piece, plus32, minus16, minus32, minus64, widen, word32, word64,
}
use xrootd_monitoring_shovel.Monitor.State.{
  FileRecord, UserRecord, Labels, Kind, Counter, Library, Monitor,
}

-- RecSize is an int16, given by its word. NRecs0 and NRecs1 are not used.
pub record FileHeader : Type 0 where
  pub rec_type : ℕ
  pub rec_flag : ℕ
  pub rec_size : ℕ
  pub file_id : ℕ
  pub user_id : ℕ

unfoldable pub parse_file_header : Bytes → Option FileHeader
parse_file_header (t ∷ f ∷ s ∷ s' ∷ a ∷ b ∷ c ∷ d ∷ r) =
    let id = ((a * 256 + b) * 256 + c) * 256 + d in
    some
      (record { rec_type = t; rec_flag = f; rec_size = s * 256 + s'; file_id = id; user_id = id })
parse_file_header _ = none

unfoldable pub null_term_to_string : Bytes → Bytes
null_term_to_string b = elim (cut 0 b) [ none ↦ [] | some (text, rest) ↦ text ]

-- The record for a file that is not in the cache: its zero value.
unfoldable pub empty_file : FileRecord
empty_file = record {
  user_id = 0;
  path = [];
  read_ops = 0;
  readv_ops = 0;
  write_ops = 0;
  readv_segs = 0;
  read_bytes = 0;
  readv_bytes = 0;
  write_bytes = 0;
}

-- The cached record of a file, or the zero value.
unfoldable pub or_empty : Option FileRecord → FileRecord
unfolding empty_file
or_empty none = empty_file
or_empty (some f) = f

unfoldable pub no_labels : Labels
no_labels = record { path = bytes "/"; ap = []; dn = []; role = []; org = [] }

module _ (lib : Library) where
  -- counter.Add(float64(value))
  unfoldable pub count : Counter → ℤ → Monitor lib → Option (Monitor lib)
  count counter value s = elim (lib.registry.add counter value s.counters) [
    | none ↦ none
    | some r ↦ some (record s { counters = r })
  ]

  -- The labels of a close of a known file: its path, and its user's fields if the user is known.
  unfoldable pub labels_of : FileRecord → Option UserRecord → Labels
  unfolding no_labels
  labels_of f none = record no_labels { path = f.path }
  labels_of f (some u) = record {
    path = f.path;
    ap = u.authentication_protocol;
    dn = u.dn;
    role = u.role;
    org = u.org;
  }

  -- The labels for a close: those of a file in the cache, with its user's, or none.
  unfoldable pub close_labels : Option FileRecord → Monitor lib → Labels
  unfolding labels_of no_labels
  close_labels none s = no_labels
  close_labels (some f) s = labels_of f (lib.users.get f.user_id s.sessions)

  -- Get and Delete of the user of a file that is in the cache.
  unfoldable pub end_session : Option FileRecord → Monitor lib → Monitor lib
  end_session none s = s
  end_session (some f) s = record s {
    sessions = lib.users.delete f.user_id (lib.users.touch f.user_id s.sessions);
  }

  -- Get and Delete of the file.
  unfoldable pub drop_transfer : ℕ → Monitor lib → Monitor lib
  drop_transfer id s = record s { transfers = lib.files.delete id (lib.files.touch id s.transfers) }

  -- What a close with operation counts adds.
  unfoldable pub count_ops : Packet → ℕ → Labels → FileRecord → Monitor lib → Option (Monitor lib)
  unfolding count word32 word64
  count_ops p offset labels old s =
      let ops = plus32 offset 32 in
      do
        segs ← word64 p (plus32 ops 16) (plus32 ops 24)
        s ← count (Counter.transfer_readv_segs labels) (to_int64 (minus64 segs old.readv_segs)) s
        reads ← word32 p ops (plus32 ops 4)
        s ← count (Counter.transfer_ops labels Kind.read) (to_int32 (minus32 reads old.read_ops)) s
        readvs ← word32 p (plus32 ops 4) (plus32 ops 8)
        s ←
            count (Counter.transfer_ops labels Kind.readv) (to_int32 (minus32 readvs old.readv_ops))
              s
        writes ← word32 p (plus32 ops 8) (plus32 ops 12)
        count (Counter.transfer_ops labels Kind.write) (to_int32 (minus32 writes old.write_ops)) s

  -- What every close adds.
  unfoldable pub count_bytes : Packet → ℕ → Labels → FileRecord → Monitor lib → Option (Monitor lib)
  unfolding count word64
  count_bytes p offset labels old s =
      let xfr = plus32 offset 8 in
      do
        reads ← word64 p xfr (plus32 xfr 8)
        s ←
            count (Counter.transfer_bytes labels Kind.read)
              (to_int64 (minus64 reads old.read_bytes)) s
        readvs ← word64 p (plus32 xfr 8) (plus32 xfr 16)
        s ←
            count (Counter.transfer_bytes labels Kind.readv)
              (to_int64 (minus64 readvs old.readv_bytes)) s
        writes ← word64 p (plus32 xfr 16) (plus32 xfr 24)
        count (Counter.transfer_bytes labels Kind.write) (to_int64 (minus64 writes old.write_bytes))
            s

  -- What a close adds, with operation counts or without.
  unfoldable pub count_close :
      Bool → Packet → ℕ → Labels → FileRecord → Monitor lib → Option (Monitor lib)
  unfolding count_ops count_bytes
  count_close false p offset labels old s = count_bytes p offset labels old s
  count_close true p offset labels old s = do
    s ← count_ops p offset labels old s
    count_bytes p offset labels old s

  -- Case isClose; the flag 2 is hasOPS.
  unfoldable pub close_record : Packet → ℕ → FileHeader → Monitor lib → Option (Monitor lib)
  unfolding close_labels end_session drop_transfer or_empty count_close
  close_record p offset h s =
      let found = lib.files.get h.file_id s.transfers in
      count_close (bit_and h.rec_flag 2 == 2) p offset (close_labels found s) (or_empty found)
        (end_session found (drop_transfer h.file_id s))

  -- The slice of the file name, if the record has one: the flag 1 is hasLFN. The prefix that is
  -- computed from it goes to a variable of the inner block, so only the panic of the slice is left.
  unfoldable pub read_lfn : Packet → ℕ → FileHeader → Option Bytes
  unfolding piece null_term_to_string
  read_lfn p offset h =
      if bit_and h.rec_flag 1 == 1
      then (do
        b ← piece p (plus32 offset 20) (plus32 (plus32 offset (widen (minus16 h.rec_size 20))) 20)
        some (null_term_to_string b))
      else some []

  -- Case isOpen
  unfoldable pub open_record : Packet → ℕ → FileHeader → Monitor lib → Option (Monitor lib)
  unfolding read_lfn word32 empty_file
  open_record p offset h s = do
    lfn ← read_lfn p offset h
    user ← word32 p (plus32 offset 16) (plus32 offset 20)
    some (record s {
      transfers =
          lib.files.set h.file_id (record empty_file { user_id = user; path = [] }) s.transfers;
    })

  -- Case isXfr
  unfoldable pub xfr_record : Packet → ℕ → FileHeader → Monitor lib → Option (Monitor lib)
  unfolding word64 or_empty
  xfr_record p offset h s =
      let old = or_empty (lib.files.get h.file_id s.transfers) in
      do
        reads ← word64 p (plus32 offset 8) (plus32 offset 16)
        readvs ← word64 p (plus32 offset 16) (plus32 offset 24)
        writes ← word64 p (plus32 offset 24) (plus32 offset 32)
        some (record s {
          transfers =
              lib.files.set h.file_id
                (record old { read_bytes = reads; readv_bytes = readvs; write_bytes = writes })
                (lib.files.touch h.file_id s.transfers);
        })

  -- The switch on the record's type
  unfoldable pub file_record : Packet → ℕ → FileHeader → Monitor lib → Option (Monitor lib)
  unfolding close_record open_record xfr_record
  file_record p offset h s =
      if h.rec_type == 0
      then close_record p offset h s
      else if h.rec_type == 1
      then open_record p offset h s
      else if h.rec_type == 3
      then xfr_record p offset h s
      else if h.rec_type == 4
      then some (record s { sessions = lib.users.delete h.user_id s.sessions })
      else some s
