-- ===== src/Monitor/SameFiles.antt =====
-- The functions of metrics/xrootd_metrics.go that leave the cached files as they are, and what a
-- close does to them.
use xrootd_monitoring_shovel.Base.{
  ap, eqb, bytes, if-elim, bit_and, ℕ, ℤ, Bool, true, false, refl, ◌∙◌, sym, ◌≡◌, List, [], ◌∷◌,
  Option, none, some, ◌==◌, arith,
}
use xrootd_monitoring_shovel.Parser.Wire.{>>=-some, some-injective}
use xrootd_monitoring_shovel.Monitor.Memory.{Packet}
use xrootd_monitoring_shovel.Monitor.State.{
  Library, Monitor, FileRecord, Labels, Counter, SummaryStat,
}
use xrootd_monitoring_shovel.Monitor.Files.{
  FileHeader, count, end_session, drop_transfer, count_ops, count_bytes, count_close, close_record,
}
use xrootd_monitoring_shovel.Monitor.Summary.{
  read_connections, read_in_bytes, read_out_bytes, link_stat, summary_stat, summary_stats,
}

module _ (lib : Library) where
  pub count-SameFiles :
      (c : Counter) (v : ℤ) (s s' : Monitor lib)
      → count lib c v s ≡ some s'
      → s'.transfers ≡ s.transfers
  unfolding count
  count-SameFiles c v s s' e = ground arith

  pub count_ops-SameFiles :
      (p : Packet) (offset : ℕ) (l : Labels) (old : FileRecord) (s s' : Monitor lib)
      → count_ops lib p offset l old s ≡ some s'
      → s'.transfers ≡ s.transfers
  unfolding count_ops
  count_ops-SameFiles p offset l old s s' e = grind (arith, count-SameFiles)

  pub count_bytes-SameFiles :
      (p : Packet) (offset : ℕ) (l : Labels) (old : FileRecord) (s s' : Monitor lib)
      → count_bytes lib p offset l old s ≡ some s'
      → s'.transfers ≡ s.transfers
  unfolding count_bytes
  count_bytes-SameFiles p offset l old s s' e = grind (arith, count-SameFiles)

  pub count_close-SameFiles :
      (ops : Bool) (p : Packet) (offset : ℕ) (l : Labels) (old : FileRecord) (s s' : Monitor lib)
      → count_close lib ops p offset l old s ≡ some s'
      → s'.transfers ≡ s.transfers
  unfolding count_close
  count_close-SameFiles true p offset l old s s' e =
      let (s1, ops, rest) =
        >>=-some (count_ops lib p offset l old s) (count_bytes lib p offset l old) s' e in
      count_bytes-SameFiles p offset l old s1 s' rest ∙ count_ops-SameFiles p offset l old s s1 ops
  count_close-SameFiles false p offset l old s s' e = count_bytes-SameFiles p offset l old s s' e

  pub end_session-transfers :
      (o : Option FileRecord) (s : Monitor lib) → (end_session lib o s).transfers ≡ s.transfers
  unfolding end_session
  end_session-transfers none s = refl
  end_session-transfers (some f) s = refl

  pub close_record-transfers :
      (p : Packet) (offset : ℕ) (h : FileHeader) (s s' : Monitor lib)
      → close_record lib p offset h s ≡ some s'
      → s'.transfers ≡ lib.files.delete h.file_id (lib.files.touch h.file_id s.transfers)
  unfolding close_record drop_transfer
  close_record-transfers p offset h s s' e =
      let found = lib.files.get h.file_id s.transfers in
      count_close-SameFiles (bit_and h.rec_flag 2 == 2) p offset _ _ _ s' e
      ∙ end_session-transfers found (drop_transfer lib h.file_id s)

  pub read_connections-SameFiles :
      (n : ℤ) (s s' : Monitor lib) → read_connections lib n s ≡ some s' → s'.transfers ≡ s.transfers
  unfolding read_connections count
  read_connections-SameFiles n s s' e = ground arith

  pub read_in_bytes-SameFiles :
      (n : ℤ) (s s' : Monitor lib) → read_in_bytes lib n s ≡ some s' → s'.transfers ≡ s.transfers
  unfolding read_in_bytes count
  read_in_bytes-SameFiles n s s' e = ground arith

  pub read_out_bytes-SameFiles :
      (n : ℤ) (s s' : Monitor lib) → read_out_bytes lib n s ≡ some s' → s'.transfers ≡ s.transfers
  unfolding read_out_bytes count
  read_out_bytes-SameFiles n s s' e = ground arith

  pub link_stat-SameFiles :
      (x : SummaryStat) (s s' : Monitor lib)
      → link_stat lib x s ≡ some s'
      → s'.transfers ≡ s.transfers
  unfolding link_stat
  link_stat-SameFiles x s s' e =
      let (s1, a, e1) = >>=-some (read_connections lib x.link_connections s) _ s' e in
      let (s2, b, c) =
        >>=-some (read_in_bytes lib x.link_in_bytes s1) (read_out_bytes lib x.link_out_bytes) s'
          e1 in
      read_out_bytes-SameFiles _ s2 s' c
      ∙ read_in_bytes-SameFiles _ s1 s2 b
      ∙ read_connections-SameFiles _ s s1 a

  pub summary_stat-SameFiles :
      (x : SummaryStat) (s s' : Monitor lib)
      → summary_stat lib x s ≡ some s'
      → s'.transfers ≡ s.transfers
  unfolding summary_stat
  summary_stat-SameFiles x s s' =
      let Keeps : Option (Monitor lib) → Type 0 = λ o. o ≡ some s' → s'.transfers ≡ s.transfers in
      if-elim Keeps (eqb x.id (bytes "link")) (link_stat-SameFiles x s s') (
        if-elim Keeps (eqb x.id (bytes "sched"))
          (λ e. ap (λ (t : Monitor lib). t.transfers) (sym (some-injective e)))
          (λ e. ap (λ (t : Monitor lib). t.transfers) (sym (some-injective e))))

  pub summary_stats-SameFiles :
      (xs : List SummaryStat) (s s' : Monitor lib)
      → summary_stats lib xs s ≡ some s'
      → s'.transfers ≡ s.transfers
  unfolding summary_stats
  summary_stats-SameFiles [] s s' e = ap (λ (t : Monitor lib). t.transfers) (sym (some-injective e))
  summary_stats-SameFiles (x ∷ xs) s s' e =
      let (s1, a, e) = >>=-some (summary_stat lib x s) (summary_stats lib xs) s' e in
      summary_stats-SameFiles xs s1 s' e ∙ summary_stat-SameFiles x s s1 a
