-- ===== src/Monitor/NoPath.antt =====
-- What the f-stream records of HandlePacket of metrics/xrootd_metrics.go do to the paths of the
-- cached files.
use xrootd_monitoring_shovel.Base.{
  if-elim, ℕ, refl, subst, sym, ◌≡◌, [], Option, some, ◌==◌, ==_iff, arith, Bool-cases,
  Option-cases, inl, inr,
}
use xrootd_monitoring_shovel.Parser.Wire.{>>=-some, some-injective}
use xrootd_monitoring_shovel.Monitor.Memory.{Packet, plus32, word32, word64}
use xrootd_monitoring_shovel.Monitor.State.{Library, Monitor, FileRecord, CacheLaws}
use xrootd_monitoring_shovel.Monitor.Files.{
  FileHeader, empty_file, or_empty, read_lfn, close_record, open_record, xfr_record, file_record,
}
use xrootd_monitoring_shovel.Monitor.SameFiles.{close_record-transfers}

module _ (lib : Library) where
  -- No cached file has a path.
  abbrev pub HasNoPathIn : lib.files.C → Type 0
  HasNoPathIn c = (k : ℕ) (f : FileRecord) → lib.files.get k c ≡ some f → f.path ≡ []

  abbrev pub HasNoPath : Monitor lib → Type 0
  HasNoPath s = HasNoPathIn s.transfers

  module _ (laws : CacheLaws lib.files) where
    set-HasNoPathIn :
        (k : ℕ) (f : FileRecord) (c : lib.files.C)
        → f.path ≡ []
        → HasNoPathIn c
        → HasNoPathIn (lib.files.set k f c)
    set-HasNoPathIn k f c h n j g e = elim (Bool-cases (j == k)) [
      | inl t ↦ let same : j ≡ k = (==_iff j k).0 t in ground (arith, laws.get-set k f c)
      | inr t ↦ n j g (rw (← laws.get-set_other j k f c (λ same. absurd (ground arith))) e)
    ]

    touch-HasNoPathIn :
        (k : ℕ) (c : lib.files.C) → HasNoPathIn c → HasNoPathIn (lib.files.touch k c)
    touch-HasNoPathIn k c n j g e = n j g (rw (← laws.get-touch j k c) e)

    delete-HasNoPathIn :
        (k : ℕ) (c : lib.files.C) → HasNoPathIn c → HasNoPathIn (lib.files.delete k c)
    delete-HasNoPathIn k c n j g e = elim (Bool-cases (j == k)) [
      | inl t ↦ let same : j ≡ k = (==_iff j k).0 t in absurd (ground (arith, laws.get-delete k c))
      | inr t ↦ n j g (rw (← laws.get-delete_other j k c (λ same. absurd (ground arith))) e)
    ]

    or_empty-path :
        (k : ℕ) (c : lib.files.C) → HasNoPathIn c → (or_empty (lib.files.get k c)).path ≡ []
    unfolding or_empty empty_file
    or_empty-path k c n = elim (Option-cases (lib.files.get k c)) [
      | inl e ↦ rw e refl
      | inr (f, e) ↦ rw e (n k f e)
    ]

    close_record-HasNoPath :
        (p : Packet) (offset : ℕ) (h : FileHeader) (s s' : Monitor lib)
        → close_record lib p offset h s ≡ some s'
        → HasNoPath s
        → HasNoPath s'
    close_record-HasNoPath p offset h s s' e n =
        subst HasNoPathIn (sym (close_record-transfers lib p offset h s s' e))
          (delete-HasNoPathIn _ _ (touch-HasNoPathIn _ _ n))

    open_record-HasNoPath :
        (p : Packet) (offset : ℕ) (h : FileHeader) (s s' : Monitor lib)
        → open_record lib p offset h s ≡ some s'
        → HasNoPath s
        → HasNoPath s'
    unfolding open_record empty_file
    open_record-HasNoPath p offset h s s' e n =
        let (lfn, _, e) = >>=-some (read_lfn lib p offset h) _ s' e in
        let (user, _, e) = >>=-some (word32 p (plus32 offset 16) (plus32 offset 20)) _ s' e in
        subst HasNoPath (some-injective e) (set-HasNoPathIn _ _ _ refl n)

    xfr_record-HasNoPath :
        (p : Packet) (offset : ℕ) (h : FileHeader) (s s' : Monitor lib)
        → xfr_record lib p offset h s ≡ some s'
        → HasNoPath s
        → HasNoPath s'
    unfolding xfr_record
    xfr_record-HasNoPath p offset h s s' e n =
        let (reads, _, e) = >>=-some (word64 p (plus32 offset 8) (plus32 offset 16)) _ s' e in
        let (readvs, _, e) = >>=-some (word64 p (plus32 offset 16) (plus32 offset 24)) _ s' e in
        let (writes, _, e) = >>=-some (word64 p (plus32 offset 24) (plus32 offset 32)) _ s' e in
        subst HasNoPath (some-injective e)
          (set-HasNoPathIn _ _ _ (or_empty-path h.file_id s.transfers n) (touch-HasNoPathIn _ _ n))

    pub file_record-HasNoPath :
        (p : Packet) (offset : ℕ) (h : FileHeader) (s s' : Monitor lib)
        → file_record lib p offset h s ≡ some s'
        → HasNoPath s
        → HasNoPath s'
    unfolding file_record
    file_record-HasNoPath p offset h s s' =
        let Keeps : Option (Monitor lib) → Type 0 = λ o. o ≡ some s' → HasNoPath s → HasNoPath s' in
        if-elim Keeps (h.rec_type == 0) (close_record-HasNoPath p offset h s s') (
          if-elim Keeps (h.rec_type == 1) (open_record-HasNoPath p offset h s s') (
            if-elim Keeps (h.rec_type == 3) (xfr_record-HasNoPath p offset h s s') (
              if-elim Keeps (h.rec_type == 4) (λ e. subst HasNoPath (some-injective e))
                (λ e. subst HasNoPath (some-injective e)))))
