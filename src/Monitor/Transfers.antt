-- ===== src/Monitor/Transfers.antt =====
-- The paths of the cached files. An open record stores none, since the prefix that it computes goes
-- to another variable; only a dictionary packet stores one.
use xrootd_monitoring_shovel.Base.{
  if◌then◌else◌, ◌+◌, ◌*◌, ◌%◌, drop, ltb, length, if-elim, ℕ, refl, subst, sym, ◌≡◌, ◌≢◌, List, [],
  ◌∷◌, Option, none, some, Bytes, ◌==◌, ==_iff, Bool-cases, inl, inr,
}
use xrootd_monitoring_shovel.Parser.Wire.{u16}
use xrootd_monitoring_shovel.Monitor.Memory.{piece, minus16, Packet, plus32}
use xrootd_monitoring_shovel.Monitor.State.{
  Library, Monitor, CacheLaws, finished, failed, panicked, SummaryStat,
}
use xrootd_monitoring_shovel.Monitor.Users.{get_sid_rest, user_of_auth}
use xrootd_monitoring_shovel.Monitor.SameFiles.{summary_stats-SameFiles}
use xrootd_monitoring_shovel.Monitor.NoPath.{HasNoPathIn, HasNoPath, file_record-HasNoPath}
use xrootd_monitoring_shovel.Monitor.Rounds.{Leaves, record_loop-Leaves}
use xrootd_monitoring_shovel.Monitor.Loop.{record_loop, handle_f_stream}
use xrootd_monitoring_shovel.Monitor.Summary.{summary_stats, handle_summary_packet}
use xrootd_monitoring_shovel.Monitor.{handle_packet, handle_code, handle_login, starts_xml}

module _ (lib : Library) where
  handle_summary_packet-HasNoPath :
      (p : Packet) (s : Monitor lib)
      → HasNoPath lib s
      → Leaves lib (HasNoPath lib) (handle_summary_packet lib p s)
  unfolding handle_summary_packet
  handle_summary_packet-HasNoPath p s n = outer (lib.unmarshal p.content)
    where
      go :
          (o : Option (Monitor lib))
          → ((s' : Monitor lib) → o ≡ some s' → s'.transfers ≡ s.transfers)
          → Leaves lib (HasNoPath lib) (elim o [ none ↦ panicked | some s' ↦ finished s' ])
      go none same = tt
      go (some s') same = subst (HasNoPathIn lib) (sym (same s' refl)) n

      outer :
          (o : Option (List SummaryStat))
          → Leaves lib (HasNoPath lib) (elim o [
            | none ↦ failed s
            | some stats ↦ elim (summary_stats lib stats s) [
              | none ↦ panicked
              | some s' ↦ finished s'
            ]
          ])
      outer none = n
      outer (some stats) = go (summary_stats lib stats s) (summary_stats-SameFiles lib stats s)

  module _ (laws : CacheLaws lib.files) where
    handle_login-HasNoPath :
        (p : Packet) (plen : ℕ) (s : Monitor lib)
        → HasNoPath lib s
        → Leaves lib (HasNoPath lib) (handle_login lib p plen s)
    unfolding handle_login
    handle_login-HasNoPath p plen s n = go (piece p 12 (plus32 12 (minus16 plen 12)))
      where
        stored :
            (o : Option (ℕ × Bytes))
            → Leaves lib (HasNoPath lib) (elim o [
              | none ↦ failed s
              | some (user, auth) ↦
                  finished
                    (record s { sessions = lib.users.set user (user_of_auth auth) s.sessions })
            ])
        stored none = n
        stored (some (user, auth)) = n

        go :
            (o : Option Bytes)
            → Leaves lib (HasNoPath lib) (elim o [
              | none ↦ panicked
              | some info ↦ elim (get_sid_rest info) [
                | none ↦ failed s
                | some (user, auth) ↦
                    finished
                      (record s { sessions = lib.users.set user (user_of_auth auth) s.sessions })
              ]
            ])
        go none = tt
        go (some info) = stored (get_sid_rest info)

    handle_f_stream-HasNoPath :
        (fuel : ℕ) (p : Packet) (plen : ℕ) (s : Monitor lib)
        → HasNoPath lib s
        → Leaves lib (HasNoPath lib) (handle_f_stream lib fuel p plen s)
    unfolding handle_f_stream
    handle_f_stream-HasNoPath fuel p plen s n =
        if-elim (Leaves lib (HasNoPath lib)) (ltb (length p.content) 32) n
          (go (u16 (drop 10 p.content)))
      where
        go :
            (o : Option (ℕ × Bytes))
            → Leaves lib (HasNoPath lib) (elim o [
              | none ↦ panicked
              | some (first, _) ↦
                  let offset = (first + 8) % 0x10000 in
                  if ltb first 24
                  then failed s
                  else record_loop lib fuel p offset (minus16 plen offset) s
            ])
        go none = tt
        go (some (first, r)) =
            if-elim (Leaves lib (HasNoPath lib)) (ltb first 24) n (
              record_loop-Leaves lib (HasNoPath lib) (file_record-HasNoPath lib laws) fuel p _ _ s
                n)

    handle_code-HasNoPath :
        (fuel : ℕ) (paths : List (List Bytes)) (p : Packet) (code plen : ℕ) (s : Monitor lib)
        → code ≢ b'd'
        → HasNoPath lib s
        → Leaves lib (HasNoPath lib) (handle_code lib fuel paths p code plen s)
    unfolding handle_code
    handle_code-HasNoPath fuel paths p code plen s d n = elim (Bool-cases (code == b'd')) [
      | inl t ↦ absurd (d ((==_iff code b'd').0 t))
      | inr t ↦ rw t (
          if-elim (Leaves lib (HasNoPath lib)) (code == b'f')
            (handle_f_stream-HasNoPath fuel p plen s n)
            (if-elim (Leaves lib (HasNoPath lib)) (code == b'u') (handle_login-HasNoPath p plen s n)
              n))
    ]

    -- A packet of any kind but a dictionary packet leaves no path with a cached file, if no cached
    -- file had one: the paths of opens are lost.
    pub handle_packet-HasNoPath :
        (fuel : ℕ) (paths : List (List Bytes)) (p : Packet) (s : Monitor lib)
        → ((rest : Bytes) → p.content ≢ b'd' ∷ rest)
        → HasNoPath lib s
        → Leaves lib (HasNoPath lib) (handle_packet lib fuel paths p s)
    unfolding handle_packet
    handle_packet-HasNoPath fuel paths p s d n =
        if-elim (Leaves lib (HasNoPath lib)) (starts_xml p.content)
          (handle_summary_packet-HasNoPath p s n)
          (if-elim (Leaves lib (HasNoPath lib)) (ltb (length p.content) 8) n (go p.content d))
      where
        go :
            (c : Bytes)
            → ((rest : Bytes) → c ≢ b'd' ∷ rest)
            → Leaves lib (HasNoPath lib) (elim c [
              | code ∷ pseq ∷ high ∷ low ∷ stod ↦
                  handle_code lib fuel paths p code (high * 256 + low) s
              | _ ↦ panicked
            ])
        go (code ∷ pseq ∷ high ∷ low ∷ stod) d =
            handle_code-HasNoPath fuel paths p code _ s
              (λ e. d (pseq ∷ high ∷ low ∷ stod) (rw e refl)) n
        go [] d = tt
        go (_ ∷ []) d = tt
        go (_ ∷ _ ∷ []) d = tt
        go (_ ∷ _ ∷ _ ∷ []) d = tt
