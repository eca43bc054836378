-- ===== src/Input/Lines/Follows.antt =====
-- What FileReader sends behind the end of the file.
use xrootd_monitoring_shovel.Base.{
  ◌≡◌, refl, sym, subst, ap, ◌∙◌, inl, inr, Bool, true, false, List, [], ◌∷◌, Option, none, Bytes,
  arith, Bool-cases,
}
use xrootd_monitoring_shovel.Input.Rabbit.{PacketWithAddr, Codec}
use xrootd_monitoring_shovel.Input.Source.{returns, stop_source}
use xrootd_monitoring_shovel.Input.Source.Kept.{kept, kept-receive}
use xrootd_monitoring_shovel.Input.Lines.{
  Scanner, LineEvent, round, line_received, stop_reader, FileReader, at_end, after_scan, scan_round,
  on_line, run_lines,
}

module _ (scanner : Scanner) (codec : Codec) (base64_encoded follow : Bool) where
  open scanner use {S, scan, stops}

  abbrev Reader : Type 0
  Reader = FileReader scanner codec base64_encoded follow

  -- A Scan has found nothing.
  abbrev Ended : Reader → Type 0
  Ended r = (added : Bytes) × (s : S) × (scan added s ≡ (none, r.scanned))

  abbrev Silent : Reader → Reader → Type 0
  Silent r r' = (kept PacketWithAddr r'.source ≡ kept PacketWithAddr r.source) × Ended r'

  at_end-Silent : (r : Reader) → Ended r → Silent r (at_end scanner codec base64_encoded follow r)
  unfolding at_end returns
  at_end-Silent r e = ground arith

  scan_round-Silent :
      (added : Bytes) (b : Bool) (r : Reader)
      → Ended r
      → Silent r (scan_round scanner codec base64_encoded follow added b r)
  unfolding scan_round after_scan
  scan_round-Silent added b r (before, s, e) =
      let (s', e') = stops before added s r.scanned e in
      subst
        (λ (t : Option Bytes × S). Silent r (after_scan scanner codec base64_encoded follow b t r))
        (sym e') (at_end-Silent (record r { scanned = s' }) (added, r.scanned, e'))

  on_line-Silent :
      (x : LineEvent) (r : Reader)
      → Ended r
      → Silent r (on_line scanner codec base64_encoded follow x r)
  unfolding on_line returns stop_source
  on_line-Silent (round added b) r e = elim (Bool-cases r.source.running) [
    | inr ended ↦ simp ended (refl, e)
    | inl runs ↦ elim (Bool-cases r.source.stopping) [
      | inl stopping ↦ simp (runs, stopping) (refl, e)
      | inr goes ↦ simp (runs, goes) (scan_round-Silent added b r e)
    ]
  ]
  on_line-Silent line_received r e = (kept-receive PacketWithAddr r.source, e)
  on_line-Silent stop_reader r e = (refl, e)

  run_lines-Silent :
      (es : List LineEvent) (r : Reader)
      → Ended r
      → kept PacketWithAddr (run_lines scanner codec base64_encoded follow es r).source
        ≡ kept PacketWithAddr r.source
  unfolding run_lines
  run_lines-Silent [] r e = refl
  run_lines-Silent (x ∷ es) r e =
      let (same, e') = on_line-Silent x r e in
      run_lines-Silent es (on_line scanner codec base64_encoded follow x r) e' ∙ same

  checked :
      (r : Reader) (added : Bytes) (b : Bool)
      → r.source.running ≡ true
      → r.source.stopping ≡ false
      → on_line scanner codec base64_encoded follow (round added b) r
        ≡ scan_round scanner codec base64_encoded follow added b r
  unfolding on_line
  checked r added b runs goes = simp (runs, goes)

  first_round :
      (r : Reader) (added : Bytes) (s : S) (b : Bool)
      → r.source.running ≡ true
      → r.source.stopping ≡ false
      → scan added r.scanned ≡ (none, s)
      → on_line scanner codec base64_encoded follow (round added b) r
        ≡ at_end scanner codec base64_encoded follow (record r { scanned = s })
  unfolding scan_round after_scan
  first_round r added s b runs goes e =
      checked r added b runs goes
      ∙ ap (λ (t : Option Bytes × S). after_scan scanner codec base64_encoded follow b t r) e

  -- Once a Scan of a running reader has found the end of the file, no packet is sent any more,
  -- whatever is added to the file and however long the reader runs, also if it follows the file.
  pub run_lines-end :
      (r : Reader) (added : Bytes) (s : S) (b : Bool) (es : List LineEvent)
      → r.source.running ≡ true
      → r.source.stopping ≡ false
      → scan added r.scanned ≡ (none, s)
      → kept PacketWithAddr
          (run_lines scanner codec base64_encoded follow (round added b ∷ es) r).source
        ≡ kept PacketWithAddr r.source
  unfolding run_lines
  run_lines-end r added s b es runs goes e =
      let end : Reader = record r { scanned = s } in
      let (same, still) = at_end-Silent end (added, r.scanned, e) in
      ap
        (λ (t : Reader).
          kept PacketWithAddr (run_lines scanner codec base64_encoded follow es t).source)
        (first_round r added s b runs goes e)
      ∙ run_lines-Silent es (at_end scanner codec base64_encoded follow end) still
      ∙ same
