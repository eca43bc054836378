-- ===== src/Monitor/Summary.antt =====
-- `HandleSummaryPacket` of metrics/xrootd_metrics.go.
use xrootd_monitoring_shovel.Base.{
  List, [], ◌∷◌, Option, none, some, bytes, eqb, ℤ, ◌-ℤ◌, is_pos, to_int64, if◌then◌else◌,
}
use xrootd_monitoring_shovel.Parser.Wire.{◌>>=◌, of_int64}
use xrootd_monitoring_shovel.Monitor.Memory.{Packet, minus64}
use xrootd_monitoring_shovel.Monitor.State.{
  Library, Monitor, SummaryStat, connections, bytes_rx, bytes_tx, Outcome, finished, failed,
  panicked,
}
use xrootd_monitoring_shovel.Monitor.Files.{count}

-- a - b of int
abbrev pub minus_int : ℤ → ℤ → ℤ
minus_int a b = to_int64 (minus64 (of_int64 a) (of_int64 b))

-- What the counter goes up by from the last reading to the next: a lower reading means that the
-- server has started anew.
unfoldable pub increase : ℤ → ℤ → ℤ
increase last now = if is_pos (last -ℤ now) then now else minus_int now last

module _ (lib : Library) where
  -- Each counter goes up by the increase, and the reading is the last one from now on.
  unfoldable pub read_connections : ℤ → Monitor lib → Option (Monitor lib)
  unfolding count increase
  read_connections now s = do
    s ← count lib connections (increase s.last_connections now) s
    some (record s { last_connections = now })

  unfoldable pub read_in_bytes : ℤ → Monitor lib → Option (Monitor lib)
  unfolding count increase
  read_in_bytes now s = do
    s ← count lib bytes_rx (increase s.last_in_bytes now) s
    some (record s { last_in_bytes = now })

  unfoldable pub read_out_bytes : ℤ → Monitor lib → Option (Monitor lib)
  unfolding count increase
  read_out_bytes now s = do
    s ← count lib bytes_tx (increase s.last_out_bytes now) s
    some (record s { last_out_bytes = now })

  -- Case "link"
  unfoldable pub link_stat : SummaryStat → Monitor lib → Option (Monitor lib)
  unfolding read_connections read_in_bytes read_out_bytes
  link_stat x s = do
    s ← read_connections x.link_connections s
    s ← read_in_bytes x.link_in_bytes s
    read_out_bytes x.link_out_bytes s

  -- The switch on the statistic's id
  unfoldable pub summary_stat : SummaryStat → Monitor lib → Option (Monitor lib)
  unfolding link_stat
  summary_stat x s =
      if eqb x.id (bytes "link")
      then link_stat x s
      else if eqb x.id (bytes "sched")
      then some (record s {
        threads_idle = x.threads_idle;
        threads_running = minus_int x.threads x.threads_idle;
      })
      else some s

  unfoldable pub summary_stats : List SummaryStat → Monitor lib → Option (Monitor lib)
  unfolding summary_stat
  summary_stats [] s = some s
  summary_stats (x ∷ xs) s = do s ← summary_stat x s; summary_stats xs s

  unfoldable pub handle_summary_packet : Packet → Monitor lib → Outcome (Monitor lib)
  unfolding summary_stats
  handle_summary_packet p s = elim (lib.unmarshal p.content) [
    | none ↦ failed s
    | some stats ↦ elim (summary_stats stats s) [ none ↦ panicked | some s' ↦ finished s' ]
  ]
