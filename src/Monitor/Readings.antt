-- ===== src/Monitor/Readings.antt =====
-- The counters of connections and bytes follow the server's own counters through its restarts.
use xrootd_monitoring_shovel.Base.{
  ℕ, eqb, ◌-ℤ◌, ◌+◌, ◌-◌, ◌<◌, ◌≡◌, refl, ap, map, List, [], ◌∷◌, some, Bool, true, false, bytes,
  ltb, ℤ, pos, pos_part, arith, if◌then◌else◌,
}
use xrootd_monitoring_shovel.Monitor.State.{
  Library, Monitor, SummaryStat, RegistryLaws, Counter, connections, bytes_rx, bytes_tx,
}
use xrootd_monitoring_shovel.Monitor.Files.{count}
use xrootd_monitoring_shovel.Monitor.Summary.{
  increase, read_connections, read_in_bytes, read_out_bytes, link_stat, summary_stat, summary_stats,
}

abbrev rise : ℕ → ℕ → ℕ
rise last now = if ltb now last then now else now - last

abbrev int_limit : ℕ
int_limit = 0x8000000000000000

increase-pos :
    (last now : ℕ)
    → last < int_limit
    → now < int_limit
    → increase (pos last) (pos now) ≡ pos (rise last now)
unfolding increase ◌-ℤ◌
increase-pos last now h k = ground arith

rising :
    {last : ℤ} {l n : ℕ}
    → last ≡ pos l
    → l < int_limit
    → n < int_limit
    → increase last (pos n) ≡ pos (rise l n)
rising {l = l} {n = n} e h k = rw e (increase-pos l n h k)

next_total :
    (l n old now after final lost : ℕ)
    → now ≡ rise l n + old
    → after + n ≡ now + final + lost
    → after + l ≡ old + final + ((if ltb n l then l else 0) + lost)
next_total l n old now after final lost e h = ground arith

-- The readings of a link statistic: connections, bytes in, bytes out.
pub record Reading : Type 0 where
  pub links : ℕ
  pub bytes_in : ℕ
  pub bytes_out : ℕ

abbrev pub link_reading : Reading → SummaryStat
link_reading r = record {
  id = bytes "link";
  link_connections = pos r.links;
  link_in_bytes = pos r.bytes_in;
  link_out_bytes = pos r.bytes_out;
  threads = pos 0;
  threads_idle = pos 0;
}

-- An int holds the numbers of the reading.
abbrev pub IsBounded : Reading → Type 0
IsBounded r = (r.links < int_limit) × (r.bytes_in < int_limit) × (r.bytes_out < int_limit)

abbrev pub AreBounded : List Reading → Type 0
AreBounded [] = Unit
AreBounded (r ∷ rs) = IsBounded r × AreBounded rs

-- The last reading.
abbrev pub last_of : Reading → List Reading → Reading
last_of r [] = r
last_of r (n ∷ rs) = last_of n rs

-- The sum of the readings after which a lower one came: what was counted before the restarts.
abbrev pub before_restarts : (Reading → ℕ) → Reading → List Reading → ℕ
before_restarts f r [] = 0
before_restarts f r (n ∷ rs) = (if ltb (f n) (f r) then f r else 0) + before_restarts f n rs

-- What the calls of Add have added to a counter.
abbrev pub added : (Counter → Bool) → List (Counter × ℤ) → ℕ
added p [] = 0
added p ((c, v) ∷ h) = (if p c then pos_part v else 0) + added p h

abbrev pub is_connections : Counter → Bool
is_connections connections = true
is_connections _ = false

abbrev pub is_rx : Counter → Bool
is_rx bytes_rx = true
is_rx _ = false

abbrev pub is_tx : Counter → Bool
is_tx bytes_tx = true
is_tx _ = false

module _ (lib : Library) (laws : RegistryLaws lib.registry) where
  abbrev pub LastIs : Reading → Monitor lib → Type 0
  LastIs r s =
      (s.last_connections ≡ pos r.links)
      × (s.last_in_bytes ≡ pos r.bytes_in)
      × (s.last_out_bytes ≡ pos r.bytes_out)

  count-pos :
      (c : Counter) (n : ℕ) (s : Monitor lib)
      → (r : lib.registry.R) × (count lib c (pos n) s ≡ some (record s { counters = r }))
        × (laws.history r ≡ (c, pos n) ∷ laws.history s.counters)
  unfolding count
  count-pos c n s = let (r, e, h) = laws.add-pos c n s.counters in (r, rw (count, e) refl, h)

  summary_stat-link :
      (l n : Reading) (s : Monitor lib)
      → LastIs l s
      → IsBounded l
      → IsBounded n
      → (s' : Monitor lib) × (summary_stat lib (link_reading n) s ≡ some s')
        × LastIs n s'
        × (laws.history s'.counters
            ≡ (bytes_tx, pos (rise l.bytes_out n.bytes_out))
              ∷ (bytes_rx, pos (rise l.bytes_in n.bytes_in))
              ∷ (connections, pos (rise l.links n.links))
              ∷ laws.history s.counters)
  unfolding summary_stat link_stat read_connections read_in_bytes read_out_bytes eqb
  summary_stat-link l n s (lc, li, lo) (bl, bi, bo) (nl, ni, nt) =
      let (r1, e1, h1) = count-pos connections (rise l.links n.links) s in
      let s1 = record s { counters = r1; last_connections = pos n.links } in
      let (r2, e2, h2) = count-pos bytes_rx (rise l.bytes_in n.bytes_in) s1 in
      let s2 = record s1 { counters = r2; last_in_bytes = pos n.bytes_in } in
      let (r3, e3, h3) = count-pos bytes_tx (rise l.bytes_out n.bytes_out) s2 in
      (
        record s2 { counters = r3; last_out_bytes = pos n.bytes_out },
        rw (rising lc bl nl, e1, rising li bi ni, e2, rising lo bo nt, e3) refl,
        (refl, refl, refl),
        rw (h3, h2, h1) refl,
      )

  -- A server that is seen first with the reading l and then with the readings rs: no call of Add
  -- panics, and each of the three counters goes up so that, with l, it is the last reading and what
  -- was counted before each restart of the server.
  pub summary_stats-added :
      (l : Reading) (rs : List Reading) (s : Monitor lib)
      → LastIs l s
      → IsBounded l
      → AreBounded rs
      → (s' : Monitor lib) × (summary_stats lib (map link_reading rs) s ≡ some s')
        × LastIs (last_of l rs) s'
        × (added is_connections (laws.history s'.counters) + l.links
            ≡ added is_connections (laws.history s.counters)
              + (last_of l rs).links
              + before_restarts (λ r. r.links) l rs)
        × (added is_rx (laws.history s'.counters) + l.bytes_in
            ≡ added is_rx (laws.history s.counters)
              + (last_of l rs).bytes_in
              + before_restarts (λ r. r.bytes_in) l rs)
        × (added is_tx (laws.history s'.counters) + l.bytes_out
            ≡ added is_tx (laws.history s.counters)
              + (last_of l rs).bytes_out
              + before_restarts (λ r. r.bytes_out) l rs)
  unfolding summary_stats
  summary_stats-added l [] s last b bs = (s, refl, last, omega arith, omega arith, omega arith)
  summary_stats-added l (n ∷ rs) s last b (bn, bs) =
      let (s1, e1, last1, h1) = summary_stat-link l n s last b bn in
      let (s2, e2, last2, hc, hr, ht) = summary_stats-added n rs s1 last1 bn bs in
      let connections_now : added is_connections (laws.history s1.counters)
          ≡ rise l.links n.links + added is_connections (laws.history s.counters) =
        omega (arith, ap (added is_connections) h1) in
      let rx_now : added is_rx (laws.history s1.counters)
          ≡ rise l.bytes_in n.bytes_in + added is_rx (laws.history s.counters) =
        omega (arith, ap (added is_rx) h1) in
      let tx_now : added is_tx (laws.history s1.counters)
          ≡ rise l.bytes_out n.bytes_out + added is_tx (laws.history s.counters) =
        omega (arith, ap (added is_tx) h1) in
      (
        s2,
        rw e1 e2,
        last2,
        next_total l.links n.links (added is_connections (laws.history s.counters)) _ _ _ _
            connections_now hc,
        next_total l.bytes_in n.bytes_in (added is_rx (laws.history s.counters)) _ _ _ _ rx_now hr,
        next_total l.bytes_out n.bytes_out (added is_tx (laws.history s.counters)) _ _ _ _ tx_now
            ht,
      )
