-- ===== src/Monitor/State.antt =====
-- The records and the global state of metrics/xrootd_metrics.go. The caches and the counters are
-- those of github.com/jellydator/ttlcache and the Prometheus client, which are parameters.
use xrootd_monitoring_shovel.Base.{ℕ, ◌≡◌, ◌≢◌, List, ◌∷◌, Option, none, some, Bytes, ℤ, pos}

pub record UserRecord : Type 0 where
  pub authentication_protocol : Bytes
  pub dn : Bytes
  pub role : Bytes
  pub org : Bytes

-- The identifiers of users are the numbers in their UserId.
pub record FileRecord : Type 0 where
  pub user_id : ℕ
  pub path : Bytes
  pub read_ops : ℕ
  pub readv_ops : ℕ
  pub write_ops : ℕ
  pub readv_segs : ℕ
  pub read_bytes : ℕ
  pub readv_bytes : ℕ
  pub write_bytes : ℕ

-- A ttlcache with the entries alive at the time of the packet; Get touches an entry.
pub record Cache (V : Type 0) : Type 1 where
  pub C : Type 0
  pub get : ℕ → C → Option V
  pub touch : ℕ → C → C
  pub set : ℕ → V → C → C
  pub delete : ℕ → C → C

-- What the documentation of ttlcache says while no entry expires.
pub record CacheLaws {V : Type 0} (cache : Cache V) : Type 0 where
  pub get-touch : (k j : ℕ) (c : cache.C) → cache.get k (cache.touch j c) ≡ cache.get k c
  pub get-set : (k : ℕ) (v : V) (c : cache.C) → cache.get k (cache.set k v c) ≡ some v
  pub get-set_other :
      (k j : ℕ) (v : V) (c : cache.C) → k ≢ j → cache.get k (cache.set j v c) ≡ cache.get k c
  pub get-delete : (k : ℕ) (c : cache.C) → cache.get k (cache.delete k c) ≡ none
  pub get-delete_other :
      (k j : ℕ) (c : cache.C) → k ≢ j → cache.get k (cache.delete j c) ≡ cache.get k c

pub record Labels : Type 0 where
  pub path : Bytes
  pub ap : Bytes
  pub dn : Bytes
  pub role : Bytes
  pub org : Bytes

pub data Kind : Type 0 where
  read : Kind
  readv : Kind
  write : Kind

-- TransferReadvSegs, TransferOps and TransferBytes with their labels, Connections, and BytesXfer in
-- its two directions.
pub data Counter : Type 0 where
  transfer_readv_segs : Labels → Counter
  transfer_ops : Labels → Kind → Counter
  transfer_bytes : Labels → Kind → Counter
  connections : Counter
  bytes_rx : Counter
  bytes_tx : Counter

-- The counters of a registry; `none` is the panic of Add. A value is an integer in place of its
-- float64, which holds it exactly below 2 ^ 53.
pub record Registry : Type 1 where
  pub R : Type 0
  pub add : Counter → ℤ → R → Option R

-- Add panics on a negative value, and else adds it. `history` is the calls of Add, the last first.
pub record RegistryLaws (registry : Registry) : Type 0 where
  pub history : registry.R → List (Counter × ℤ)
  pub add-pos :
      (c : Counter) (n : ℕ) (r : registry.R)
      → (r' : registry.R) × (registry.add c (pos n) r ≡ some r')
        × (history r' ≡ (c, pos n) ∷ history r)
  pub add-negsuc : (c : Counter) (n : ℕ) (r : registry.R) → registry.add c (ℤ.negsuc n) r ≡ none

-- The fields of a SummaryStat that xml.Unmarshal fills in; an int that is missing is 0.
pub record SummaryStat : Type 0 where
  pub id : Bytes
  pub link_connections : ℤ
  pub link_in_bytes : ℤ
  pub link_out_bytes : ℤ
  pub threads : ℤ
  pub threads_idle : ℤ

-- What the code takes from other packages: the two caches, the counters, and xml.Unmarshal into a
-- SummaryStatistics, of which only Stats is used.
pub record Library : Type 1 where
  pub users : Cache UserRecord
  pub files : Cache FileRecord
  pub registry : Registry
  pub unmarshal : Bytes → Option (List SummaryStat)

-- The global variables: sessions, transfers, the counters, lastStats and the gauges of Threads.
pub record Monitor (lib : Library) : Type 0 where
  pub sessions : lib.users.C
  pub transfers : lib.files.C
  pub counters : lib.registry.R
  pub last_connections : ℤ
  pub last_in_bytes : ℤ
  pub last_out_bytes : ℤ
  pub threads_idle : ℤ
  pub threads_running : ℤ

-- How a call ends: it returns nil or an error, panics, or is still in its loop when the fuel is used
-- up.
pub data Outcome (S : Type 0) : Type 0 where
  finished : S → Outcome S
  failed : S → Outcome S
  panicked : Outcome S
  running : Outcome S
