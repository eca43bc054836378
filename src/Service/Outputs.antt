-- ===== src/Service/Outputs.antt =====
-- connectors/output.go: MultiOutputConnector, which calls every connector and returns the last error.
use xrootd_monitoring_shovel.Base.{List, [], ◌∷◌, Option, none, some, Bytes}

-- Connectors of type C on a world W, with errors of type E.
pub record Connectors : Type 1 where
  pub C : Type 0
  pub W : Type 0
  pub E : Type 0
  pub write_to_exchange : C → Bytes → Bytes → W → Option E × W
  pub close : C → W → Option E × W
  pub sync : C → W → Option E × W

module _ (o : Connectors) where
  -- The loop that the three methods have; the error so far is an argument.
  unfoldable pub for_each :
      (o.C → o.W → Option o.E × o.W) → List o.C → Option o.E → o.W → Option o.E × o.W
  for_each call [] last w = (last, w)
  for_each call (c ∷ cs) last w =
      for_each call cs (elim (call c w).0 [ none ↦ last | some e ↦ some e ]) (call c w).1

  unfoldable pub multi_write_to_exchange : List o.C → Bytes → Bytes → o.W → Option o.E × o.W
  unfolding for_each
  multi_write_to_exchange cs content exchange w =
      for_each (λ c. o.write_to_exchange c content exchange) cs none w

  unfoldable pub multi_write : List o.C → Bytes → o.W → Option o.E × o.W
  unfolding multi_write_to_exchange
  multi_write cs content w = multi_write_to_exchange cs content [] w

  unfoldable pub multi_close : List o.C → o.W → Option o.E × o.W
  unfolding for_each
  multi_close cs w = for_each o.close cs none w

  unfoldable pub multi_sync : List o.C → o.W → Option o.E × o.W
  unfolding for_each
  multi_sync cs w = for_each o.sync cs none w
