-- ===== src/Publisher/Stomp/Returns.antt =====
-- A STOMP session gets through a network that works again.
use xrootd_monitoring_shovel.Base.{ℕ, zero, suc, ◌≤◌, ◌≡◌, Bool, true, List, [], ◌∷◌, ◌++◌, some}
use xrootd_monitoring_shovel.Publisher.Stomp.{Called}

-- The network works n times.
abbrev pub working : ℕ → List Bool
working zero = []
working (suc n) = true ∷ working n

-- A call has returned, and the network still works at least n times in the end.
abbrev Returns : ℕ → Called → Type 0
Returns n c = (bs : List Bool) × (k : ℕ) × (c.0 ≡ some (bs ++ working k)) × (n ≤ k)
