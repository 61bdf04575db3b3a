-- ===== src/Server/Consecutive.antt =====
-- The versions in a label's history are 0, 1, 2, ..., whatever updates a batch has.
use ru_kt.Common.{ℕ, suc, ◌≡◌, [], ◌∷◌}
use ru_kt.Tls.{Bytes}
use ru_kt.Store.{Entries}
use ru_kt.Server.{Overlay, overlay_get, greatest, or_else, start_version}

-- The versions of a history count up from a number.
unfoldable pub Counts : ℕ → Entries → Type 0
Counts n [] = Unit
Counts n (e ∷ history) = (e.0 ≡ n) × Counts (suc n) history

module _ (history : Bytes → Entries) (label : Bytes) where
  -- The version that the label gets next.
  next : Overlay → ℕ
  next o = start_version (or_else (overlay_get o label) (greatest (history label)))
