-- ===== src/Api/HistorySamples/Runs/Loading.antt =====
-- What ends the loading of a history.
use instace_metric_collector.Common.{ℕ, Str, true, List, ◌∷◌, Option, ◌≡◌}
use instace_metric_collector.Api.HistorySamples.Runs.{Load, System}

module _ {F : Type 0} (date_ms : Str → Option ℕ) where
  -- While the hook is loading, the latest of the loads is one of the current run.
  IsAwaited : System F → Type 0
  IsAwaited s =
      s.ui.loading ≡ true
      → (l : Load) × (rest : List Load) × (s.loads ≡ l ∷ rest) × (l.run ≡ s.current)
