-- ===== src/Components/CopyButton.antt =====
-- go/web/frontend/src/components/CopyButton.tsx. `copy` is what a click does before it waits for
-- the clipboard, and what follows when the clipboard has written or refused; the timer it then sets
-- is a step of its own. The clipboard and the clock are the browser's.
pub mod Settling
use instace_metric_collector.Common.{
  ℕ, suc, ◌<◌, Str, codes, Bool, true, false, Option, none, some, if◌then◌else◌,
}

-- `copied`, the writes that wait for the clipboard, and the timers that have not fired.
pub record CopyState : Type 0 where
  pub copied : Bool
  pub writes : ℕ
  pub timers : ℕ

abbrev pub not_copied : CopyState
not_copied = record { copied = false; writes = 0; timers = 0 }

abbrev or_default : (Str → Str) → Option Str → Str
or_default t none = t (codes "containers.detail.copyId")
or_default t (some label) = label

unfoldable pub button_label : (Str → Str) → Option Str → CopyState → Str
button_label t label s =
    if s.copied then t (codes "containers.detail.copied") else or_default t label

-- A step of the button.
pub data Step : CopyState → CopyState → Type 0 where
  click :
      (c : Bool) (w n : ℕ)
      → Step
          (record { copied = c; writes = w; timers = n })
          (record { copied = c; writes = suc w; timers = n })
  written :
      (c : Bool) (w n : ℕ)
      → Step
          (record { copied = c; writes = suc w; timers = n })
          (record { copied = true; writes = w; timers = suc n })
  refused :
      (c : Bool) (w n : ℕ)
      → Step
          (record { copied = c; writes = suc w; timers = n })
          (record { copied = c; writes = w; timers = n })
  fired :
      (c : Bool) (w n : ℕ)
      → Step
          (record { copied = c; writes = w; timers = suc n })
          (record { copied = false; writes = w; timers = n })
