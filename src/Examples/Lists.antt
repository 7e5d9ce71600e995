-- ===== src/Examples/Lists.antt =====
-- The history series and the formats on examples.
use instace_metric_collector.Common.{
  ℕ, ◌+◌, ◌*◌, ◌≤◌, ◌<◌, leb, codes, [], ◌∷◌, some, In, ◌≡◌, ◌↔◌, inr, Bool-cases, inl, arith,
}
use instace_metric_collector.Common.Floats.{nat_floats}
use instace_metric_collector.Domain.Format.{unit_of, format_bytes}
use instace_metric_collector.Domain.Format.Laws.{IsUnit, unit_of-IsUnit, format_bytes_boundary}
use instace_metric_collector.Domain.HistorySeries.{one_hour, range_hours, filter_samples_by_range}
use instace_metric_collector.Domain.HistorySeries.Laws.{
  IsOrdered, leb-IsPreorder, filter_samples_by_range_iff,
}
use instace_metric_collector.Examples.Data.{snap_a, snap_b, dates}

filter_samples_by_range_iff_example :
    In snap_a (filter_samples_by_range dates 100 (snap_b ∷ snap_a ∷ []) one_hour) ↔ (
      In snap_a (snap_b ∷ snap_a ∷ [])
      × ((t : ℕ) × (dates (codes "aaaa") ≡ some t)
          × (t ≤ 100)
          × (100 ≤ t + range_hours one_hour * 3600000)))
filter_samples_by_range_iff_example =
    filter_samples_by_range_iff dates 100 (snap_b ∷ snap_a ∷ []) one_hour snap_a

pub nat_IsOrdered : IsOrdered nat_floats
nat_IsOrdered = record {
  lt_le =
      λ a b. elim (Bool-cases (leb b a)) [ inl e ↦ rw e ground arith | inr e ↦ rw e ground arith ];
  preorder = leb-IsPreorder (λ n. n);
}

unit_of-IsUnit_example : IsUnit 1048576 (unit_of 1048576)
unit_of-IsUnit_example = unit_of-IsUnit 1048576 (omega arith)

below_next : 1048575 < (unit_of 1048575).0 * 1024
unfolding unit_of
below_next = omega arith

rounds_up : 20480 * (unit_of 1048575).0 ≤ 20 * 1048575 + (unit_of 1048575).0
unfolding unit_of
rounds_up = omega arith

format_bytes_boundary_example : format_bytes 1048575 ≡ codes "1024.0 KB"
unfolding unit_of
format_bytes_boundary_example = format_bytes_boundary 1048575 (omega arith) below_next rounds_up
