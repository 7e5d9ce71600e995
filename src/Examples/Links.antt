-- ===== src/Examples/Links.antt =====
-- Services and processes, and the links between the pages, on examples.
use instace_metric_collector.Common.{
  ℕ, ◌≤◌, codes, split_on, same, includes, false, [], ◌∷◌, In, here, ◌⊎◌, refl, arith,
}
use instace_metric_collector.Common.Sort.{sort_by}
use instace_metric_collector.Common.Floats.{nat_floats}
use instace_metric_collector.Api.Types.{ProcessInfo}
use instace_metric_collector.Domain.HistorySeries.Laws.{leb-IsPreorder}
use instace_metric_collector.Domain.ServiceLink.{
  Scored, entry, finish, score_service_process, score_tokens, strip_ending, service_tokens,
  process_tokens, find_processes_for_service,
}
use instace_metric_collector.Domain.ServiceLink.Ranking.{find_processes_best}
use instace_metric_collector.Navigation.Links.{Encodes}
use instace_metric_collector.Examples.Data.{plain, sshd, nginx, sshd_unit}

abbrev found : Scored (ProcessInfo ℕ)
found = record { item = sshd; score = 100; likely = false }

found_In : In found (find_processes_for_service plain sshd_unit (nginx ∷ sshd ∷ []) 1 0)
unfolding find_processes_for_service sort_by score_service_process score_tokens service_tokens
    strip_ending split_on same process_tokens includes
found_In = here refl

find_processes_best_example :
    In
      (finish (entry (score_service_process plain sshd_unit) nginx))
      (find_processes_for_service plain sshd_unit (nginx ∷ sshd ∷ []) 1 0)
    ⊎ (score_service_process plain sshd_unit nginx ≤ score_service_process plain sshd_unit sshd)
find_processes_best_example =
    find_processes_best (leb-IsPreorder (λ n. n)) plain sshd_unit (nginx ∷ sshd ∷ []) 1 0 found
      nginx found_In (here refl) (omega arith)

pub plain-Encodes : Encodes (λ s. codes "x")
plain-Encodes = record { no_slash = λ s. (refl, tt); not_empty = λ s n. refl }
