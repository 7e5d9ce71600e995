-- ===== src/Domain/ServiceLink/Score.antt =====
-- What the score of a service and a process can be, and what the best one means.
use instace_metric_collector.Common.{
  ℕ, ◌≤◌, ◌<◌, Str, same→eq, same_iff, is_empty, false, ◌≡◌, ◌⊎◌, inl, inr, ◌↔◌, arith, refl,
  Bool-cases,
}
use instace_metric_collector.Api.Types.{ProcessInfo, ServiceInfo}
use instace_metric_collector.Domain.ServiceLink.{
  ServiceTokens, ProcessTokens, service_tokens, process_tokens, score_tokens, score_service_process,
  default_min_score,
}

-- The five values that the code returns.
abbrev pub IsScore : ℕ → Type 0
IsScore n = (n ≡ 0) ⊎ (n ≡ 65) ⊎ (n ≡ 75) ⊎ (n ≡ 90) ⊎ (n ≡ 100)

module _ (lower : Str → Str) where
  score_tokens-IsScore :
      (st : ServiceTokens) (pt : ProcessTokens) → IsScore (score_tokens lower st pt)
  unfolding score_tokens
  score_tokens-IsScore st pt = ground arith

  score_tokens_exact :
      (st : ServiceTokens) (pt : ProcessTokens)
      → (score_tokens lower st pt ≡ 100)
        ↔ ((is_empty st.leaf_norm ≡ false) × (pt.base_norm ≡ st.leaf_norm))
  unfolding score_tokens
  score_tokens_exact st pt = (
    (λ h. (ground arith, same→eq _ _ (ground arith))),
    λ (n, e). ground (arith, same_iff pt.base_norm st.leaf_norm, n, e),
  )

  module _ {F : Type 0} (service : ServiceInfo) (proc : ProcessInfo F) where
    -- A score is 0, 65, 75, 90 or 100, so a match passes the default least score exactly when its
    -- score is not 0.
    pub score_service_process-IsScore :
        IsScore (score_service_process lower service proc)
        × ((default_min_score ≤ score_service_process lower service proc)
            ↔ (0 < score_service_process lower service proc))
    unfolding score_service_process
    score_service_process-IsScore =
        let shape =
          score_tokens-IsScore (service_tokens lower service.service_name)
            (process_tokens lower proc) in
        (ground arith, ((λ h. ground arith), λ h. ground arith))

    -- The score is 100 exactly when the service has a name whose leaf has a letter or a digit,
    -- and the program's base name is that leaf, both reduced to letters and digits.
    pub score_exact_iff : (score_service_process lower service proc ≡ 100) ↔ (
        (is_empty service.service_name ≡ false)
        × (is_empty (service_tokens lower service.service_name).leaf_norm ≡ false)
        × ((process_tokens lower proc).base_norm
            ≡ (service_tokens lower service.service_name).leaf_norm))
    unfolding score_service_process
    score_exact_iff =
        let exact =
          score_tokens_exact (service_tokens lower service.service_name)
            (process_tokens lower proc) in
        elim (Bool-cases (is_empty service.service_name)) [
          | inl e ↦ rw e ((λ h. absurd (omega arith)), λ (n, p, q). cc)
          | inr e ↦ rw e ((λ h. (refl, (exact.0 h).0, (exact.0 h).1)), λ (n, p, q). exact.1 (p, q))
        ]
