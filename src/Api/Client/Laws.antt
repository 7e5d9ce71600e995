-- ===== src/Api/Client/Laws.antt =====
-- When the fetch wrappers resolve, and with what.
use instace_metric_collector.Common.{ℕ, ◌≤◌, ◌<◌, Str, none, some, ◌≡◌, ◌≢◌, ◌↔◌, arith, refl}
use instace_metric_collector.Api.Client.{
  Body, json, malformed, Fetched, network_error, response, resolved, rejected, api_get, read_answer,
}

module _ {A : Type 0} (path : Str) where
  -- A GET resolves to a value exactly when the answer came with a status from 200 to 299 other
  -- than 204 and its body is that value as JSON.
  pub api_get-value_iff :
      (f : Fetched A) (a : A)
      → (api_get path f ≡ resolved (some a)) ↔ (
          (status : ℕ) × (f ≡ response status (json (some a)))
          × (200 ≤ status)
          × (status < 300)
          × (status ≢ 204))
  unfolding api_get
  api_get-value_iff (network_error m) a = ((λ h. cc), λ (s, e, l, u, n). cc)
  api_get-value_iff (response s (malformed m)) a = ((λ h. ground arith), λ (t, e, l, u, n). cc)
  api_get-value_iff (response s (json none)) a = ((λ h. ground arith), λ (t, e, l, u, n). cc)
  api_get-value_iff (response s (json (some b))) a = (
    (λ h. (s, ground arith, ground arith, ground arith, λ e. ground arith)),
    λ (t, e, l, u, n). ground arith,
  )

  -- GET and the two writing wrappers agree on every answer but one of status 204.
  pub api_get-read_answer :
      (f : Fetched A) → ((b : Body A) → f ≢ response 204 b) → api_get path f ≡ read_answer path f
  unfolding api_get read_answer
  api_get-read_answer (network_error m) h = refl
  api_get-read_answer (response s b) h = ground (arith, h b)

  -- On 204 a GET resolves to `null`, and a PUT or POST fails unless the answer has a body that is
  -- JSON nevertheless.
  pub no_content :
      (message : Str)
      → (api_get {A = A} path (response 204 (malformed message)) ≡ resolved none)
        × (read_answer {A = A} path (response 204 (malformed message)) ≡ rejected message)
  unfolding api_get read_answer
  no_content message = (refl, refl)
