-- ===== src/Domain/ServiceLink.antt =====
-- go/web/frontend/src/lib/serviceProcessLink.ts. `lower` is `toLowerCase`, the engine's table.
-- A score that the program computes with numbers is a natural number.
pub mod Leaf
pub mod Score
pub mod Ranking
use instace_metric_collector.Common.{
  ℕ, Str, String, codes, same, includes, is_empty, nonempty, is_space, split_on, lower_ascii, leb,
  ltb, ◌==◌, Bool, true, false, ◌&&◌, ◌||◌, not, List, [], ◌∷◌, map, Option, none, some, length,
  take, keep, any, last?, or_else, if◌then◌else◌,
}
use instace_metric_collector.Common.Sort.{sort_by}
use instace_metric_collector.Common.Floats.{Floats}
use instace_metric_collector.Api.Types.{ProcessInfo, ServiceInfo}

-- `[a-z0-9]`.
abbrev is_alnum : ℕ → Bool
is_alnum c = (leb b'a' c && leb c b'z') || (leb b'0' c && leb c b'9')

-- `[./]`, and `/`.
abbrev pub is_separator : ℕ → Bool
is_separator c = c == b'.' || c == b'/'

abbrev is_slash : ℕ → Bool
is_slash c = c == b'/'

-- `s.replace(/(a|b|…)$/i, '')` for the given endings.
unfoldable pub strip_ending : List Str → Str → Str
strip_ending endings [] = []
strip_ending endings (c ∷ s) =
    let rest = c ∷ strip_ending endings s in
    if any (same (map lower_ascii (c ∷ s))) endings then [] else rest

-- `s.split(/\s+/)[0]`: what stands before the first white space.
first_word : Str → Str
first_word [] = []
first_word (c ∷ s) = let rest = c ∷ first_word s in if is_space c then [] else rest

-- `serviceName.split(/[./]/).filter(Boolean)`.
unfoldable pub service_domain_path : Str → List Str
service_domain_path name = keep nonempty (split_on is_separator name)

pub record ServiceTokens : Type 0 where
  pub full : Str
  pub parts : List Str
  pub leaf : Str
  pub leaf_norm : Str

pub record ProcessTokens : Type 0 where
  pub cmd : Str
  pub base : Str
  pub base_norm : Str

abbrev pub service_ending : List Str
service_ending = codes ".service" ∷ []

abbrev program_endings : List Str
program_endings = codes ".exe" ∷ codes ".jar" ∷ codes ".app" ∷ []

module _ (lower : Str → Str) where
  unfoldable pub normalize_token : Str → Str
  normalize_token value = keep is_alnum (lower value)

  unfoldable pub service_tokens : Str → ServiceTokens
  unfolding service_domain_path normalize_token
  service_tokens name =
      let full = lower name in
      let parts = service_domain_path full in
      let leaf = strip_ending service_ending (or_else (last? parts) full) in
      record { full = full; parts = parts; leaf = leaf; leaf_norm = normalize_token leaf }

  unfoldable pub process_tokens : {F : Type 0} → ProcessInfo F → ProcessTokens
  unfolding first_word strip_ending normalize_token
  process_tokens proc =
      let cmd = lower proc.command in
      let base = or_else (last? (split_on is_slash (first_word cmd))) [] in
      let clean = strip_ending program_endings base in
      record { cmd = cmd; base = clean; base_norm = normalize_token clean }

  -- The test inside the loop over the parts of the service's name.
  matches_segment : ProcessTokens → Str → Bool
  unfolding normalize_token
  matches_segment pt seg =
      leb 4 (length (normalize_token seg))
      && (includes pt.base_norm (normalize_token seg) || includes pt.cmd seg)

  unfoldable pub score_tokens : ServiceTokens → ProcessTokens → ℕ
  unfolding matches_segment
  score_tokens st pt =
      if is_empty st.leaf_norm || is_empty pt.base_norm
      then 0
      else if same pt.base_norm st.leaf_norm
      then 100
      else if includes pt.cmd st.full
      then 90
      else if includes pt.base_norm st.leaf_norm || includes st.leaf_norm pt.base_norm
      then 75
      else if any (matches_segment pt) st.parts
      then 65
      else 0

  unfoldable pub score_service_process : {F : Type 0} → ServiceInfo → ProcessInfo F → ℕ
  score_service_process service proc =
      if is_empty service.service_name
      then 0
      else score_tokens (service_tokens service.service_name) (process_tokens proc)

-- `.map((x) => ({ x, score: … }))`.
pub record Entry (A : Type 0) : Type 0 where
  pub item : A
  pub score : ℕ

-- One entry of a result: `likely` marks a match that is not certain.
pub record Scored (A : Type 0) : Type 0 where
  pub item : A
  pub score : ℕ
  pub likely : Bool

abbrev pub entry : {A : Type 0} → (A → ℕ) → A → Entry A
entry score a = record { item = a; score = score a }

abbrev pub finish : {A : Type 0} → Entry A → Scored A
finish e = record { item = e.item; score = e.score; likely = ltb e.score 85 }

module _ {F : Type 0} ⦃fl : Floats F⦄ where
  -- `x || 0`.
  abbrev or_zero : F → F
  or_zero x = if fl.truthy x then x else fl.of_nat 0

  -- The sign of `b.score - a.score || (b.proc.cpuUsage || 0) - (a.proc.cpuUsage || 0)` is not
  -- positive.
  abbrev pub process_not_after : Entry (ProcessInfo F) → Entry (ProcessInfo F) → Bool
  process_not_after a b =
      if a.score == b.score
      then fl.le (or_zero b.item.cpu_usage) (or_zero a.item.cpu_usage)
      else ltb b.score a.score

  unfoldable pub find_processes_for_service :
      (Str → Str) → ServiceInfo → List (ProcessInfo F) → ℕ → ℕ → List (Scored (ProcessInfo F))
  find_processes_for_service lower service processes limit min_score = map finish (
      take limit (
        sort_by process_not_after (
          keep (λ e. leb min_score e.score)
            (map (entry (score_service_process lower service)) processes))))

abbrev pub service_not_after : Entry ServiceInfo → Entry ServiceInfo → Bool
service_not_after a b = leb b.score a.score

unfoldable pub find_services_for_process :
    {F : Type 0}
    → (Str → Str)
    → ProcessInfo F
    → List ServiceInfo
    → ℕ
    → ℕ
    → List (Scored ServiceInfo)
find_services_for_process lower proc services limit min_score = map finish (
    take limit (
      sort_by service_not_after (
        keep (λ e. leb min_score e.score)
          (map (entry (λ s. score_service_process lower s proc)) services))))

-- The default arguments.
abbrev pub process_limit : ℕ
process_limit = 20

abbrev pub service_limit : ℕ
service_limit = 15

abbrev pub default_min_score : ℕ
default_min_score = 55
