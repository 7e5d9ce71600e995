-- ===== src/Components/DetailPanels.antt =====
-- go/web/frontend/src/components/ProcessDetailPanel.tsx and ServiceDetailPanel.tsx: what is said of
-- the selected process or service, and the links to the related ones.
use instace_metric_collector.Common.{
  Str, codes, is_empty, show_nat, join, Bool, same, List, [], ◌∷◌, ◌++◌, map, if◌then◌else◌,
}
use instace_metric_collector.Common.Floats.{Floats}
use instace_metric_collector.Api.Types.{ProcessInfo, ServiceInfo}
use instace_metric_collector.Domain.AgentStatus.{Tone, success, error, neutral}
use instace_metric_collector.Domain.ServiceLink.{
  Scored, find_services_for_process, find_processes_for_service, service_limit, process_limit,
  default_min_score, service_domain_path,
}

-- A link of a list of related ones: where it leads, its title and its text.
pub record RelatedLink : Type 0 where
  pub to : Str
  pub title : Str
  pub label : Str

-- A list of definitions: each label with its value.
pub record ProcessDetail : Type 0 where
  pub items : List (Str × Str)
  pub command : Str
  pub related : List RelatedLink

abbrev with_mark : Bool → Str → Str
with_mark likely name = if likely then codes "~ " ++ name else name

module _ (encode : Str → Str) where
  -- The part of the link after the prefix of the page and `?`.
  abbrev pub service_query : Str → Str
  service_query name = codes "service" ++ codes "=" ++ encode name

  unfoldable pub service_link : Str → Scored ServiceInfo → RelatedLink
  service_link prefix r = record {
    to = prefix ++ codes "?" ++ service_query r.item.service_name;
    title = with_mark r.likely r.item.service_name;
    label = with_mark r.likely r.item.service_name;
  }

module _ {F : Type 0} ⦃fl : Floats F⦄ (lower encode t : Str → Str) where
  unfoldable pub process_detail : Str → ProcessInfo F → List ServiceInfo → ProcessDetail
  process_detail service_prefix p services = record {
    items =
        (t (codes "table.pid"), show_nat p.pid)
        ∷ (t (codes "table.user"), p.user)
        ∷ (t (codes "table.cpu"), fl.to_fixed p.cpu_usage 1 ++ codes "%")
        ∷ (t (codes "table.memory"), fl.to_fixed p.memory_usage 1 ++ codes "%")
        ∷ [];
    command = p.command;
    related =
        map (service_link encode service_prefix)
          (find_services_for_process lower p services service_limit default_min_score);
  }

pub record ServiceDetail : Type 0 where
  pub status : Str
  pub tone : Tone
  pub is_pulsing : Bool
  pub items : List (Str × Str)
  pub breadcrumb : Str
  pub related : List RelatedLink

-- `statusTone` of ServiceDetailPanel.tsx.
unfoldable pub detail_status_tone : Str → Tone
detail_status_tone status =
    if same status (codes "RUNNING")
    then success
    else if same status (codes "ERROR")
    then error
    else neutral

module _ {F : Type 0} where
  unfoldable pub process_link : Str → Scored (ProcessInfo F) → RelatedLink
  process_link prefix r = record {
    to = prefix ++ codes "?" ++ codes "pid" ++ codes "=" ++ show_nat r.item.pid;
    title = r.item.command;
    label =
        with_mark r.likely (codes "PID " ++ show_nat r.item.pid) ++ codes " — " ++ r.item.command;
  }

module _ {F : Type 0} ⦃fl : Floats F⦄ (lower t : Str → Str) where
  unfoldable pub service_detail : Str → ServiceInfo → List (ProcessInfo F) → ServiceDetail
  service_detail process_prefix s processes = record {
    status = s.status;
    tone = detail_status_tone s.status;
    is_pulsing = same s.status (codes "RUNNING");
    items =
        (t (codes "services.detail.name"), s.service_name)
        ∷ (
          t (codes "services.detail.description"),
          if is_empty s.description then codes "—" else s.description,
        )
        ∷ [];
    breadcrumb = join (codes " › ") (service_domain_path s.service_name);
    related =
        map (process_link process_prefix)
          (find_processes_for_service lower s processes process_limit default_min_score);
  }

-- The default prefixes of the links, which no page changes.
abbrev pub default_service_prefix : Str
default_service_prefix = codes "/services"

abbrev pub default_process_prefix : Str
default_process_prefix = codes "/processes"
