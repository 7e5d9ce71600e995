-- ===== src/Api/Types.antt =====
-- go/web/frontend/src/api/types.ts. A field of type `number` that holds a count or a size is a
-- natural number; a measured one is of the number type `F`.
use instace_metric_collector.Common.{ℕ, Str, Option, List}

pub data AppMode : Type 0 where
  agent hub : AppMode

pub record MetaResponse : Type 0 where
  pub mode : AppMode
  pub version : Str

pub record ProcessInfo (F : Type 0) : Type 0 where
  pub user : Str
  pub pid : ℕ
  pub cpu_usage : F
  pub memory_usage : F
  pub command : Str

pub record ServiceInfo : Type 0 where
  pub service_name : Str
  pub status : Str
  pub description : Str

pub record ContainerInfo : Type 0 where
  pub id : Str
  pub name : Str
  pub image : Str
  pub status : Str
  pub health : Str
  pub restart_count : ℕ
  pub compose_project : Str
  pub compose_service : Str
  pub ports : List Str

pub record DiskUsageInfo (F : Type 0) : Type 0 where
  pub mount : Str
  pub filesystem : Str
  pub total_bytes : ℕ
  pub used_bytes : ℕ
  pub use_percent : F

pub record NetworkUsageInfo : Type 0 where
  pub name : Str
  pub bytes_received : ℕ
  pub bytes_sent : ℕ

pub record MetricsPayload (F : Type 0) : Type 0 where
  pub cpu_load : F
  pub used_memory : ℕ
  pub total_memory : ℕ
  pub process_infos : List (ProcessInfo F)
  pub service_infos : List ServiceInfo
  pub containers : List ContainerInfo
  pub disk_usage : List (DiskUsageInfo F)
  pub network_usage : List NetworkUsageInfo
  pub available_processors : ℕ
  pub system_load_average : F

pub record MetricsSnapshot (F : Type 0) : Type 0 where
  pub collected_at : Str
  pub payload : MetricsPayload F

pub record AgentSummary (F : Type 0) : Type 0 where
  pub agent_id : Str
  pub hostname : Str
  pub first_seen : Option Str
  pub last_seen : Str
  pub status : Option Str
  pub cpu_load : F
  pub used_memory : ℕ
  pub total_memory : ℕ
  pub container_count : ℕ
