-- ===== src/Examples/Data.antt =====
-- The data of the examples.
use instace_metric_collector.Common.{ℕ, Str, codes, [], ◌∷◌, Option, none, some}
use instace_metric_collector.Api.Types.{
  ProcessInfo, ServiceInfo, ContainerInfo, DiskUsageInfo, MetricsPayload, MetricsSnapshot,
  AgentSummary, MetaResponse, hub,
}
use instace_metric_collector.Api.Alerts.{AlertRecord}

abbrev pub plain : Str → Str
plain s = s

abbrev pub sshd : ProcessInfo ℕ
sshd = record {
  user = codes "root";
  pid = 7;
  cpu_usage = 12;
  memory_usage = 3;
  command = codes "/usr/bin/sshd -D";
}

abbrev pub nginx : ProcessInfo ℕ
nginx = record {
  user = codes "www";
  pid = 21;
  cpu_usage = 40;
  memory_usage = 9;
  command = codes "/bin/nginx";
}

abbrev pub sshd_unit : ServiceInfo
sshd_unit = record {
  service_name = codes "net.sshd";
  status = codes "RUNNING";
  description = codes "shell";
}

abbrev pub ssh_service : ServiceInfo
ssh_service = record {
  service_name = codes "ssh.service";
  status = codes "ERROR";
  description = codes "old";
}

abbrev pub root_disk : DiskUsageInfo ℕ
root_disk = record {
  mount = codes "/";
  filesystem = codes "ext4";
  total_bytes = 4096;
  used_bytes = 1024;
  use_percent = 25;
}

abbrev pub payload : MetricsPayload ℕ
payload = record {
  cpu_load = 61;
  used_memory = 1024;
  total_memory = 4096;
  process_infos = sshd ∷ nginx ∷ [];
  service_infos = sshd_unit ∷ [];
  containers = [];
  disk_usage = root_disk ∷ [];
  network_usage = [];
  available_processors = 4;
  system_load_average = 2;
}

abbrev pub snap_a : MetricsSnapshot ℕ
snap_a = record { collected_at = codes "aaaa"; payload = payload }

abbrev pub snap_b : MetricsSnapshot ℕ
snap_b = record { collected_at = codes "b"; payload = payload }

abbrev pub dates : Str → Option ℕ
dates [] = none
dates (c ∷ s) = some c

abbrev pub agent_one : AgentSummary ℕ
agent_one = record {
  agent_id = codes "a1";
  hostname = codes "web";
  first_seen = none;
  last_seen = codes "x";
  status = some (codes "stale");
  cpu_load = 61;
  used_memory = 1024;
  total_memory = 4096;
  container_count = 0;
}

abbrev pub hub_meta : MetaResponse
hub_meta = record { mode = hub; version = codes "1" }

abbrev pub alert_one : AlertRecord ℕ
alert_one = record {
  id = codes "1";
  agent_id = codes "a1";
  rule_id = codes "CPU";
  severity = codes "high";
  status = codes "OPEN";
  fired_at = codes "t";
  details = 0;
}

abbrev pub alert_two : AlertRecord ℕ
alert_two = record {
  id = codes "2";
  agent_id = codes "a1";
  rule_id = codes "MEM";
  severity = codes "low";
  status = codes "RESOLVED";
  fired_at = codes "t";
  details = 0;
}

abbrev pub web_container : ContainerInfo
web_container = record {
  id = codes "11";
  name = codes "web";
  image = codes "nginx";
  status = codes "running";
  health = codes "healthy";
  restart_count = 0;
  compose_project = codes "shop";
  compose_service = codes "web";
  ports = [];
}

abbrev pub db_container : ContainerInfo
db_container = record web_container { id = codes "22"; name = codes "db"; image = codes "postgres" }

abbrev pub agent_container : ContainerInfo
agent_container = record web_container {
  id = codes "33";
  name = codes "metrics-collector";
  image = codes "x";
}
