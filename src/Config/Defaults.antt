-- ===== src/Config/Defaults.antt =====
-- internal/config/load.go: `ApplyDefaults` and `HostsWithRole`.
pub mod Idempotent
pub mod Complete
use kg.Base.{
  ℕ, zero, suc, Bool, true, false, List, [], ◌∷◌, Text, codes, length, map, ◌==◌, if◌then◌else◌,
}
use kg.Base.Int.{ℤ, pos, negsuc, int32}
use kg.Api.{role_label}
use kg.Api.Maps.{Labels}
use kg.Config.{
  Endpoint, NetworkConfig, ClusterConfig, SshDefaults, HostConfig, WorkerPool, BootstrapConfig,
  Config,
}

abbrev pub control_plane_role : Text
control_plane_role = codes "control-plane"

abbrev pub worker_role : Text
worker_role = codes "worker"

-- `if field == "" { field = d }`, and the same of a number.
unfoldable pub or_text : Text → Text → Text
or_text d [] = d
or_text d (c ∷ s) = c ∷ s

unfoldable pub or_number : ℤ → ℤ → ℤ
or_number d (pos zero) = d
or_number d (pos (suc n)) = pos (suc n)
or_number d (negsuc n) = negsuc n

-- `HostsWithRole`
unfoldable pub hosts_with_role : Text → List HostConfig → List HostConfig
hosts_with_role role [] = []
hosts_with_role role (h ∷ hs) =
    let rest = hosts_with_role role hs in if h.role == role then h ∷ rest else rest

unfoldable pub default_ssh : SshDefaults → SshDefaults
unfolding or_text or_number
default_ssh ssh = record ssh {
  user = or_text (codes "root") ssh.user;
  port = or_number (pos 22) ssh.port;
  host_key_policy = or_text (codes "TOFU") ssh.host_key_policy;
}

-- The body of the loop over the hosts: a field that is not set is that of the ssh block.
unfoldable pub default_host : SshDefaults → HostConfig → HostConfig
unfolding or_text or_number
default_host ssh h = record h {
  user = or_text ssh.user h.user;
  port = or_number ssh.port h.port;
  private_key_path = or_text ssh.private_key_path h.private_key_path;
  passphrase = or_text ssh.passphrase h.passphrase;
  password = or_text ssh.password h.password;
  host_key_policy = or_text ssh.host_key_policy h.host_key_policy;
}

-- The number of hosts with a role, as an int32.
unfoldable pub count_role : Text → List HostConfig → ℤ
unfolding hosts_with_role int32
count_role role hosts = int32 (pos (length (hosts_with_role role hosts)))

unfoldable pub default_cluster : List HostConfig → ClusterConfig → ClusterConfig
unfolding or_text or_number count_role
default_cluster hosts cluster = record cluster {
  namespace = or_text cluster.name cluster.namespace;
  control_plane_endpoint = record cluster.control_plane_endpoint {
    port = or_number (pos 6443) cluster.control_plane_endpoint.port;
  };
  network = record {
    pod_cidr = or_text (codes "10.244.0.0/16") cluster.network.pod_cidr;
    service_cidr = or_text (codes "10.96.0.0/12") cluster.network.service_cidr;
    service_domain = or_text (codes "cluster.local") cluster.network.service_domain;
  };
  control_plane_replicas =
      or_number (count_role control_plane_role hosts) cluster.control_plane_replicas;
}

abbrev pub default_pool : List HostConfig → WorkerPool
default_pool workers = record {
  name = codes "default";
  replicas = int32 (pos (length workers));
  host_selector = [];
  node_labels = [];
  node_taints = [];
}

-- One pool for all worker hosts, if there are any.
abbrev pub pool_of : List HostConfig → List WorkerPool
pool_of [] = []
pool_of (h ∷ hs) = default_pool (h ∷ hs) ∷ []

abbrev pub or_pools : List WorkerPool → List WorkerPool → List WorkerPool
or_pools d [] = d
or_pools d (p ∷ ps) = p ∷ ps

abbrev pub or_selector : Labels → Labels
or_selector [] = (role_label, worker_role) ∷ []
or_selector (l ∷ ls) = l ∷ ls

abbrev pub default_selector : WorkerPool → WorkerPool
default_selector pool = record pool { host_selector = or_selector pool.host_selector }

unfoldable pub default_workers : List HostConfig → List WorkerPool → List WorkerPool
unfolding hosts_with_role int32
default_workers hosts workers =
    map default_selector (or_pools (pool_of (hosts_with_role worker_role hosts)) workers)

-- `ApplyDefaults`
unfoldable pub apply_defaults : Config → Config
unfolding default_ssh default_host default_cluster default_workers
apply_defaults c =
    let ssh = default_ssh c.ssh in
    let hosts = map (default_host ssh) c.hosts in
    record c {
      cluster = default_cluster hosts c.cluster;
      ssh = ssh;
      hosts = hosts;
      workers = default_workers hosts c.workers;
      bootstrap = record c.bootstrap {
        cluster_name = or_text (codes "kgenesis-bootstrap") c.bootstrap.cluster_name;
      };
    }
