-- ===== src/Examples/Configured.antt =====
-- The theorems on a configuration at a small one.
use kg.Base.Strings.{has_prefix}
use kg.Config.{WorkerPool}
use kg.Base.Int.{add_int32, int32}
use kg.Config.Checks.{Environment, is_dns_label}
use kg.Config.Validate.{
  validate, replica_problems, pool_problems, machine_problems, worker_replicas,
}
use kg.Config.Validate.Sound.{IsValid, validate-IsSound}
use kg.Config.Validate.Wrap.{machine_problems_wrap}
use kg.Base.{arith, refl, true, Text-discrete, none, false, [], ◌∷◌, codes, ◌≡◌, ◌≢◌, All}
use kg.Base.Int.{pos}
use kg.Config.{Config, HostConfig}
use kg.Config.Defaults.{apply_defaults}
use kg.Config.Defaults.Idempotent.{apply_defaults_idempotent}
use kg.Config.Defaults.Complete.{IsReachable, HasSelector, apply_defaults-IsComplete}
use kg.Base.{Text}

abbrev host_of : Text → Text → Text → HostConfig
host_of name address role = record {
  name = name;
  address = address;
  role = role;
  labels = [];
  user = [];
  port = pos 0;
  private_key_path = [];
  passphrase = [];
  password = [];
  host_key_policy = [];
  public_key = [];
}

abbrev small : Config
small = record {
  api_version = codes "kgenesis.io/v1alpha1";
  kind = codes "GenesisConfig";
  cluster = record {
    name = codes "prod";
    namespace = [];
    kubernetes_version = codes "v1.34.1";
    control_plane_endpoint = record { host = codes "10.0.0.9"; port = pos 0 };
    control_plane_replicas = pos 0;
    network = record { pod_cidr = []; service_cidr = []; service_domain = [] };
    image_repository = [];
    pre_kubeadm_commands = [];
    post_kubeadm_commands = [];
    ignore_preflight_errors = [];
    cni = record { manifests = [] };
    virtual_ip = record { enabled = false; interface = []; version = [] };
  };
  ssh = record {
    user = [];
    port = pos 0;
    private_key_path = [];
    passphrase = [];
    password = codes "secret";
    host_key_policy = [];
  };
  hosts =
      host_of (codes "cp-1") (codes "10.0.0.1") (codes "control-plane")
      ∷ host_of (codes "w-1") (codes "10.0.0.2") (codes "worker")
      ∷ [];
  workers = [];
  bootstrap = record {
    cluster_name = [];
    node_image = [];
    capi_version = [];
    cert_manager_version = [];
  };
}

apply_defaults_idempotent_example : apply_defaults (apply_defaults small) ≡ apply_defaults small
apply_defaults_idempotent_example = apply_defaults_idempotent small

apply_defaults-IsComplete_example :
    All IsReachable (apply_defaults small).hosts
    × All HasSelector (apply_defaults small).workers
    × ((apply_defaults small).cluster.control_plane_endpoint.port ≢ pos 0)
    × ((apply_defaults small).cluster.network.pod_cidr ≢ [])
    × ((apply_defaults small).cluster.network.service_cidr ≢ [])
    × ((apply_defaults small).cluster.network.service_domain ≢ [])
apply_defaults-IsComplete_example = apply_defaults-IsComplete small

abbrev environment : Environment
environment = record { is_cidr = λ cidr. true; stat = λ path. none; in_order = true }

abbrev complete : Config
complete = apply_defaults small

complete_valid : validate environment complete ≡ []
unfolding validate apply_defaults Text-discrete is_dns_label has_prefix replica_problems
    pool_problems machine_problems add_int32 worker_replicas
complete_valid = refl

validate-IsSound_example : IsValid complete
validate-IsSound_example = validate-IsSound environment complete complete_valid

abbrev huge : WorkerPool
huge = record {
  name = codes "huge";
  replicas = pos 2147483647;
  host_selector = [];
  node_labels = [];
  node_taints = [];
}

machine_problems_wrap_example :
    machine_problems (pos 1) (worker_replicas (pos 0) (huge ∷ huge ∷ [])) (int32 (pos 3)) ≡ []
machine_problems_wrap_example = machine_problems_wrap 3 huge huge refl refl (omega arith)
