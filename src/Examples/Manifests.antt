-- ===== src/Examples/Manifests.antt =====
-- The objects of a configuration with two hosts that share a password.
use kg.Base.{false, [], ◌∷◌, ok, err, Text, Text-discrete, codes, ◌≡◌, refl, ne_of_==}
use kg.Base.Int.{pos}
use kg.Config.{Config, HostConfig}
use kg.Config.Defaults.{control_plane_role}
use kg.Inventory.Sort.{HasDistinctNames}
use kg.Platform.{new_error}
use kg.Render.{ClusterApi}
use kg.Render.Objects.{Objects}
use kg.Render.Secrets.{Keys, render}
use kg.Render.Provided.{AreProvided, render-AreProvided}

abbrev host : Text → Text → HostConfig
host name address = record {
  name = name;
  address = address;
  role = control_plane_role;
  labels = [];
  user = codes "root";
  port = pos 22;
  private_key_path = [];
  passphrase = [];
  password = codes "secret";
  host_key_policy = codes "TOFU";
  public_key = [];
}

abbrev lab : Config
lab = record {
  api_version = [];
  kind = [];
  cluster = record {
    name = codes "lab";
    namespace = codes "lab";
    kubernetes_version = codes "v1.34.1";
    control_plane_endpoint = record { host = codes "10.10.0.100"; port = pos 6443 };
    control_plane_replicas = pos 1;
    network = record { pod_cidr = []; service_cidr = []; service_domain = [] };
    image_repository = [];
    pre_kubeadm_commands = [];
    post_kubeadm_commands = [];
    ignore_preflight_errors = [];
    cni = record { manifests = [] };
    virtual_ip = record { enabled = false; interface = []; version = [] };
  };
  ssh = record {
    user = [];
    port = pos 22;
    private_key_path = [];
    passphrase = [];
    password = [];
    host_key_policy = [];
  };
  hosts = host (codes "cp-1") (codes "10.10.0.11") ∷ host (codes "cp-2") (codes "10.10.0.12") ∷ [];
  workers = [];
  bootstrap = record {
    cluster_name = [];
    node_image = [];
    capi_version = [];
    cert_manager_version = [];
  };
}

abbrev env : Keys
env = record { read_key = λ p. err (new_error (codes "no such file")); checksum = λ s. s }

abbrev api : ClusterApi
api = record { cluster_name_label = codes "cluster-name"; oldest_first = codes "Oldest" }

rendered : (objs : Objects) × (render env api lab ≡ ok objs)
unfolding render
rendered = (_, refl)

lab-HasDistinctNames : HasDistinctNames (λ (h : HostConfig). h.name) lab.hosts
unfolding Text-discrete
lab-HasDistinctNames = ((ne_of_== _ _ refl, tt), (tt, tt))

render-AreProvided_example : AreProvided env api rendered.0.secrets lab.hosts rendered.0.hosts
render-AreProvided_example =
    render-AreProvided env api lab rendered.0 lab-HasDistinctNames rendered.1
