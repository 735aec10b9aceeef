-- ===== src/Render.antt =====
-- internal/render: the Cluster API objects, the pool of hosts and the secrets of a configuration.
pub mod Texts
pub mod Objects
pub mod Machines
pub mod Secrets
pub mod Provided
use kg.Base.{
  Bool, true, false, List, [], ◌∷◌, ◌++◌, map, Option, none, some, Text, codes, ◌==◌, if◌then◌else◌,
}
use kg.Base.Int.{ℤ}
use kg.Base.Strings.{join}
use kg.Api.{role_label}
use kg.Api.Maps.{Labels, get, put}
use kg.Compare.{sort_texts}
use kg.Config.{Config, HostConfig, WorkerPool, Taint}
use kg.Config.Defaults.{control_plane_role}
use Texts.{node_preflight_commands, kube_vip_manifest}
use Objects.{
  Meta, Secret, Host, Reference, Cluster, Arg, NodeRegistration, File, KubeadmSpec, HostCluster,
  MachineTemplate, ControlPlane, ConfigTemplate, Deployment, Infra, host_cluster, machine_template,
  control_plane, config_template, deployment,
}

abbrev pub infra_api_group : Text
infra_api_group = codes "infrastructure.kgenesis.io"

abbrev pub bootstrap_api_group : Text
bootstrap_api_group = codes "bootstrap.cluster.x-k8s.io"

abbrev pub control_plane_api_group : Text
control_plane_api_group = codes "controlplane.cluster.x-k8s.io"

-- `ControlPlaneName` and `ControlPlaneTemplateName`
abbrev pub control_plane_name : Text → Text
control_plane_name cluster = cluster ++ codes "-control-plane"

-- `WorkerTemplateName`, `WorkerBootstrapName` and `WorkerDeploymentName`
abbrev pub worker_name : Text → Text → Text
worker_name cluster pool = cluster ++ codes "-" ++ pool

-- A Go map as the labels that a loop puts into another.
abbrev pub put_all : Labels → Labels → Labels
put_all [] labels = labels
put_all ((k, v) ∷ m) labels = put_all m (put k v labels)

-- `renderHost`
unfoldable pub render_host : Config → HostConfig → Text → Host
render_host cfg h secret_name = record {
  meta = record {
    name = h.name;
    namespace = cfg.cluster.namespace;
    labels = put_all h.labels ((role_label, h.role) ∷ []);
  };
  address = h.address;
  port = h.port;
  user = h.user;
  ssh_secret = secret_name;
  host_key_policy = h.host_key_policy;
  public_key = h.public_key;
}

abbrev pub reference : Text → Text → Text → Reference
reference group kind name = record { api_group = group; kind = kind; name = name }

abbrev pub plain_meta : Config → Text → Meta
plain_meta cfg name = record { name = name; namespace = cfg.cluster.namespace; labels = [] }

-- `renderCluster`
unfoldable pub render_cluster : Config → Cluster
render_cluster cfg = record {
  meta = plain_meta cfg cfg.cluster.name;
  pods = cfg.cluster.network.pod_cidr ∷ [];
  services = cfg.cluster.network.service_cidr ∷ [];
  service_domain = cfg.cluster.network.service_domain;
  control_plane_ref =
      reference control_plane_api_group (codes "KubeadmControlPlane")
        (control_plane_name cfg.cluster.name);
  infrastructure_ref = reference infra_api_group (codes "HostCluster") cfg.cluster.name;
}

-- `renderHostCluster`
unfoldable pub render_host_cluster : Config → HostCluster
render_host_cluster cfg = record {
  meta = plain_meta cfg cfg.cluster.name;
  endpoint = cfg.cluster.control_plane_endpoint;
}

-- `renderControlPlaneMachineTemplate`
unfoldable pub render_control_plane_template : Config → MachineTemplate
render_control_plane_template cfg = record {
  meta = plain_meta cfg (control_plane_name cfg.cluster.name);
  match_labels = (role_label, control_plane_role) ∷ [];
}

-- Constants of Cluster API: `clusterv1.ClusterNameLabel` and
-- `clusterv1.OldestMachineSetDeletionOrder`.
pub record ClusterApi : Type 0 where
  pub cluster_name_label : Text
  pub oldest_first : Text

module _ (api : ClusterApi) where
  -- `poolLabels`
  abbrev pub pool_labels : Config → Labels
  pool_labels cfg = (api.cluster_name_label, cfg.cluster.name) ∷ []

  abbrev pub pooled_meta : Config → Text → Meta
  pooled_meta cfg name = record {
    name = name;
    namespace = cfg.cluster.namespace;
    labels = pool_labels cfg;
  }
