-- ===== src/Render/Machines.antt =====
-- internal/render: the control plane and the pools of workers, with their kubeadm configuration.
use kg.Base.{List, [], ◌∷◌, ◌++◌, Option, none, some, Text, codes, ◌==◌, if◌then◌else◌}
use kg.Base.Strings.{join}
use kg.Api.Maps.{Labels, get}
use kg.Compare.{sort_texts}
use kg.Config.{Config, WorkerPool, Taint}
use kg.Render.Texts.{node_preflight_commands, kube_vip_manifest}
use kg.Render.Objects.{
  Arg, NodeRegistration, File, KubeadmSpec, MachineTemplate, ControlPlane, ConfigTemplate,
  Deployment, Infra, machine_template, config_template, deployment,
}
use kg.Render.{
  ClusterApi, infra_api_group, bootstrap_api_group, control_plane_name, worker_name, reference,
  plain_meta, pool_labels, pooled_meta,
}

abbrev pub keys : Labels → List Text
keys [] = []
keys ((k, v) ∷ m) = k ∷ keys m

abbrev pub pairs : Labels → List Text → List Text
pairs labels [] = []
pairs labels (k ∷ ks) = (k ++ codes "=" ++ get k labels) ∷ pairs labels ks

-- `nodeLabelArgs`
unfoldable pub node_label_args : Labels → List Arg
node_label_args [] = []
node_label_args ((k, v) ∷ m) =
    record {
      name = codes "node-labels";
      value = join (pairs ((k, v) ∷ m) (sort_texts (keys ((k, v) ∷ m)))) (codes ",");
    }
    ∷ []

-- `nodeTaints`
unfoldable pub node_taints : List Taint → Option (List Taint)
node_taints [] = none
node_taints (t ∷ ts) = some (t ∷ ts)

-- `withUserCommands`
abbrev pub with_user_commands : List Text → List Text → List Text
with_user_commands ours theirs = ours ++ theirs

abbrev no_registration : NodeRegistration
no_registration = record { kubelet_extra_args = []; taints = none; ignore_preflight_errors = [] }

abbrev ignoring : Config → NodeRegistration
ignoring cfg = record no_registration {
  ignore_preflight_errors = cfg.cluster.ignore_preflight_errors;
}

abbrev pub kube_vip_path : Text
kube_vip_path = codes "/etc/kubernetes/manifests/kube-vip.yaml"

abbrev pub default_kube_vip_version : Text
default_kube_vip_version = codes "v0.8.7"

abbrev kube_vip_file : Config → File
kube_vip_file cfg = record {
  path = kube_vip_path;
  owner = codes "root:root";
  permissions = codes "0600";
  content =
      kube_vip_manifest cfg.cluster.control_plane_endpoint.host
        cfg.cluster.control_plane_endpoint.port cfg.cluster.virtual_ip.interface
        (if cfg.cluster.virtual_ip.version == []
          then default_kube_vip_version
          else cfg.cluster.virtual_ip.version);
}

-- `applyKubeVIP`
unfoldable pub apply_kube_vip : KubeadmSpec → Config → KubeadmSpec
apply_kube_vip spec cfg = record spec {
  files = spec.files ++ kube_vip_file cfg ∷ [];
  pre_kubeadm_commands =
      spec.pre_kubeadm_commands
      ++ (codes
            "sed -i 's#path: /etc/kubernetes/admin.conf#path: /etc/kubernetes/super-admin.conf#' "
          ++ kube_vip_path)
        ∷ [];
  post_kubeadm_commands =
      spec.post_kubeadm_commands
      ++ (codes
            "sed -i 's#path: /etc/kubernetes/super-admin.conf#path: /etc/kubernetes/admin.conf#' "
          ++ kube_vip_path)
        ∷ [];
}

abbrev control_plane_spec : Config → KubeadmSpec
control_plane_spec cfg = record {
  image_repository = cfg.cluster.image_repository;
  cert_sans = cfg.cluster.control_plane_endpoint.host ∷ [];
  init = ignoring cfg;
  join = ignoring cfg;
  pre_kubeadm_commands =
      with_user_commands node_preflight_commands cfg.cluster.pre_kubeadm_commands;
  post_kubeadm_commands = with_user_commands [] cfg.cluster.post_kubeadm_commands;
  files = [];
}

abbrev worker_template : Config → WorkerPool → MachineTemplate
worker_template cfg pool = record {
  meta = plain_meta cfg (worker_name cfg.cluster.name pool.name);
  match_labels = pool.host_selector;
}

abbrev worker_config : Config → WorkerPool → ConfigTemplate
worker_config cfg pool = record {
  meta = plain_meta cfg (worker_name cfg.cluster.name pool.name);
  kubeadm = record {
    image_repository = [];
    cert_sans = [];
    init = no_registration;
    join = record {
      kubelet_extra_args = node_label_args pool.node_labels;
      taints = node_taints pool.node_taints;
      ignore_preflight_errors = cfg.cluster.ignore_preflight_errors;
    };
    pre_kubeadm_commands =
        with_user_commands node_preflight_commands cfg.cluster.pre_kubeadm_commands;
    post_kubeadm_commands = with_user_commands [] cfg.cluster.post_kubeadm_commands;
    files = [];
  };
}

module _ (api : ClusterApi) where
  -- `renderControlPlane`
  unfoldable pub render_control_plane : Config → Text → ControlPlane
  unfolding apply_kube_vip
  render_control_plane cfg template_name = record {
    meta = pooled_meta api cfg (control_plane_name cfg.cluster.name);
    replicas = cfg.cluster.control_plane_replicas;
    version = cfg.cluster.kubernetes_version;
    infrastructure_ref = reference infra_api_group (codes "HostMachineTemplate") template_name;
    kubeadm =
        if cfg.cluster.virtual_ip.enabled
        then apply_kube_vip (control_plane_spec cfg) cfg
        else control_plane_spec cfg;
  }

  abbrev worker_deployment : Config → WorkerPool → Deployment
  worker_deployment cfg pool = record {
    meta = pooled_meta api cfg (worker_name cfg.cluster.name pool.name);
    cluster_name = cfg.cluster.name;
    replicas = pool.replicas;
    match_labels = pool_labels api cfg;
    deletion_order = api.oldest_first;
    template_labels = pool_labels api cfg;
    version = cfg.cluster.kubernetes_version;
    bootstrap_ref =
        reference bootstrap_api_group (codes "KubeadmConfigTemplate")
          (worker_config cfg pool).meta.name;
    infrastructure_ref =
        reference infra_api_group (codes "HostMachineTemplate")
          (worker_template cfg pool).meta.name;
  }

  -- `renderWorkerPool`
  unfoldable pub render_worker_pool : Config → WorkerPool → List Infra
  unfolding node_label_args node_taints
  render_worker_pool cfg pool =
      machine_template (worker_template cfg pool)
      ∷ config_template (worker_config cfg pool)
      ∷ deployment (worker_deployment cfg pool)
      ∷ []

  -- The loop of `Render` over the pools.
  unfoldable pub render_pools : Config → List WorkerPool → List Infra
  unfolding render_worker_pool
  render_pools cfg [] = []
  render_pools cfg (p ∷ ps) = render_worker_pool cfg p ++ render_pools cfg ps
