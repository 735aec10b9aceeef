-- ===== src/Config.antt =====
-- internal/config/types.go: the configuration that a cluster is stamped out of.
-- An int32 is a signed integer; Go's maps of strings are association lists.
pub mod Defaults
pub mod Checks
pub mod Validate
use kg.Base.{ℕ, Bool, List, Text, codes}
use kg.Base.Int.{ℤ}
use kg.Api.Maps.{Labels}

pub record Endpoint : Type 0 where
  pub host : Text
  pub port : ℤ

pub record NetworkConfig : Type 0 where
  pub pod_cidr : Text
  pub service_cidr : Text
  pub service_domain : Text

pub record CniConfig : Type 0 where
  pub manifests : List Text

pub record VirtualIpConfig : Type 0 where
  pub enabled : Bool
  pub interface : Text
  pub version : Text

pub record ClusterConfig : Type 0 where
  pub name : Text
  pub namespace : Text
  pub kubernetes_version : Text
  pub control_plane_endpoint : Endpoint
  pub control_plane_replicas : ℤ
  pub network : NetworkConfig
  pub image_repository : Text
  pub pre_kubeadm_commands : List Text
  pub post_kubeadm_commands : List Text
  pub ignore_preflight_errors : List Text
  pub cni : CniConfig
  pub virtual_ip : VirtualIpConfig

-- `SSHConfig`
pub record SshDefaults : Type 0 where
  pub user : Text
  pub port : ℤ
  pub private_key_path : Text
  pub passphrase : Text
  pub password : Text
  pub host_key_policy : Text

pub record HostConfig : Type 0 where
  pub name : Text
  pub address : Text
  pub role : Text
  pub labels : Labels
  pub user : Text
  pub port : ℤ
  pub private_key_path : Text
  pub passphrase : Text
  pub password : Text
  pub host_key_policy : Text
  pub public_key : Text

pub record Taint : Type 0 where
  pub key : Text
  pub value : Text
  pub effect : Text

pub record WorkerPool : Type 0 where
  pub name : Text
  pub replicas : ℤ
  pub host_selector : Labels
  pub node_labels : Labels
  pub node_taints : List Taint

pub record BootstrapConfig : Type 0 where
  pub cluster_name : Text
  pub node_image : Text
  pub capi_version : Text
  pub cert_manager_version : Text

pub record Config : Type 0 where
  pub api_version : Text
  pub kind : Text
  pub cluster : ClusterConfig
  pub ssh : SshDefaults
  pub hosts : List HostConfig
  pub workers : List WorkerPool
  pub bootstrap : BootstrapConfig
