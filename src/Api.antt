-- ===== src/Api.antt =====
-- api/v1alpha1: the objects of the infrastructure provider, and the part of their metadata that the
-- controllers read. A Go map of strings is an association list read by `Maps.get`.
pub mod Maps
use kg.Base.Int.{ℤ}
use kg.Base.{ℕ, Bool, List, Option, Text, codes}
pub use Maps.{Labels}

pub data HostPhase : Type 0 where
  unset pending available claimed provisioned unreachable releasing : HostPhase

-- A Go string, of which three values have a name.
pub data HostKeyPolicy : Type 0 where
  strict tofu insecure : HostKeyPolicy
  unknown_policy : Text → HostKeyPolicy

-- `metav1.ObjectMeta`; `deleting` says that the deletion timestamp is set.
pub record ObjectMeta : Type 0 where
  pub name : Text
  pub namespace : Text
  pub uid : Text
  pub labels : Labels
  pub finalizers : List Text
  pub deleting : Bool
  pub generation : ℕ
  pub resource_version : ℕ

-- `metav1.Condition`, less the transition time, which `meta.SetStatusCondition` keeps.
pub record Condition : Type 0 where
  pub kind : Text
  pub status : Bool
  pub reason : Text
  pub message : Text
  pub observed_generation : ℕ

-- `corev1.ObjectReference`
pub record ObjectReference : Type 0 where
  pub api_version : Text
  pub kind : Text
  pub namespace : Text
  pub name : Text
  pub uid : Text

pub record HostSpec : Type 0 where
  pub address : Text
  pub port : ℕ
  pub user : Text
  pub ssh_secret : Text
  pub host_key_policy : HostKeyPolicy
  pub public_key : Text
  pub unhealthy : Bool

pub record HostSystemInfo : Type 0 where
  pub hostname : Text
  pub os_image : Text
  pub kernel_version : Text
  pub architecture : Text
  pub cpu_cores : ℤ
  pub memory_mb : ℤ
  pub container_runtime : Text

pub record HostStatus : Type 0 where
  pub phase : HostPhase
  pub claim_ref : Option ObjectReference
  pub observed_public_key : Text
  pub last_probe_time : Option ℕ
  pub system_info : Option HostSystemInfo
  pub conditions : List Condition

pub record Host : Type 0 where
  pub meta : ObjectMeta
  pub spec : HostSpec
  pub status : HostStatus

-- `metav1.LabelSelectorRequirement`
pub record Requirement : Type 0 where
  pub key : Text
  pub operator : Text
  pub values : List Text

pub record HostSelector : Type 0 where
  pub match_labels : Labels
  pub match_expressions : List Requirement

pub data AddressType : Type 0 where
  internal_ip host_name : AddressType

-- `clusterv1.MachineAddress`
pub record MachineAddress : Type 0 where
  pub kind : AddressType
  pub address : Text

pub record HostMachineSpec : Type 0 where
  pub provider_id : Option Text
  pub host_selector : Option HostSelector

-- `initialized` is `initialization.provisioned`, `host_ref` the name in the local reference.
pub record HostMachineStatus : Type 0 where
  pub initialized : Option Bool
  pub host_ref : Option Text
  pub addresses : List MachineAddress
  pub bootstrap_data_checksum : Text
  pub conditions : List Condition

pub record HostMachine : Type 0 where
  pub meta : ObjectMeta
  pub spec : HostMachineSpec
  pub status : HostMachineStatus

pub record Endpoint : Type 0 where
  pub host : Text
  pub port : ℕ

pub record HostCluster : Type 0 where
  pub meta : ObjectMeta
  pub endpoint : Endpoint
  pub initialized : Option Bool
  pub conditions : List Condition

-- What the controllers read of the Cluster API objects: `clusterv1.Cluster` and `clusterv1.Machine`.
pub record Cluster : Type 0 where
  pub meta : ObjectMeta
  pub infrastructure_provisioned : Option Bool
  pub infrastructure_kind : Text
  pub infrastructure_name : Text

pub record Machine : Type 0 where
  pub meta : ObjectMeta
  pub data_secret_name : Option Text
  pub infrastructure_kind : Text
  pub infrastructure_name : Text

abbrev pub cluster_finalizer : Text
cluster_finalizer = codes "hostcluster.infrastructure.kgenesis.io/finalizer"

abbrev pub machine_finalizer : Text
machine_finalizer = codes "hostmachine.infrastructure.kgenesis.io/finalizer"

abbrev pub host_finalizer : Text
host_finalizer = codes "host.infrastructure.kgenesis.io/finalizer"

abbrev pub role_label : Text
role_label = codes "kgenesis.io/role"

abbrev pub claimed_by_label : Text
claimed_by_label = codes "kgenesis.io/claimed-by"

abbrev pub cluster_name_label : Text
cluster_name_label = codes "kgenesis.io/cluster-name"
