-- ===== src/Render/Objects.antt =====
-- The objects that internal/render makes, with the fields that it sets.
use kg.Base.{List, Option, Text}
use kg.Base.Int.{ℤ}
use kg.Api.Maps.{Labels}
use kg.Config.{Endpoint, Taint}

pub record Meta : Type 0 where
  pub name : Text
  pub namespace : Text
  pub labels : Labels

-- `corev1.Secret`
pub record Secret : Type 0 where
  pub meta : Meta
  pub data_ : Labels

-- `infrav1.Host`
pub record Host : Type 0 where
  pub meta : Meta
  pub address : Text
  pub port : ℤ
  pub user : Text
  pub ssh_secret : Text
  pub host_key_policy : Text
  pub public_key : Text

-- `clusterv1.ContractVersionedObjectReference`
pub record Reference : Type 0 where
  pub api_group : Text
  pub kind : Text
  pub name : Text

-- `clusterv1.Cluster`
pub record Cluster : Type 0 where
  pub meta : Meta
  pub pods : List Text
  pub services : List Text
  pub service_domain : Text
  pub control_plane_ref : Reference
  pub infrastructure_ref : Reference

-- `bootstrapv1.Arg`
pub record Arg : Type 0 where
  pub name : Text
  pub value : Text

-- `bootstrapv1.NodeRegistrationOptions`
pub record NodeRegistration : Type 0 where
  pub kubelet_extra_args : List Arg
  pub taints : Option (List Taint)
  pub ignore_preflight_errors : List Text

-- `bootstrapv1.File`
pub record File : Type 0 where
  pub path : Text
  pub owner : Text
  pub permissions : Text
  pub content : Text

-- `bootstrapv1.KubeadmConfigSpec`
pub record KubeadmSpec : Type 0 where
  pub image_repository : Text
  pub cert_sans : List Text
  pub init : NodeRegistration
  pub join : NodeRegistration
  pub pre_kubeadm_commands : List Text
  pub post_kubeadm_commands : List Text
  pub files : List File

-- `infrav1.HostCluster`
pub record HostCluster : Type 0 where
  pub meta : Meta
  pub endpoint : Endpoint

-- `infrav1.HostMachineTemplate`, with the labels that its host selector matches
pub record MachineTemplate : Type 0 where
  pub meta : Meta
  pub match_labels : Labels

-- `controlplanev1.KubeadmControlPlane`
pub record ControlPlane : Type 0 where
  pub meta : Meta
  pub replicas : ℤ
  pub version : Text
  pub infrastructure_ref : Reference
  pub kubeadm : KubeadmSpec

-- `bootstrapv1.KubeadmConfigTemplate`
pub record ConfigTemplate : Type 0 where
  pub meta : Meta
  pub kubeadm : KubeadmSpec

-- `clusterv1.MachineDeployment`
pub record Deployment : Type 0 where
  pub meta : Meta
  pub cluster_name : Text
  pub replicas : ℤ
  pub match_labels : Labels
  pub deletion_order : Text
  pub template_labels : Labels
  pub version : Text
  pub bootstrap_ref : Reference
  pub infrastructure_ref : Reference

pub data Infra : Type 0 where
  host_cluster : HostCluster → Infra
  machine_template : MachineTemplate → Infra
  control_plane : ControlPlane → Infra
  config_template : ConfigTemplate → Infra
  deployment : Deployment → Infra

-- `Objects`
pub record Objects : Type 0 where
  pub namespace : Meta
  pub secrets : List Secret
  pub hosts : List Host
  pub cluster : Cluster
  pub infra : List Infra

-- An object of any kind, for `All`.
pub data Object : Type 0 where
  a_namespace : Meta → Object
  a_secret : Secret → Object
  a_host : Host → Object
  a_cluster : Cluster → Object
  an_infra : Infra → Object
