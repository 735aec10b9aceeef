-- ===== src/Platform/Client.antt =====
-- The Kubernetes API client (`client.Client` of controller-runtime, the patch helper and the owner
-- lookups of Cluster API) over a world `W` of which nothing is known.
use kg.Base.{ℕ, Bool, List, Option, Text}
use kg.Api.{Labels, Host, HostMachine, HostCluster, Cluster, Machine, ObjectMeta}
use kg.Platform.{Io}

pub record Client (W : Type 0) : Type 0 where
  -- `Get` and `List`, by namespace and name
  pub get_host : Text → Text → Io W Host
  pub list_hosts : Text → Io W (List Host)
  pub get_host_machine : Text → Text → Io W HostMachine
  pub get_host_cluster : Text → Text → Io W HostCluster
  pub get_secret : Text → Text → Io W Labels
  pub list_machines : Text → Text → Io W (List Machine)
  -- `Update` and `Status().Update`, which return the object as the server stored it
  pub update_host : Host → Io W Host
  pub update_host_status : Host → Io W Host
  -- `patch.NewHelper`
  pub new_helper : ObjectMeta → Io W (Unit {0})
  -- `helper.Patch`, from the object as it was read to the object as it is now
  pub patch_host : Host → Host → Io W (Unit {0})
  pub patch_host_machine : HostMachine → HostMachine → Io W (Unit {0})
  pub patch_host_cluster : HostCluster → HostCluster → Io W (Unit {0})
  -- `util.GetOwnerMachine`, `util.GetClusterFromMetadata` and `util.GetOwnerCluster`
  pub get_owner_machine : ObjectMeta → Io W (Option Machine)
  pub get_cluster_from_metadata : ObjectMeta → Io W (Option Cluster)
  pub get_owner_cluster : ObjectMeta → Io W (Option Cluster)
  -- `annotations.IsPaused`
  pub is_paused : Cluster → ObjectMeta → Bool
  -- `metav1.Now`
  pub now : W → ℕ
