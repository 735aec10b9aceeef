-- ===== src/Cli/Summary.antt =====
-- internal/cli/cluster.go: the state of a cluster, as the commands count it.
use kg.Base.{
  Bool, true, false, not, ◌&&◌, ◌||◌, List, [], ◌∷◌, ◌++◌, Option, none, some, Result, ok, err,
  Text, codes, ◌==◌, if◌then◌else◌,
}
use kg.Base.Int.{ℤ, pos, ltb_ℤ, add_int32}
use kg.Api.{Labels, Host, HostMachine, Condition}
use kg.Api.Maps.{lookup}
use kg.Config.{Config, WorkerPool}
use kg.Platform.{Error, new_error, is_not_found, Io, ◌>>=◌, pure, fail, attempt}
use kg.Cli.{invoke}

-- What the commands read of `clusterv1.Cluster` and `clusterv1.Machine`.
pub record Cluster : Type 0 where
  pub name : Text
  pub namespace : Text
  pub paused : Option Bool
  pub phase : Text

pub record Machine : Type 0 where
  pub name : Text
  pub phase : Text
  pub labels : Labels

-- The client of a management cluster, `meta.FindStatusCondition`, and constants of Cluster API.
pub record Management (W : Type 0) : Type 0 where
  pub get_cluster : Text → Text → Io W Cluster
  pub update_cluster : Cluster → Io W (Unit {0})
  pub list_clusters : Io W (List Cluster)
  pub list_machines : Text → Text → Io W (List Machine)
  pub list_hosts : Text → Io W (List Host)
  pub list_host_machines : Text → Io W (List HostMachine)
  pub find_status_condition : List Condition → Text → Option Condition
  pub running_phase : Text
  pub control_plane_label : Text

-- `machineFailure`
pub record MachineFailure : Type 0 where
  pub machine : Text
  pub host : Text
  pub message : Text

-- `summary`
pub record Summary : Type 0 where
  pub cluster : Cluster
  pub control_plane_ready : ℤ
  pub control_plane_desired : ℤ
  pub machines : List Machine
  pub machines_running : ℤ
  pub machines_desired : ℤ
  pub hosts : List Host
  pub failures : List MachineFailure

-- Two int32 are the same.
abbrev same_int : ℤ → ℤ → Bool
same_int a b = not (ltb_ℤ a b) && not (ltb_ℤ b a)

-- `ready`
unfoldable pub ready : Summary → Bool
ready s =
    ltb_ℤ (pos 0) s.control_plane_desired
    && same_int s.control_plane_ready s.control_plane_desired
    && ltb_ℤ (pos 0) s.machines_desired
    && same_int s.machines_running s.machines_desired

-- `totalWorkers`; `n` is the sum so far.
unfoldable pub add_workers : ℤ → List WorkerPool → ℤ
add_workers n [] = n
add_workers n (w ∷ ws) = add_workers (add_int32 n w.replicas) ws

abbrev pub total_workers : Config → ℤ
total_workers cfg = add_workers (pos 0) cfg.workers

abbrev host_name : Option Text → Text
host_name none = codes "-"
host_name (some host) = host

module _ {W : Type 0} (c : Management W) where
  abbrev is_running : Machine → Bool
  is_running m = m.phase == c.running_phase

  abbrev has_label : Option Text → Bool
  has_label none = false
  has_label (some v) = true

  abbrev is_control_plane : Machine → Bool
  is_control_plane m = has_label (lookup c.control_plane_label m.labels)

  -- The loop over the machines: the running ones, and those of the control plane.
  unfoldable pub count_running : List Machine → ℤ → ℤ → ℤ × ℤ
  count_running [] running control = (running, control)
  count_running (m ∷ ms) running control =
      count_running ms (if is_running m then add_int32 running (pos 1) else running)
        (if is_running m && is_control_plane m then add_int32 control (pos 1) else control)

  abbrev failure_of : HostMachine → Option Condition → Option MachineFailure
  failure_of m none = none
  failure_of m (some condition) =
      if condition.status || not (condition.reason == codes "BootstrapFailed")
      then none
      else some (record {
        machine = m.meta.name;
        host = host_name m.status.host_ref;
        message = condition.message;
      })

  -- `bootstrapFailure`
  unfoldable pub bootstrap_failure : HostMachine → Option MachineFailure
  bootstrap_failure m =
      failure_of m (c.find_status_condition m.status.conditions (codes "Provisioned"))

  abbrev add_failure : Option MachineFailure → List MachineFailure → List MachineFailure
  add_failure none fs = fs
  add_failure (some f) fs = f ∷ fs

  unfoldable pub bootstrap_failures : List HostMachine → List MachineFailure
  unfolding bootstrap_failure
  bootstrap_failures [] = []
  bootstrap_failures (m ∷ ms) = add_failure (bootstrap_failure m) (bootstrap_failures ms)

  abbrev missing_error : Text → Config → Error → Error
  missing_error binary_name cfg e =
      if is_not_found e
      then new_error (
          codes "cluster "
          ++ cfg.cluster.namespace
          ++ codes "/"
          ++ cfg.cluster.name
          ++ codes " does not exist yet; run `"
          ++ invoke binary_name (codes "cluster create")
          ++ codes "`")
      else e

  abbrev found_cluster : Text → Config → Result Error Cluster → Io W Cluster
  found_cluster binary_name cfg (ok cluster) = pure cluster
  found_cluster binary_name cfg (err e) = fail (missing_error binary_name cfg e)

  -- `clusterSummary`
  unfoldable pub cluster_summary : Text → Config → Io W Summary
  unfolding count_running bootstrap_failures
  cluster_summary binary_name cfg = do
    r ← attempt (c.get_cluster cfg.cluster.namespace cfg.cluster.name)
    cluster ← found_cluster binary_name cfg r
    machines ← c.list_machines cfg.cluster.namespace cfg.cluster.name
    hosts ← c.list_hosts cfg.cluster.namespace
    host_machines ← c.list_host_machines cfg.cluster.namespace
    let counted = count_running machines (pos 0) (pos 0)
    pure (record {
      cluster = cluster;
      control_plane_ready = counted.1;
      control_plane_desired = cfg.cluster.control_plane_replicas;
      machines = machines;
      machines_running = counted.0;
      machines_desired = add_int32 cfg.cluster.control_plane_replicas (total_workers cfg);
      hosts = hosts;
      failures = bootstrap_failures host_machines;
    })
