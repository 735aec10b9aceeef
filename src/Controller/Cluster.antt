-- ===== src/Controller/Cluster.antt =====
-- internal/controller/hostcluster_controller.go: a host cluster is provisioned once its control
-- plane endpoint is set.
use kg.Base.{
  ℕ, Bool, true, false, ◌||◌, List, [], ◌∷◌, Option, none, some, Result, ok, err, Text, codes, ◌==◌,
  eqb, if◌then◌else◌, ◌≡◌, ◌≢◌, ◌↔◌, arith,
}
use kg.Api.{HostCluster, Cluster, Endpoint, cluster_finalizer}
use kg.Platform.{Error, is_not_found, Io, ◌>>=◌, ◌>>◌, pure, fail, attempt}
use kg.Platform.Client.{Client}
use kg.Platform.Library.{Library}
use kg.Controller.{set_condition}
use kg.Controller.Machine.{Request, or_patch_error}

-- `clusterToHostCluster`
unfoldable pub cluster_request : Cluster → List Request
cluster_request cluster =
    if cluster.infrastructure_kind == codes "HostCluster"
    then record { namespace = cluster.meta.namespace; name = cluster.infrastructure_name } ∷ []
    else []

unfoldable pub is_missing : Endpoint → Bool
is_missing endpoint = endpoint.host == [] || eqb endpoint.port 0

module _ (lib : Library) where
  unfoldable pub report : HostCluster → Bool → Text → Text → HostCluster
  report hc ready reason message = record hc {
    initialized = some ready;
    conditions =
        set_condition lib hc.conditions (codes "Ready") ready reason message hc.meta.generation;
  }

  unfoldable pub with_finalizers : HostCluster → List Text → HostCluster
  with_finalizers hc finalizers = record hc { meta = record hc.meta { finalizers = finalizers } }

  unfoldable pub with_finalizer : HostCluster → HostCluster
  unfolding with_finalizers
  with_finalizer hc =
      if lib.contains_finalizer hc.meta.finalizers cluster_finalizer
      then hc
      else with_finalizers hc (lib.add_finalizer hc.meta.finalizers cluster_finalizer)

  -- `Reconcile` of a host cluster that has its owner, before the deferred patch; it makes no call.
  unfoldable pub reconcile_cluster : HostCluster → HostCluster
  unfolding report with_finalizer is_missing
  reconcile_cluster hc =
      if hc.meta.deleting
      then with_finalizers hc (lib.remove_finalizer hc.meta.finalizers cluster_finalizer)
      else if is_missing hc.endpoint
      then report (with_finalizer hc) false (codes "MissingControlPlaneEndpoint") (
          codes
            "spec.controlPlaneEndpoint must be set: kg does not allocate one for pre-provisioned hosts")
      else report (with_finalizer hc) true (codes "ControlPlaneEndpointSet")
          (codes "Control plane endpoint is set")

  -- A live host cluster is reported provisioned exactly where its endpoint has a host and a port.
  pub reconcile_cluster-initialized :
      (hc : HostCluster)
      → hc.meta.deleting ≡ false
      → ((reconcile_cluster hc).initialized ≡ some true)
        ↔ ((hc.endpoint.host ≢ []) × (hc.endpoint.port ≢ 0))
  unfolding reconcile_cluster
  reconcile_cluster-initialized hc live = (λ h. ground arith, λ h. ground arith)

module _ {W : Type 0} (lib : Library) (client : Client W) where
  abbrev pub patched : HostCluster → Io W ℕ
  patched hc w =
      let (p, v) = client.patch_host_cluster hc (reconcile_cluster lib hc) w in
      (or_patch_error (ok 0) p, v)

  abbrev pub with_owner : HostCluster → Option Cluster → Io W ℕ
  with_owner hc none = pure 0
  with_owner hc (some cluster) =
      if client.is_paused cluster hc.meta then pure 0 else do client.new_helper hc.meta; patched hc

  abbrev pub after_get : Result Error HostCluster → Io W ℕ
  after_get (err e) = if is_not_found e then pure 0 else fail e
  after_get (ok hc) = do owner ← client.get_owner_cluster hc.meta; with_owner hc owner

  -- `Reconcile`
  unfoldable pub reconcile : Text → Text → Io W ℕ
  unfolding reconcile_cluster
  reconcile namespace name = do r ← attempt (client.get_host_cluster namespace name); after_get r
