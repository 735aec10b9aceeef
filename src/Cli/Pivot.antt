-- ===== src/Cli/Pivot.antt =====
-- internal/cli/pivot.go: what a cluster needs to manage itself, its release and its move, and what the
-- genesis node still manages.
pub mod Eject
pub mod Dropped
use kg.Base.{
  ℕ, zero, suc, Bool, true, false, not, ◌&&◌, ◌||◌, List, [], ◌∷◌, ◌++◌, Option, none, some, Result,
  ok, err, Text, codes, eqb, ◌==◌, if◌then◌else◌, length,
}
use kg.Base.Int.{ℤ, pos, ltb_ℤ}
use kg.Base.Strings.{join, itoa, print_int}
use kg.Base.Paths.{dir_path}
use kg.Api.{Host, HostPhase, available, unset, role_label, ObjectReference}
use kg.Api.Maps.{get}
use kg.Compare.{sort_texts}
use kg.Config.{Config, WorkerPool}
use kg.Config.Defaults.{control_plane_role, worker_role}
use kg.Platform.{
  Error, new_error, wrap, is_not_found, Io, ◌>>=◌, ◌>>◌, pure, fail, attempt, with_context,
}
use kg.Registry.{managed, self_managed, released}
use kg.Cli.{
  Options, Surroundings, invoke, bootstrap_kubeconfig, workload_path, remember,
  require_genesis_managed,
}
use kg.Cli.Summary.{Cluster, Management, Summary, ready, cluster_summary}

abbrev is_available : HostPhase → Bool
is_available available = true
is_available _ = false

abbrev is_unclaimed : Option ObjectReference → Bool
is_unclaimed none = true
is_unclaimed (some r) = false

-- A host that nothing claims and that answers.
abbrev pub is_spare : Host → Bool
is_spare h = is_unclaimed h.status.claim_ref && is_available h.status.phase

-- `spare[role]`, of the map that `checkSelfManageable` counts.
unfoldable pub spare : Text → List Host → ℕ
spare role [] = zero
spare role (h ∷ hs) =
    let rest = spare role hs in
    if is_spare h && get role_label h.meta.labels == role then suc rest else rest

abbrev unless : Bool → Text → List Text
unless true problem = []
unless false problem = problem ∷ []

abbrev has_pools : List WorkerPool → Bool
has_pools [] = false
has_pools (w ∷ ws) = true

-- What keeps a cluster from managing itself, of its hosts.
unfoldable pub problems : Config → List Host → List Text
unfolding spare
problems cfg hosts =
    unless (not (ltb_ℤ cfg.cluster.control_plane_replicas (pos 3))) (
      codes "the control plane has "
      ++ print_int cfg.cluster.control_plane_replicas
      ++ codes " replica(s); etcd needs 3 to keep quorum while one is replaced")
    ++ unless (not (eqb (spare control_plane_role hosts) 0))
        (codes "no control plane host is free, so the control plane can never be rolled")
    ++ unless (not (has_pools cfg.workers && eqb (spare worker_role hosts) 0))
        (codes "no worker host is free, so a worker pool can never be rolled")

abbrev pub is_paused : Cluster → Bool
is_paused c = elim c.paused [ none ↦ false | some p ↦ p ]

-- The names of the clusters that the genesis node still manages.
unfoldable pub remaining : Text → List Cluster → List Text
remaining ejected [] = []
remaining ejected (c ∷ cs) =
    let rest = remaining ejected cs in
    if c.namespace == ejected || is_paused c
    then rest
    else (c.namespace ++ codes "/" ++ c.name) ∷ rest

-- `inventoryCount`
pub record InventoryCount : Type 0 where
  pub hosts : ℕ
  pub host_machines : ℕ

abbrev pub same_count : InventoryCount → InventoryCount → Bool
same_count a b = eqb a.hosts b.hosts && eqb a.host_machines b.host_machines

-- `RetryOnConflict` of client-go; `kube.NewClient` of a kubeconfig; the images and the providers
-- that `moveToCluster` brings to a cluster, `capi.Move` and the deletion of a kind cluster, which
-- are calls of external programs.
pub record Tools (W : Type 0) : Type 0 where
  pub retry_on_conflict : Io W (Unit {0}) → Io W (Unit {0})
  pub new_client : Text → Io W (Management W)
  pub carry_image : Config → Io W (Unit {0})
  pub install_providers : Config → Text → Io W (Unit {0})
  pub move : Text → Text → Text → Bool → Io W (Unit {0})
  pub delete_bootstrap : Text → Text → Io W (Unit {0})

abbrev list_of_problems : List Text → Text
list_of_problems ps = join ps (codes "\n  - ")

module _ {W : Type 0} (around : Surroundings W) (o : Options) (tools : Tools W) where
  abbrev pub refuse_problems : Config → List Text → Io W (Unit {0})
  refuse_problems cfg [] = pure tt
  refuse_problems cfg (p ∷ ps) = fail (
      new_error (
        cfg.cluster.name
        ++ codes " cannot manage itself:\n  - "
        ++ list_of_problems (p ∷ ps)
        ++ codes "\n\nAdd hosts to the pool and retry, or run `"
        ++ invoke around.binary_name (codes "eject")
        ++ codes "` to release it instead"))

  -- `checkSelfManageable`
  unfoldable pub check_self_manageable : Management W → Config → Io W (Unit {0})
  unfolding problems
  check_self_manageable c cfg = do
    hosts ←
        with_context (codes "read the host pool in " ++ cfg.cluster.namespace ++ codes ": ")
          (c.list_hosts cfg.cluster.namespace)
    refuse_problems cfg (problems cfg hosts)

  abbrev pause_unless : Management W → Cluster → Io W (Unit {0})
  pause_unless c cluster =
      if is_paused cluster
      then pure tt
      else c.update_cluster (record cluster { paused = some true })

  -- `pauseCluster`
  unfoldable pub pause_cluster : Management W → Config → Io W (Unit {0})
  pause_cluster c cfg =
      with_context
        (codes "release cluster "
          ++ cfg.cluster.namespace
          ++ codes "/"
          ++ cfg.cluster.name
          ++ codes ": ")
        (tools.retry_on_conflict (do
          cluster ← c.get_cluster cfg.cluster.namespace cfg.cluster.name
          pause_unless c cluster))

  -- `countInventory`
  unfoldable pub count_inventory : Management W → Text → Io W InventoryCount
  count_inventory c namespace = do
    hosts ←
        with_context (codes "count the hosts in " ++ namespace ++ codes ": ")
          (c.list_hosts namespace)
    machines ←
        with_context (codes "count the host machines in " ++ namespace ++ codes ": ")
          (c.list_host_machines namespace)
    pure (record { hosts = length hosts; host_machines = length machines })

  abbrev refuse_difference : Text → InventoryCount → InventoryCount → Io W (Unit {0})
  refuse_difference name held landed =
      if same_count landed held
      then pure tt
      else fail (
          new_error (
            codes "the move left part of "
            ++ name
            ++ codes " behind: the genesis node had "
            ++ itoa held.hosts
            ++ codes " host(s) and "
            ++ itoa held.host_machines
            ++ codes " host machine(s), "
            ++ name
            ++ codes " has "
            ++ itoa landed.hosts
            ++ codes " and "
            ++ itoa landed.host_machines
            ++ codes ". The bootstrap cluster was left alone"))

  -- `verifyMoved`
  unfoldable pub verify_moved : Text → Text → Text → InventoryCount → Io W (Unit {0})
  unfolding count_inventory
  verify_moved kubeconfig namespace name held = do
    c ← tools.new_client kubeconfig
    cluster ←
        with_context
          (codes "cluster "
            ++ namespace
            ++ codes "/"
            ++ name
            ++ codes
                " is not present in the target cluster after the move, so the bootstrap cluster "
            ++ codes "was left alone: ")
          (c.get_cluster namespace name)
    landed ← count_inventory c namespace
    refuse_difference name held landed

  -- `moveToCluster`
  unfoldable pub move_to_cluster : Management W → Config → Text → Bool → Io W (Unit {0})
  unfolding verify_moved count_inventory
  move_to_cluster c cfg workload dry_run = do
    tools.carry_image cfg
    tools.install_providers cfg workload
    held ← count_inventory c cfg.cluster.namespace
    tools.move (bootstrap_kubeconfig o) workload cfg.cluster.namespace dry_run
    (if dry_run then pure tt else verify_moved workload cfg.cluster.namespace cfg.cluster.name held)

  -- `clustersRemaining`
  unfoldable pub clusters_remaining : Management W → Text → Io W (List Text)
  unfolding remaining
  clusters_remaining c ejected = do
    clusters ← with_context (codes "list the clusters still managed here: ") c.list_clusters
    pure (sort_texts (remaining ejected clusters))
