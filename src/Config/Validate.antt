-- ===== src/Config/Validate.antt =====
-- internal/config/load.go: `Validate`, which collects the message of every problem. CIDRs and files are
-- looked up by a parameter.
pub mod Fresh
pub mod Sound
pub mod Wrap
use kg.Base.{
  ℕ, zero, suc, Bool, true, false, not, ◌&&◌, ◌||◌, ◌+◌, ◌%◌, List, [], ◌∷◌, ◌++◌, Option, none,
  some, Text, codes, length, ltb, leb, eqb, ◌==◌, if◌then◌else◌,
}
use kg.Base.Int.{ℤ, pos, negsuc, int32, add_int32, ltb_ℤ}
use kg.Base.Strings.{has_prefix, go_quote, itoa, print_int}
use kg.Config.{Taint, ClusterConfig, NetworkConfig, HostConfig, WorkerPool, Config}
use kg.Config.Defaults.{control_plane_role, worker_role, hosts_with_role, count_role}
use kg.Config.Checks.{
  Environment, is_alnum, label_rest, is_dns_label, is_url, member, unless, name_problem, seen_name,
  header_problems, cluster_name_problem, version_problem, role_problem, credential_problem,
  policy_problem, address_problem, seen_address, is_even,
}

-- The switch on the number of control plane machines.
unfoldable pub replica_problems : ℤ → ℤ → List Text
replica_problems hosts n =
    if ltb_ℤ n (pos 1)
    then codes "cluster.controlPlaneReplicas must be at least 1; no host has role \"control-plane\""
      ∷ []
    else if is_even n
    then (codes "cluster.controlPlaneReplicas is "
        ++ print_int n
        ++ codes "; etcd quorum needs an odd number")
      ∷ []
    else unless (not (ltb_ℤ hosts n)) (
        codes "cluster.controlPlaneReplicas is "
        ++ print_int n
        ++ codes " but only "
        ++ print_int hosts
        ++ codes " host(s) have role \"control-plane\"")

-- The sum of the replicas of the pools, as an int32.
unfoldable pub worker_replicas : ℤ → List WorkerPool → ℤ
worker_replicas total [] = total
worker_replicas total (w ∷ ws) = worker_replicas (add_int32 total w.replicas) ws

-- The check that the inventory has a host for every machine.
unfoldable pub machine_problems : ℤ → ℤ → ℤ → List Text
machine_problems control_plane workers hosts =
    let want = add_int32 control_plane workers in
    unless (not (ltb_ℤ hosts want)) (
      print_int want
      ++ codes " machines requested ("
      ++ print_int control_plane
      ++ codes " control plane + "
      ++ print_int workers
      ++ codes " worker) but the inventory has only "
      ++ print_int hosts
      ++ codes " host(s)")

abbrev pub effect_is_known : Text → Bool
effect_is_known effect =
    effect == codes "NoSchedule"
    || effect == codes "PreferNoSchedule"
    || effect == codes "NoExecute"

-- The loop over the taints of a pool; `j` is the index.
unfoldable pub taint_problems : Text → ℕ → List Taint → List Text
taint_problems where' j [] = []
taint_problems where' j (t ∷ ts) =
    let taint = where' ++ codes ".nodeTaints[" ++ itoa j ++ codes "]" in
    unless (effect_is_known t.effect) (
      taint
      ++ codes ".effect "
      ++ go_quote t.effect
      ++ codes " must be NoSchedule, PreferNoSchedule or NoExecute")
    ++ unless (not (t.key == [])) (taint ++ codes ".key is required")
    ++ taint_problems where' (suc j) ts

-- The loop over the pools, with the names seen.
unfoldable pub pool_problems : ℕ → List Text → List WorkerPool → List Text
unfolding taint_problems
pool_problems i seen [] = []
pool_problems i seen (w ∷ ws) =
    let where' = codes "workers[" ++ itoa i ++ codes "]" in
    name_problem where' w.name seen
    ++ unless (not (ltb_ℤ w.replicas (pos 0))) (where' ++ codes ".replicas must not be negative")
    ++ taint_problems where' zero w.node_taints
    ++ pool_problems (suc i) (seen_name w.name seen) ws

module _ (env : Environment) where
  abbrev pub cidr_problem : Text → Text → List Text
  cidr_problem field cidr =
      unless (env.is_cidr cidr)
        (field ++ codes " " ++ go_quote cidr ++ codes " is not a valid CIDR")

  unfoldable pub cidr_problems : NetworkConfig → List Text
  cidr_problems network =
      let pods = cidr_problem (codes "cluster.network.podCIDR") network.pod_cidr in
      let services = cidr_problem (codes "cluster.network.serviceCIDR") network.service_cidr in
      if env.in_order then pods ++ services else services ++ pods

  abbrev pub manifest_problem : ℕ → Text → Option Text → List Text
  manifest_problem i manifest none = []
  manifest_problem i manifest (some e) =
      (codes "cluster.cni.manifests["
        ++ itoa i
        ++ codes "] "
        ++ go_quote manifest
        ++ codes " is not readable: "
        ++ e)
      ∷ []

  unfoldable pub manifest_problems : ℕ → List Text → List Text
  manifest_problems i [] = []
  manifest_problems i (m ∷ ms) =
      let rest = manifest_problems (suc i) ms in
      if is_url m then rest else manifest_problem i m (env.stat m) ++ rest

  -- A key that cannot be read and is not reported yet.
  abbrev pub is_unread : Text → List Text → Option Text
  is_unread path reported = if path == [] || member path reported then none else env.stat path

  abbrev pub key_problem : Text → Text → Text → Option Text → List Text
  key_problem where' shared path none = []
  key_problem where' shared path (some e) =
      ((if path == shared then codes "ssh.privateKeyPath " else where' ++ codes ".privateKeyPath ")
        ++ go_quote path
        ++ codes " is not readable: "
        ++ e)
      ∷ []

  abbrev pub reported_key : Text → Option Text → List Text → List Text
  reported_key path none reported = reported
  reported_key path (some e) reported = path ∷ reported

  -- The loop over the hosts, with the names and addresses seen and the keys reported.
  unfoldable pub host_problems :
      Text → ℕ → List Text → List Text → List Text → List HostConfig → List Text
  host_problems shared i names addresses reported [] = []
  host_problems shared i names addresses reported (h ∷ hs) =
      let where' = codes "hosts[" ++ itoa i ++ codes "]" in
      let unread = is_unread h.private_key_path reported in
      name_problem where' h.name names
      ++ address_problem where' h.address addresses
      ++ role_problem where' h
      ++ credential_problem where' h
      ++ key_problem where' shared h.private_key_path unread
      ++ policy_problem where' h
      ++ host_problems shared (suc i) (seen_name h.name names) (seen_address h.address addresses)
          (reported_key h.private_key_path unread reported) hs

  abbrev pub no_hosts : List HostConfig → List Text
  no_hosts [] = codes "hosts must contain at least one entry" ∷ []
  no_hosts (h ∷ hs) = []

  -- `Validate`: the messages that `errors.Join` joins; none is no error.
  unfoldable pub validate : Config → List Text
  unfolding header_problems cidr_problems manifest_problems host_problems
  validate c =
      header_problems c
      ++ cluster_name_problem c.cluster.name
      ++ version_problem c.cluster.kubernetes_version
      ++ unless (not (c.cluster.control_plane_endpoint.host == []))
          (codes "cluster.controlPlaneEndpoint.host is required")
      ++ cidr_problems c.cluster.network
      ++ manifest_problems zero c.cluster.cni.manifests
      ++ no_hosts c.hosts
      ++ host_problems c.ssh.private_key_path zero [] [] [] c.hosts
      ++ replica_problems (count_role control_plane_role c.hosts) c.cluster.control_plane_replicas
      ++ pool_problems zero [] c.workers
      ++ machine_problems c.cluster.control_plane_replicas (worker_replicas (pos 0) c.workers)
          (int32 (pos (length c.hosts)))
