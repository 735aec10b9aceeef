-- ===== src/Config/Validate/Sound.antt =====
-- What a configuration without a reported problem is like.
use kg.Base.{
  ℕ, zero, suc, true, false, not, List, [], ◌∷◌, ◌++◌, Text, codes, ◌==◌, ◌≡◌, ◌≢◌, ◌⊎◌, arith, All,
  length,
}
use kg.Base.Int.{ℤ, pos, int32, add_int32, ltb_ℤ}
use kg.Base.Strings.{itoa}
use kg.Inventory.Sort.{HasDistinctNames}
use kg.Config.{HostConfig, Taint, WorkerPool, Config}
use kg.Config.Defaults.{control_plane_role, worker_role, count_role}
use kg.Config.Checks.{
  Environment, is_dns_label, member, unless, name_problem, seen_name, address_problem, seen_address,
  role_problem, credential_problem, policy_problem, cluster_name_problem, is_even, header_problems,
  version_problem,
}
use kg.Config.Validate.{
  replica_problems, worker_replicas, machine_problems, taint_problems, effect_is_known,
  pool_problems, host_problems, no_hosts, validate, is_unread, key_problem, reported_key,
  cidr_problems, manifest_problems,
}
use kg.Config.Validate.Fresh.{nil_3, nil_4, nil_7, nil_11, IsFresh, IsFresh-HasDistinctNames}

-- What `Validate` requires of a host by itself.
abbrev pub IsUsable : HostConfig → Type 0
IsUsable h =
    (is_dns_label h.name ≡ true)
    × (h.address ≢ [])
    × ((h.role ≡ control_plane_role) ⊎ (h.role ≡ worker_role))
    × ((h.private_key_path ≢ []) ⊎ (h.password ≢ []))
    × (h.host_key_policy ≡ codes "Strict" → h.public_key ≢ [])

name_problem-nil :
    (where' name : Text) (seen : List Text)
    → name_problem where' name seen ≡ []
    → (is_dns_label name ≡ true) × (member name seen ≡ false) × (seen_name name seen ≡ name ∷ seen)
name_problem-nil where' name seen h = (ground arith, ground arith, ground arith)

address_problem-nil :
    (where' address : Text) (seen : List Text)
    → address_problem where' address seen ≡ []
    → (address ≢ []) × (member address seen ≡ false) × (seen_address address seen ≡ address ∷ seen)
address_problem-nil where' address seen h = (ground arith, ground arith, ground arith)

role_problem-nil :
    (where' : Text) (h : HostConfig)
    → role_problem where' h ≡ []
    → (h.role ≡ control_plane_role) ⊎ (h.role ≡ worker_role)
role_problem-nil where' h e = ground arith

credential_problem-nil :
    (where' : Text) (h : HostConfig)
    → credential_problem where' h ≡ []
    → (h.private_key_path ≢ []) ⊎ (h.password ≢ [])
credential_problem-nil where' h e = ground arith

policy_problem-nil :
    (where' : Text) (h : HostConfig)
    → policy_problem where' h ≡ []
    → h.host_key_policy ≡ codes "Strict"
    → h.public_key ≢ []
policy_problem-nil where' h e = ground arith

module _ (env : Environment) (shared : Text) where
  -- The loop over the hosts reports nothing only of usable hosts with new names and addresses.
  host_problems-IsUsable :
      (i : ℕ) (names addresses reported : List Text) (hs : List HostConfig)
      → host_problems env shared i names addresses reported hs ≡ []
      → All IsUsable hs × IsFresh (λ h. h.name) names hs × IsFresh (λ h. h.address) addresses hs
  unfolding host_problems
  host_problems-IsUsable i names addresses reported [] e = (tt, tt, tt)
  host_problems-IsUsable i names addresses reported (h ∷ hs) e =
      let where' = codes "hosts[" ++ itoa i ++ codes "]" in
      let unread = is_unread env h.private_key_path reported in
      let (name, address, role, credential, key, policy, rest) =
        nil_7 (name_problem where' h.name names) (address_problem where' h.address addresses)
          (role_problem where' h) (credential_problem where' h)
          (key_problem env where' shared h.private_key_path unread) (policy_problem where' h)
          (host_problems env shared (suc i) (seen_name h.name names)
            (seen_address h.address addresses) (reported_key env h.private_key_path unread reported)
            hs)
          e in
      let (label, new, seen) = name_problem-nil where' h.name names name in
      let (given, other, seen') = address_problem-nil where' h.address addresses address in
      let (all, fresh, apart) =
        host_problems-IsUsable (suc i) (seen_name h.name names) (seen_address h.address addresses)
          (reported_key env h.private_key_path unread reported) hs rest in
      (
        (
          (
            label,
            given,
            role_problem-nil where' h role,
            credential_problem-nil where' h credential,
            policy_problem-nil where' h policy,
          ),
          all,
        ),
        (new, rw (← seen) fresh),
        (other, rw (← seen') apart),
      )

-- A taint with a key and an effect that Kubernetes knows.
abbrev pub IsTaint : Taint → Type 0
IsTaint t =
    (t.key ≢ [])
    × ((t.effect ≡ codes "NoSchedule")
        ⊎ (t.effect ≡ codes "PreferNoSchedule")
        ⊎ (t.effect ≡ codes "NoExecute"))

taint_problem-nil :
    (t : Taint) (effect key : Text)
    → unless (effect_is_known t.effect) effect ≡ []
    → unless (not (t.key == [])) key ≡ []
    → IsTaint t
taint_problem-nil t effect key e k = (ground arith, ground arith)

taint_problems-IsTaint :
    (where' : Text) (j : ℕ) (ts : List Taint) → taint_problems where' j ts ≡ [] → All IsTaint ts
unfolding taint_problems
taint_problems-IsTaint where' j [] e = tt
taint_problems-IsTaint where' j (t ∷ ts) e =
    let (effect, key, rest) =
      nil_3 (unless (effect_is_known t.effect) _) (unless (not (t.key == [])) _)
        (taint_problems where' (suc j) ts) e in
    (taint_problem-nil t _ _ effect key, taint_problems-IsTaint where' (suc j) ts rest)

-- What `Validate` requires of a pool by itself.
abbrev pub IsPool : WorkerPool → Type 0
IsPool w =
    (is_dns_label w.name ≡ true) × (ltb_ℤ w.replicas (pos 0) ≡ false) × All IsTaint w.node_taints

pool_problems-IsPool :
    (i : ℕ) (names : List Text) (ws : List WorkerPool)
    → pool_problems i names ws ≡ []
    → All IsPool ws × IsFresh (λ w. w.name) names ws
unfolding pool_problems
pool_problems-IsPool i names [] e = (tt, tt)
pool_problems-IsPool i names (w ∷ ws) e =
    let where' = codes "workers[" ++ itoa i ++ codes "]" in
    let (name, replicas, taints, rest) =
      nil_4 (name_problem where' w.name names)
        (unless (not (ltb_ℤ w.replicas (pos 0))) (where' ++ codes ".replicas must not be negative"))
        (taint_problems where' zero w.node_taints)
        (pool_problems (suc i) (seen_name w.name names) ws) e in
    let (label, new, seen) = name_problem-nil where' w.name names name in
    let (all, fresh) = pool_problems-IsPool (suc i) (seen_name w.name names) ws rest in
    (
      ((label, ground arith, taint_problems-IsTaint where' zero w.node_taints taints), all),
      (new, rw (← seen) fresh),
    )

replica_problems-nil :
    (hosts n : ℤ)
    → replica_problems hosts n ≡ []
    → (ltb_ℤ n (pos 1) ≡ false) × (is_even n ≡ false) × (ltb_ℤ hosts n ≡ false)
unfolding replica_problems
replica_problems-nil hosts n e = (ground arith, ground arith, ground arith)

machine_problems-nil :
    (control_plane workers hosts : ℤ)
    → machine_problems control_plane workers hosts ≡ []
    → ltb_ℤ hosts (add_int32 control_plane workers) ≡ false
unfolding machine_problems
machine_problems-nil control_plane workers hosts e = ground arith

no_hosts-nil : (env : Environment) (hs : List HostConfig) → no_hosts env hs ≡ [] → hs ≢ []
no_hosts-nil env [] e h = cc
no_hosts-nil env (h ∷ hs) e h' = cc

-- What `Validate` means to establish: the cluster has a name that is a DNS label; there is a host,
-- every host is usable, and no two have one name or one address; the number of control plane machines
-- is at least one, odd, and not above the number of control plane hosts; every pool has a DNS label,
-- no negative number of replicas and only taints with a key and a known effect, and no two have one name; and the machines, counted in 32 bits, are
-- not more than the hosts.
abbrev pub IsValid : Config → Type 0
IsValid c =
    (is_dns_label c.cluster.name ≡ true)
    × (c.hosts ≢ [])
    × All IsUsable c.hosts
    × HasDistinctNames (λ (h : HostConfig). h.name) c.hosts
    × HasDistinctNames (λ (h : HostConfig). h.address) c.hosts
    × (ltb_ℤ c.cluster.control_plane_replicas (pos 1) ≡ false)
    × (is_even c.cluster.control_plane_replicas ≡ false)
    × (ltb_ℤ (count_role control_plane_role c.hosts) c.cluster.control_plane_replicas ≡ false)
    × All IsPool c.workers
    × HasDistinctNames (λ (w : WorkerPool). w.name) c.workers
    × (ltb_ℤ (int32 (pos (length c.hosts)))
          (add_int32 c.cluster.control_plane_replicas (worker_replicas (pos 0) c.workers))
        ≡ false)

-- Where `Validate` reports nothing, the name of the cluster is a DNS label; there is a host, and the
-- hosts have distinct DNS labels for names, distinct addresses that are not empty, one of the two
-- roles, a credential, and a public key where the policy is Strict; the control plane has an odd
-- number of machines, at least one and no more than it has hosts; the pools have distinct DNS labels
-- for names, no negative number of replicas, and taints with a key and a known effect only; and the
-- machines, counted in 32 bits, are not more than the hosts.
pub validate-IsSound : (env : Environment) (c : Config) → validate env c ≡ [] → IsValid c
unfolding validate
validate-IsSound env c e =
    let (
      header, name, version, endpoint, cidrs, manifests, some_host, hosts, replicas, pools,
      machines,
    ) =
      nil_11 (header_problems c) (cluster_name_problem c.cluster.name)
        (version_problem c.cluster.kubernetes_version)
        (unless (not (c.cluster.control_plane_endpoint.host == []))
          (codes "cluster.controlPlaneEndpoint.host is required"))
        (cidr_problems env c.cluster.network) (manifest_problems env zero c.cluster.cni.manifests)
        (no_hosts env c.hosts) (host_problems env c.ssh.private_key_path zero [] [] [] c.hosts)
        (replica_problems (count_role control_plane_role c.hosts) c.cluster.control_plane_replicas)
        (pool_problems zero [] c.workers)
        (machine_problems c.cluster.control_plane_replicas (worker_replicas (pos 0) c.workers)
          (int32 (pos (length c.hosts))))
        e in
    let (usable, names, addresses) =
      host_problems-IsUsable env c.ssh.private_key_path zero [] [] [] c.hosts hosts in
    let (enough, odd, few) = replica_problems-nil _ c.cluster.control_plane_replicas replicas in
    let (all_pools, pool_names) = pool_problems-IsPool zero [] c.workers pools in
    (
      ground arith,
      λ none_given. no_hosts-nil env c.hosts some_host none_given,
      usable,
      IsFresh-HasDistinctNames (λ h. h.name) [] c.hosts names,
      IsFresh-HasDistinctNames (λ h. h.address) [] c.hosts addresses,
      enough,
      odd,
      few,
      all_pools,
      IsFresh-HasDistinctNames (λ w. w.name) [] c.workers pool_names,
      machine_problems-nil c.cluster.control_plane_replicas (worker_replicas (pos 0) c.workers) _
          machines,
    )
