-- ===== src/Config/Defaults/Idempotent.antt =====
-- The defaults are filled in once, and leave no optional field that has one empty.
use kg.Base.{zero, suc, List, [], ◌∷◌, Text, map, ◌≡◌, refl, ap, ◌∙◌, codes}
use mathlib.Core.Path.{ap₂}
use kg.Base.Int.{ℤ, pos, negsuc}
use kg.Api.Maps.{Labels}
use kg.Config.{SshDefaults, HostConfig, ClusterConfig, WorkerPool, Config}
use kg.Config.Defaults.{
  or_text, or_number, hosts_with_role, default_ssh, default_host, count_role, default_cluster,
  default_selector, default_workers, apply_defaults, pool_of, or_pools, or_selector,
  control_plane_role, worker_role,
}

or_text_idem : (d s : Text) → or_text d (or_text d s) ≡ or_text d s
unfolding or_text
or_text_idem [] [] = refl
or_text_idem (c ∷ d) [] = refl
or_text_idem d (c ∷ s) = refl

or_number_idem : (d n : ℤ) → or_number d (or_number d n) ≡ or_number d n
unfolding or_number
or_number_idem (pos zero) (pos zero) = refl
or_number_idem (pos (suc d)) (pos zero) = refl
or_number_idem (negsuc d) (pos zero) = refl
or_number_idem d (pos (suc n)) = refl
or_number_idem d (negsuc n) = refl

default_ssh_idem : (ssh : SshDefaults) → default_ssh (default_ssh ssh) ≡ default_ssh ssh
unfolding default_ssh
default_ssh_idem ssh = λ i. record ssh {
  user = or_text_idem (codes "root") ssh.user i;
  port = or_number_idem (pos 22) ssh.port i;
  host_key_policy = or_text_idem (codes "TOFU") ssh.host_key_policy i;
}

default_host_idem :
    (ssh : SshDefaults) (h : HostConfig)
    → default_host ssh (default_host ssh h) ≡ default_host ssh h
unfolding default_host
default_host_idem ssh h = λ i. record h {
  user = or_text_idem ssh.user h.user i;
  port = or_number_idem ssh.port h.port i;
  private_key_path = or_text_idem ssh.private_key_path h.private_key_path i;
  passphrase = or_text_idem ssh.passphrase h.passphrase i;
  password = or_text_idem ssh.password h.password i;
  host_key_policy = or_text_idem ssh.host_key_policy h.host_key_policy i;
}

map_idem :
    {A : Type 0} (f : A → A) (xs : List A) → ((x : A) → f (f x) ≡ f x) → map f (map f xs) ≡ map f xs
map_idem f [] h = refl
map_idem f (x ∷ xs) h = ap₂ (λ y ys. y ∷ ys) (h x) (map_idem f xs h)

default_cluster_idem :
    (hosts : List HostConfig) (c : ClusterConfig)
    → default_cluster hosts (default_cluster hosts c) ≡ default_cluster hosts c
unfolding default_cluster
default_cluster_idem hosts c = λ i. record c {
  namespace = or_text_idem c.name c.namespace i;
  control_plane_endpoint = record c.control_plane_endpoint {
    port = or_number_idem (pos 6443) c.control_plane_endpoint.port i;
  };
  network = record {
    pod_cidr = or_text_idem (codes "10.244.0.0/16") c.network.pod_cidr i;
    service_cidr = or_text_idem (codes "10.96.0.0/12") c.network.service_cidr i;
    service_domain = or_text_idem (codes "cluster.local") c.network.service_domain i;
  };
  control_plane_replicas =
      or_number_idem (count_role control_plane_role hosts) c.control_plane_replicas i;
}

or_selector_idem : (ls : Labels) → or_selector (or_selector ls) ≡ or_selector ls
or_selector_idem [] = refl
or_selector_idem (l ∷ ls) = refl

default_selector_idem :
    (p : WorkerPool) → default_selector (default_selector p) ≡ default_selector p
default_selector_idem p = λ i. record p { host_selector = or_selector_idem p.host_selector i }

-- Pools that are there are kept, and where none is made, none is made again.
or_pools_idem :
    (hs : List HostConfig) (ws : List WorkerPool)
    → or_pools (pool_of hs) (map default_selector (or_pools (pool_of hs) ws))
      ≡ map default_selector (or_pools (pool_of hs) ws)
or_pools_idem [] [] = refl
or_pools_idem (h ∷ hs) [] = refl
or_pools_idem hs (w ∷ ws) = refl

default_workers_idem :
    (hosts : List HostConfig) (ws : List WorkerPool)
    → default_workers hosts (default_workers hosts ws) ≡ default_workers hosts ws
unfolding default_workers
default_workers_idem hosts ws =
    let role = hosts_with_role worker_role hosts in
    rw (or_pools_idem role ws)
      (map_idem default_selector (or_pools (pool_of role) ws) default_selector_idem)

-- A second call of `ApplyDefaults` changes nothing.
pub apply_defaults_idempotent : (c : Config) → apply_defaults (apply_defaults c) ≡ apply_defaults c
unfolding apply_defaults
apply_defaults_idempotent c =
    let ssh = default_ssh c.ssh in
    let hosts = map (default_host ssh) c.hosts in
    let same_hosts : map (default_host (default_ssh ssh)) hosts ≡ hosts =
      rw (default_ssh_idem c.ssh) (map_idem (default_host ssh) c.hosts (default_host_idem ssh)) in
    let same_cluster =
      ap (λ hs. default_cluster hs (default_cluster hosts c.cluster)) same_hosts
      ∙ default_cluster_idem hosts c.cluster in
    let same_workers =
      ap (λ hs. default_workers hs (default_workers hosts c.workers)) same_hosts
      ∙ default_workers_idem hosts c.workers in
    λ i. record c {
      cluster = same_cluster i;
      ssh = default_ssh_idem c.ssh i;
      hosts = same_hosts i;
      workers = same_workers i;
      bootstrap = record c.bootstrap {
        cluster_name = or_text_idem (codes "kgenesis-bootstrap") c.bootstrap.cluster_name i;
      };
    }
