-- ===== src/Config/Defaults/Complete.antt =====
-- What later code may assume of a configuration with its defaults.
use kg.Base.{zero, suc, List, [], ◌∷◌, Text, codes, map, ◌≢◌, All}
use kg.Base.Int.{ℤ, pos, negsuc}
use kg.Api.Maps.{Labels}
use kg.Config.{SshDefaults, HostConfig, WorkerPool, Config}
use kg.Config.Defaults.{
  or_text, or_number, default_ssh, default_host, default_cluster, default_selector, default_workers,
  apply_defaults, or_selector,
}

-- How a host is reached: a user, a port and a policy for its key.
abbrev pub IsReachable : HostConfig → Type 0
IsReachable h = (h.user ≢ []) × (h.port ≢ pos 0) × (h.host_key_policy ≢ [])

abbrev pub HasSelector : WorkerPool → Type 0
HasSelector pool = pool.host_selector ≢ []

or_text_ne : (d s : Text) → d ≢ [] → or_text d s ≢ []
unfolding or_text
or_text_ne d [] n e = n e
or_text_ne d (c ∷ s) n e = cc

or_number_ne : (d n : ℤ) → d ≢ pos 0 → or_number d n ≢ pos 0
unfolding or_number
or_number_ne d (pos zero) n e = n e
or_number_ne d (pos (suc m)) n e = cc
or_number_ne d (negsuc m) n e = cc

default_host-IsReachable :
    (ssh : SshDefaults) (h : HostConfig)
    → ssh.user ≢ []
    → ssh.port ≢ pos 0
    → ssh.host_key_policy ≢ []
    → IsReachable (default_host ssh h)
unfolding default_host
default_host-IsReachable ssh h user port policy = (
  or_text_ne ssh.user h.user user,
  or_number_ne ssh.port h.port port,
  or_text_ne ssh.host_key_policy h.host_key_policy policy,
)

All-map :
    {A : Type 0} (P : A → Type 0) (f : A → A) (xs : List A) → ((x : A) → P (f x)) → All P (map f xs)
All-map P f [] h = tt
All-map P f (x ∷ xs) h = (h x, All-map P f xs h)

or_selector_ne : (ls : Labels) → or_selector ls ≢ []
or_selector_ne [] e = cc
or_selector_ne (l ∷ ls) e = cc

default_selector-HasSelector : (p : WorkerPool) → HasSelector (default_selector p)
default_selector-HasSelector p = or_selector_ne p.host_selector

-- With its defaults, every host of a configuration has a user, a port that is not 0 and a host key
-- policy, every worker pool selects hosts by some label, and the endpoint has a port that is not 0 and
-- the network its two ranges and its domain.
pub apply_defaults-IsComplete :
    (c : Config)
    → All IsReachable (apply_defaults c).hosts
      × All HasSelector (apply_defaults c).workers
      × ((apply_defaults c).cluster.control_plane_endpoint.port ≢ pos 0)
      × ((apply_defaults c).cluster.network.pod_cidr ≢ [])
      × ((apply_defaults c).cluster.network.service_cidr ≢ [])
      × ((apply_defaults c).cluster.network.service_domain ≢ [])
unfolding apply_defaults default_ssh default_workers default_cluster
apply_defaults-IsComplete c = (
  All-map IsReachable (default_host (default_ssh c.ssh)) c.hosts (λ h.
      default_host-IsReachable (default_ssh c.ssh) h
        (or_text_ne (codes "root") c.ssh.user (λ e. cc))
        (or_number_ne (pos 22) c.ssh.port (λ e. cc))
        (or_text_ne (codes "TOFU") c.ssh.host_key_policy (λ e. cc))),
  All-map HasSelector default_selector _ default_selector-HasSelector,
  or_number_ne (pos 6443) c.cluster.control_plane_endpoint.port (λ e. cc),
  or_text_ne (codes "10.244.0.0/16") c.cluster.network.pod_cidr (λ e. cc),
  or_text_ne (codes "10.96.0.0/12") c.cluster.network.service_cidr (λ e. cc),
  or_text_ne (codes "cluster.local") c.cluster.network.service_domain (λ e. cc),
)
