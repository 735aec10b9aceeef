-- ===== src/Config/Checks.antt =====
-- internal/config/load.go: the checks of `Validate` on one name, host or cluster, each with its message.
use kg.Base.{
  ℕ, Bool, true, false, not, ◌&&◌, ◌||◌, ◌%◌, List, [], ◌∷◌, ◌++◌, Option, Text, codes, leb, eqb,
  ◌==◌, if◌then◌else◌,
}
use kg.Base.Int.{ℤ, pos, negsuc}
use kg.Base.Strings.{has_prefix, go_quote}
use kg.Config.{HostConfig, Config}
use kg.Config.Defaults.{control_plane_role, worker_role}

-- `net.ParseCIDR` succeeds; the error of `os.Stat`; whether a map of two is walked in the order in
-- which it is written, which Go leaves open.
pub record Environment : Type 0 where
  pub is_cidr : Text → Bool
  pub stat : Text → Option Text
  pub in_order : Bool

abbrev pub is_alnum : ℕ → Bool
is_alnum c = (leb b'a' c && leb c b'z') || (leb b'0' c && leb c b'9')

-- What follows the byte `c` of a label.
unfoldable pub label_rest : ℕ → Text → Bool
label_rest c [] = is_alnum c
label_rest c (d ∷ s) = let rest = label_rest d s in (is_alnum c || eqb c b'-') && rest

-- `dnsName`: ^[a-z0-9]([-a-z0-9]*[a-z0-9])?$
unfoldable pub is_dns_label : Text → Bool
unfolding label_rest
is_dns_label [] = false
is_dns_label (c ∷ s) = is_alnum c && label_rest c s

-- `isURL`
unfoldable pub is_url : Text → Bool
is_url s = has_prefix s (codes "http://") || has_prefix s (codes "https://")

abbrev pub member : Text → List Text → Bool
member s [] = false
member s (t ∷ ts) = let rest = member s ts in if t == s then true else rest

-- The messages of a check, where it fails.
abbrev pub unless : Bool → Text → List Text
unless true message = []
unless false message = message ∷ []

-- The switch on the name of a host or a pool: the message, or the names seen with this one.
abbrev pub name_problem : Text → Text → List Text → List Text
name_problem where' name seen =
    if name == []
    then (where' ++ codes ".name is required") ∷ []
    else if not (is_dns_label name)
    then (where' ++ codes ".name " ++ go_quote name ++ codes " must be a lowercase DNS label") ∷ []
    else if member name seen
    then (where' ++ codes ".name " ++ go_quote name ++ codes " is used more than once") ∷ []
    else []

abbrev pub seen_name : Text → List Text → List Text
seen_name name seen =
    if not (name == []) && is_dns_label name && not (member name seen) then name ∷ seen else seen

-- The checks of the header and the cluster.
unfoldable pub header_problems : Config → List Text
header_problems c =
    unless (c.api_version == codes "kgenesis.io/v1alpha1")
      (codes "apiVersion must be \"kgenesis.io/v1alpha1\", got " ++ go_quote c.api_version)
    ++ unless (c.kind == codes "GenesisConfig")
        (codes "kind must be \"GenesisConfig\", got " ++ go_quote c.kind)

abbrev pub cluster_name_problem : Text → List Text
cluster_name_problem name =
    if name == []
    then codes "cluster.name is required" ∷ []
    else unless (is_dns_label name)
        (codes "cluster.name " ++ go_quote name ++ codes " must be a lowercase DNS label")

abbrev pub version_problem : Text → List Text
version_problem version =
    if version == []
    then codes "cluster.kubernetesVersion is required, e.g. v1.34.1" ∷ []
    else unless (has_prefix version (codes "v"))
        (codes "cluster.kubernetesVersion " ++ go_quote version ++ codes " must start with v")

abbrev pub role_problem : Text → HostConfig → List Text
role_problem where' h = unless (h.role == control_plane_role || h.role == worker_role) (
    where' ++ codes ".role " ++ go_quote h.role ++ codes " must be \"control-plane\" or \"worker\"")

abbrev pub credential_problem : Text → HostConfig → List Text
credential_problem where' h = unless (not (h.private_key_path == [] && h.password == [])) (
    where'
    ++ codes " has no credential: set ssh.privateKeyPath, ssh.password or a per-host override")

abbrev pub policy_problem : Text → HostConfig → List Text
policy_problem where' h =
    if h.host_key_policy == codes "Strict"
    then unless (not (h.public_key == []))
        (where' ++ codes ".publicKey is required when hostKeyPolicy is Strict")
    else unless (h.host_key_policy == codes "TOFU" || h.host_key_policy == codes "Insecure") (
        where'
        ++ codes ".hostKeyPolicy "
        ++ go_quote h.host_key_policy
        ++ codes " must be Strict, TOFU or Insecure")

abbrev pub address_problem : Text → Text → List Text → List Text
address_problem where' address seen =
    if address == []
    then (where' ++ codes ".address is required") ∷ []
    else unless (not (member address seen))
        (where' ++ codes ".address " ++ go_quote address ++ codes " is used more than once")

abbrev pub seen_address : Text → List Text → List Text
seen_address address seen =
    if not (address == []) && not (member address seen) then address ∷ seen else seen

-- `n%2 == 0`
abbrev pub is_even : ℤ → Bool
is_even (pos n) = eqb (n % 2) 0
is_even (negsuc n) = eqb (n % 2) 1
