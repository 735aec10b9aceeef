-- ===== src/Render/Secrets.antt =====
-- internal/render/render.go: the secrets, which hosts with one credential share, and all objects.
use kg.Base.{
  List, [], ◌∷◌, ◌++◌, map, Option, none, some, Result, Text, codes, ◌==◌, if◌then◌else◌, take,
}
use kg.Api.Maps.{Labels, get, put}
use kg.Compare.{sort_texts}
use kg.Config.{Config, HostConfig}
use kg.Platform.{Error}
use kg.Platform.Fallible.{Fallible, ◌>>=◌, pure, with_context}
use kg.Render.{
  ClusterApi, pool_labels, render_host, render_cluster, render_host_cluster,
  render_control_plane_template,
}
use kg.Render.Machines.{render_control_plane, render_pools}
use kg.Render.Objects.{
  Secret, Host, Infra, host_cluster, machine_template, control_plane, Objects, Object, a_namespace,
  a_secret, a_host, a_cluster, an_infra,
}

pub record Credential : Type 0 where
  pub private_key : Text
  pub passphrase : Text
  pub password : Text

-- `map[string]credential`, with the credential last stored under a fingerprint.
abbrev pub Credentials : Type 0
Credentials = List (Text × Credential)

unfoldable pub store : Text → Credential → Credentials → Credentials
store f c [] = (f, c) ∷ []
store f c ((g, d) ∷ m) = if g == f then (f, c) ∷ m else (g, d) ∷ store f c m

abbrev pub fingerprints : Credentials → List Text
fingerprints [] = []
fingerprints ((f, c) ∷ m) = f ∷ fingerprints m

-- `SSHSecretName`
abbrev pub ssh_secret_name : Text → Text
ssh_secret_name fingerprint = codes "kgenesis-ssh-" ++ fingerprint

abbrev put_if_set : Text → Text → Labels → Labels
put_if_set k [] m = m
put_if_set k (c ∷ v) m = put k (c ∷ v) m

unfoldable pub secret_data : Credential → Labels
secret_data c = put_if_set (codes "password") c.password (
    put_if_set (codes "passphrase") c.passphrase
      (put_if_set (codes "private_key") c.private_key []))

abbrev pub move_label : Text
move_label = codes "clusterctl.cluster.x-k8s.io/move"

-- `os.ReadFile` of the keys, and the hexadecimal SHA-256 of a text.
pub record Keys : Type 0 where
  pub read_key : Text → Result Error Text
  pub checksum : Text → Text

module _ (env : Keys) (api : ClusterApi) where
  abbrev pub fingerprint : Credential → Text
  fingerprint c = take 12 (env.checksum (c.private_key ++ 0 ∷ c.passphrase ++ 0 ∷ c.password))

  abbrev private_key : HostConfig → Text → Fallible Text
  private_key h [] = pure []
  private_key h (c ∷ path) =
      with_context (codes "host " ++ h.name ++ codes ": read private key: ")
        (env.read_key (c ∷ path))

  -- The credential of one host.
  unfoldable pub credential : HostConfig → Fallible Credential
  credential h = do
    key ← private_key h h.private_key_path
    pure (record { private_key = key; passphrase = h.passphrase; password = h.password })

  -- The first loop of `renderSecrets`: the credentials by fingerprint, the secrets by host.
  unfoldable pub collect : List HostConfig → Credentials → Labels → Fallible (Credentials × Labels)
  unfolding credential store
  collect [] creds names = pure (creds, names)
  collect (h ∷ hs) creds names = do
    c ← credential h
    collect hs (store (fingerprint c) c creds) (put h.name (ssh_secret_name (fingerprint c)) names)

  abbrev pub secret_of : Config → Text → Credential → Secret
  secret_of cfg f c = record {
    meta = record {
      name = ssh_secret_name f;
      namespace = cfg.cluster.namespace;
      labels = put move_label [] (pool_labels api cfg);
    };
    data_ = secret_data c;
  }

  -- `byFingerprint[f]`
  unfoldable pub stored : Text → Credentials → Option Credential
  stored f [] = none
  stored f ((g, c) ∷ m) = if g == f then some c else stored f m

  abbrev none_set : Credential
  none_set = record { private_key = []; passphrase = []; password = [] }

  abbrev pub or_none_set : Option Credential → Credential
  or_none_set none = none_set
  or_none_set (some c) = c

  -- The second loop of `renderSecrets`.
  unfoldable pub secrets_of : Config → Credentials → List Text → List Secret
  unfolding stored secret_data
  secrets_of cfg creds [] = []
  secrets_of cfg creds (f ∷ fs) =
      secret_of cfg f (or_none_set (stored f creds)) ∷ secrets_of cfg creds fs

  -- `renderSecrets`
  unfoldable pub render_secrets : Config → Fallible (List Secret × Labels)
  unfolding collect secrets_of
  render_secrets cfg = do
    (creds, names) ← collect cfg.hosts [] []
    pure (secrets_of cfg creds (sort_texts (fingerprints creds)), names)

  -- The loop of `Render` over the hosts.
  unfoldable pub render_hosts : Config → Labels → List HostConfig → List Host
  render_hosts cfg names [] = []
  render_hosts cfg names (h ∷ hs) = render_host cfg h (get h.name names) ∷ render_hosts cfg names hs

  abbrev infra_of : Config → List Infra
  infra_of cfg =
      host_cluster (render_host_cluster cfg)
      ∷ machine_template (render_control_plane_template cfg)
      ∷ control_plane (render_control_plane api cfg (render_control_plane_template cfg).meta.name)
      ∷ render_pools api cfg cfg.workers

  abbrev pub objects_of : Config → List Secret × Labels → Objects
  objects_of cfg (secrets, names) = record {
    namespace = record {
      name = cfg.cluster.namespace;
      namespace = [];
      labels = pool_labels api cfg;
    };
    secrets = secrets;
    hosts = render_hosts cfg names cfg.hosts;
    cluster = render_cluster cfg;
    infra = infra_of cfg;
  }

  -- `Render`
  unfoldable pub render : Config → Fallible Objects
  unfolding render_secrets render_hosts
  render cfg = do r ← render_secrets cfg; pure (objects_of cfg r)

-- `All`: the order in which the objects are applied.
unfoldable pub all_objects : Objects → List Object
all_objects o =
    a_namespace o.namespace ∷ map a_secret o.secrets
    ++ map a_host o.hosts
    ++ a_cluster o.cluster ∷ map an_infra o.infra
