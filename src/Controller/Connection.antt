-- ===== src/Controller/Connection.antt =====
-- internal/controller/connection.go: the SSH session of a host, and the key that is pinned.
use kg.Base.{
  Bool, true, false, ◌&&◌, [], ◌++◌, Text, codes, ◌==◌, if◌then◌else◌, ◌≡◌, ok, err, Result, arith,
}
use kg.Api.{Labels, Host, HostKeyPolicy, strict, tofu, insecure, unknown_policy}
use kg.Api.Maps.{get}
use kg.Platform.{new_error, Io, ◌>>=◌, pure, fail, with_context, Error}
use kg.Platform.Client.{Client}
use kg.Platform.Remote.{Remote, SshConfig}

-- The key that the policy compares with, where it compares.
abbrev pub known_key : HostKeyPolicy → Host → Text
known_key strict host = host.spec.public_key
known_key tofu host = host.status.observed_public_key
known_key insecure host = []
known_key (unknown_policy name) host = []

unfoldable pub config_of : Host → Labels → SshConfig
config_of host secret = record {
  address = host.spec.address;
  port = host.spec.port;
  user = host.spec.user;
  private_key = get (codes "private_key") secret;
  passphrase = get (codes "passphrase") secret;
  password = get (codes "password") secret;
  policy = host.spec.host_key_policy;
  known_public_key = known_key host.spec.host_key_policy host;
}

abbrev pub secret_key : Host → Text
secret_key host = host.meta.namespace ++ codes "/" ++ host.spec.ssh_secret

abbrev pub is_tofu : HostKeyPolicy → Bool
is_tofu tofu = true
is_tofu _ = false

-- The host with the key that it presented, where TOFU has none pinned yet.
unfoldable pub pin : Host → Text → Host
pin host key =
    if is_tofu host.spec.host_key_policy && host.status.observed_public_key == []
    then record host { status = record host.status { observed_public_key = key } }
    else host

module _ {W K : Type 0} (client : Client W) (remote : Remote W K) where
  -- `sshConfigFor`
  unfoldable pub ssh_config_for : Host → Io W SshConfig
  unfolding config_of
  ssh_config_for host = do
    secret ←
        with_context (codes "get ssh secret " ++ secret_key host ++ codes ": ")
          (client.get_secret host.meta.namespace host.spec.ssh_secret)
    let cfg = config_of host secret
    if cfg.private_key == [] && cfg.password == []
        then fail (
            new_error (
              codes "secret "
              ++ secret_key host
              ++ codes " has neither \"private_key\" nor \"password\""))
        else pure cfg

  -- `connect`: the session, and the host with its key pinned.
  unfoldable pub connect : Host → Io W (K × Host)
  unfolding ssh_config_for pin
  connect host = do
    cfg ← ssh_config_for host
    conn ← remote.dial cfg
    pure (conn, pin host (remote.host_key conn))

  -- What `connect` leaves of a host: everything but the pinned key.
  abbrev pub IsPinned : Host → Result Error (K × Host) → Type 0
  IsPinned host (err e) = Unit
  IsPinned host (ok (conn, host')) = host' ≡ pin host (remote.host_key conn)

  pub connect-IsPinned : (host : Host) (w : W) → IsPinned host (connect host w).0
  unfolding connect
  connect-IsPinned host w = ground arith
