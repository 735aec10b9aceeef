-- ===== src/Platform/Remote.antt =====
-- A session on a host, as the provisioner and the controllers use it: internal/ssh implements it.
use kg.Base.{ℕ, Text}
use kg.Api.{HostKeyPolicy}
use kg.Platform.{Io}

-- `ssh.Config`, less the dial timeout.
pub record SshConfig : Type 0 where
  pub address : Text
  pub port : ℕ
  pub user : Text
  pub private_key : Text
  pub passphrase : Text
  pub password : Text
  pub policy : HostKeyPolicy
  pub known_public_key : Text

-- `ssh.Result`: the outcome of one remote command.
pub record Output : Type 0 where
  pub stdout : Text
  pub stderr : Text
  pub exit_code : ℕ

-- `Dial`, `Client.HostKey`, `Client.Run` and `Client.WriteFile` (path, content, mode) over sessions
-- `K`. Closing a session has no result that the program reads.
pub record Remote (W K : Type 0) : Type 0 where
  pub dial : SshConfig → Io W K
  pub host_key : K → Text
  pub run : K → Text → Io W Output
  pub write_file : K → Text → Text → Text → Io W (Unit {0})
