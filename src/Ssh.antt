-- ===== src/Ssh.antt =====
-- internal/ssh/client.go: one SSH session to a host, the host key policy and the commands that run
-- over it. `golang.org/x/crypto/ssh` and `net` are the parameter `Transport`. Deadlines and the
-- cancelling context are errors of its calls.
pub mod Trust
use kg.Base.{
  ℕ, Bool, true, false, not, ◌&&◌, List, [], ◌∷◌, ◌++◌, Option, none, some, ◌≡◌, Result, ok, err,
  Text, codes, eqb, leb, length, take, ◌==◌, if◌then◌else◌,
}
use kg.Base.Strings.{trim_space, fields, itoa, go_quote, join_host_port}
use mathlib.Core.List.{reverse}
use kg.Api.{HostKeyPolicy, strict, tofu, insecure, unknown_policy}
use kg.Platform.{
  Error, ErrorKind, host_key_mismatch, exit_status, other, wrap, new_error, is_key_mismatch, Io,
  ◌>>=◌, ◌>>◌, pure, fail,
}
use kg.Platform.Remote.{SshConfig, Output, Remote}
use kg.Shell.{shell_quote, dir_of}

-- `C` is a TCP connection, `S` an SSH connection, `K` a parsed private key.
pub record Transport (W C S K : Type 0) : Type 0 where
  -- `DialContext`
  pub dial_tcp : Text → Io W C
  -- `ssh.ParsePrivateKey`, with the passphrase if there is one
  pub parse_private_key : Text → Option Text → Result Error K
  -- `ssh.NewClientConn` with the user, the keys, the passwords and the host key callback
  pub new_client_conn : C → Text → List K → List Text → (Text → Result Error (Unit {0})) → Io W S
  -- the trimmed `ssh.MarshalAuthorizedKey` of the presented key; the parsed key material
  pub presented : S → Text
  pub parse_authorized_key : Text → Option Text
  -- `session.Run` with a command and its standard input; a status that is not 0 is no error here
  pub execute : S → Text → Text → Io W Output

abbrev last_bytes : ℕ → Text → Text
last_bytes n s = reverse (take n (reverse s))

abbrev pub abbreviate_fields : Text → List Text → Text
abbreviate_fields key (kind ∷ blob ∷ _) =
    if leb (length blob) 20
    then kind ++ codes " " ++ blob
    else kind ++ codes " " ++ take 10 blob ++ codes "..." ++ last_bytes 10 blob
abbreviate_fields key _ = key

unfoldable pub abbreviate : Text → Text
abbreviate key = abbreviate_fields key (fields key)

abbrev pub first_of_two : Text → Text → Text
first_of_two [] b = b
first_of_two (c ∷ a) b = c ∷ a

-- `ExitError.Error`
unfoldable pub print_exit : Text → Output → Text
print_exit cmd out =
    let message = first_of_two (trim_space out.stderr) (trim_space out.stdout) in
    let exited = codes "command " ++ go_quote cmd ++ codes " exited " ++ itoa out.exit_code in
    if message == [] then exited else exited ++ codes ": " ++ message

-- `Client`: a connection and the key that the host presented.
pub record Connection (S : Type 0) : Type 0 where
  pub session : S
  pub host_key : Text

module _ {W C S K : Type 0} (t : Transport W C S K) where
  abbrev pub same_material : Text → Text → Option Text → Option Text → Bool
  same_material a b (some ka) (some kb) = ka == kb
  same_material a b _ _ = trim_space a == trim_space b

  unfoldable pub same_authorized_key : Text → Text → Bool
  same_authorized_key a b = same_material a b (t.parse_authorized_key a) (t.parse_authorized_key b)

  abbrev mismatch : Text → Error
  mismatch message = record {
    kind = host_key_mismatch;
    message = codes "ssh host key mismatch" ++ message;
  }

  unfoldable pub compare_keys : Text → SshConfig → Text → Result Error (Unit {0})
  compare_keys hostname cfg key =
      if not (same_authorized_key cfg.known_public_key key)
      then err (
          mismatch (
            codes " for "
            ++ hostname
            ++ codes ": expected "
            ++ abbreviate cfg.known_public_key
            ++ codes ", got "
            ++ abbreviate key))
      else ok tt

  -- `hostKeyCallback`, by the policy of the configuration.
  abbrev pub check_policy : HostKeyPolicy → Text → SshConfig → Text → Result Error (Unit {0})
  check_policy insecure hostname cfg key = ok tt
  check_policy strict hostname cfg key =
      if cfg.known_public_key == []
      then err
          (mismatch (codes ": policy is Strict but no public key is configured for " ++ hostname))
      else compare_keys hostname cfg key
  check_policy tofu hostname cfg key =
      if cfg.known_public_key == [] then ok tt else compare_keys hostname cfg key
  check_policy (unknown_policy name) hostname cfg key =
      err (new_error (codes "unknown host key policy " ++ go_quote name))

  unfoldable pub host_key_callback : SshConfig → Text → Text → Result Error (Unit {0})
  unfolding same_authorized_key compare_keys
  host_key_callback cfg hostname key = check_policy cfg.policy hostname cfg key

  abbrev one_key : Result Error K → Result Error (List K)
  one_key (ok k) = ok (k ∷ [])
  one_key (err e) = err (wrap (codes "parse private key: ") e)

  -- The keys of `authMethods`.
  unfoldable pub auth_keys : SshConfig → Result Error (List K)
  auth_keys cfg =
      if cfg.private_key == []
      then ok []
      else one_key (
          t.parse_private_key cfg.private_key
            (if cfg.passphrase == [] then none else some cfg.passphrase))

  -- The passwords of `authMethods`.
  unfoldable pub auth_passwords : SshConfig → List Text
  auth_passwords cfg = if cfg.password == [] then [] else cfg.password ∷ []

  abbrev is_empty : {A : Type 0} → List A → Bool
  is_empty [] = true
  is_empty (_ ∷ _) = false

  abbrev some_method : List Text → Result Error (List K) → Result Error (List K)
  some_method passwords (err e) = err e
  some_method passwords (ok keys) =
      if is_empty keys && is_empty passwords
      then err
          (new_error (codes "no ssh credential: neither private key nor password was provided"))
      else ok keys

  -- `authMethods`: no method at all is an error.
  unfoldable pub auth_methods : SshConfig → Result Error (List K)
  unfolding auth_keys auth_passwords
  auth_methods cfg = some_method (auth_passwords cfg) (auth_keys cfg)

  abbrev pub handshake_result : Text → Result Error S → Io W (Connection S)
  handshake_result addr (ok s) = pure (record { session = s; host_key = t.presented s })
  handshake_result addr (err e) =
      if is_key_mismatch e
      then fail e
      else fail (wrap (codes "ssh handshake with " ++ addr ++ codes ": ") e)

  -- The handshake over an open TCP connection.
  unfoldable pub open_session : SshConfig → Text → List K → C → Io W (Connection S)
  open_session cfg addr keys c w =
      let (r, v) =
        t.new_client_conn c cfg.user keys (auth_passwords cfg) (host_key_callback cfg addr) w in
      handshake_result addr r v

  abbrev tcp_result : Text → Result Error C → Io W C
  tcp_result addr (ok c) = pure c
  tcp_result addr (err e) = fail (wrap (codes "dial " ++ addr ++ codes ": ") e)

  unfoldable pub open_tcp : Text → Io W C
  open_tcp addr w = let (r, v) = t.dial_tcp addr w in tcp_result addr r v

  unfoldable pub dial_address : SshConfig → Text
  dial_address cfg = join_host_port cfg.address (itoa (if eqb cfg.port 0 then 22 else cfg.port))

  abbrev pub dial_with : SshConfig → Result Error (List K) → Io W (Connection S)
  dial_with cfg (err e) = fail e
  dial_with cfg (ok keys) = do
    c ← open_tcp (dial_address cfg)
    open_session cfg (dial_address cfg) keys c

  unfoldable pub dial : SshConfig → Io W (Connection S)
  unfolding auth_methods open_tcp open_session dial_address host_key_callback
  dial cfg = dial_with cfg (auth_methods cfg)

  abbrev exit_result : Text → Output → Io W Output
  exit_result cmd out =
      if eqb out.exit_code 0
      then pure out
      else fail (record { kind = exit_status; message = print_exit cmd out })

  -- `Run` and `RunWithInput`: a status that is not 0 is an `ExitError`.
  unfoldable pub run : Connection S → Text → Text → Io W Output
  run c cmd stdin = do out ← t.execute c.session cmd stdin; exit_result cmd out

  -- `writeFileCommand`
  unfoldable pub write_file_command : Text → Text → Text
  write_file_command path mode =
      codes "mkdir -p "
      ++ shell_quote (dir_of path)
      ++ codes " && cat > "
      ++ shell_quote path
      ++ codes " && chmod "
      ++ shell_quote mode
      ++ codes " "
      ++ shell_quote path

  abbrev write_result : Text → Output → Io W (Unit {0})
  write_result path out =
      if eqb out.exit_code 0
      then pure tt
      else fail (new_error (codes "write " ++ path ++ codes ": " ++ trim_space out.stderr))

  -- `WriteFile` streams the content over the standard input of that command.
  unfoldable pub write_file : Connection S → Text → Text → Text → Io W (Unit {0})
  unfolding write_file_command
  write_file c path content mode = do
    out ← t.execute c.session (write_file_command path mode) content
    write_result path out

  -- The session interface of the provisioner and the controllers.
  pub ssh_remote : Remote W (Connection S)
  ssh_remote = record {
    dial = dial;
    host_key = λ c. c.host_key;
    run = λ c cmd. run c cmd [];
    write_file = write_file;
  }
