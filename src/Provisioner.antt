-- ===== src/Provisioner.antt =====
-- internal/provisioner: the detached bootstrap run on a host, and what the host reports about it.
-- SHA-256 is a parameter where a checksum is taken; here a checksum is a text.
pub mod Scripts
pub mod Probe
pub mod Recovery
pub mod Keeps
pub mod Start
use kg.Base.{
  ℕ, zero, suc, Bool, true, false, not, ◌||◌, List, [], ◌∷◌, ◌++◌, Option, none, some, Result, ok,
  err, Text, codes, ◌==◌, if◌then◌else◌,
}
use kg.Base.Int.{ℤ, pos, negsuc, atoi}
use kg.Base.Strings.{trim_space, go_quote, itoa, join}
use kg.Platform.{
  Error, new_error, is_exit_status, Io, ◌>>=◌, ◌>>◌, pure, fail, attempt, with_context,
}
use kg.Platform.Remote.{Remote, Output}
use Scripts.{reset_head, reset_tail}

abbrev pub state_dir : Text
state_dir = codes "/var/lib/kgenesis"

abbrev pub script_path : Text
script_path = codes "/var/lib/kgenesis/bootstrap.sh"

abbrev pub runner_path : Text
runner_path = codes "/var/lib/kgenesis/run.sh"

abbrev pub checksum_path : Text
checksum_path = codes "/var/lib/kgenesis/checksum"

abbrev pub exit_code_path : Text
exit_code_path = codes "/var/lib/kgenesis/exit-code"

abbrev pub log_path : Text
log_path = codes "/var/log/kgenesis-bootstrap.log"

pub data Phase : Type 0 where
  idle running succeeded failed : Phase

pub record State : Type 0 where
  pub phase : Phase
  pub checksum : Text
  pub exit_code : ℤ
  pub log_tail : Text

abbrev pub state_of : Phase → Text → State
state_of phase checksum = record {
  phase = phase;
  checksum = checksum;
  exit_code = pos 0;
  log_tail = [];
}

-- The command lines that the package runs.
unfoldable pub read_command : Text → Text
read_command path =
    codes "if [ -f " ++ go_quote path ++ codes " ]; then cat " ++ go_quote path ++ codes "; fi"

unfoldable pub tail_command : Text
tail_command =
    codes "if [ -f "
    ++ go_quote log_path
    ++ codes " ]; then tail -n 40 "
    ++ go_quote log_path
    ++ codes "; fi"

unfoldable pub clear_command : Text
clear_command =
    codes "install -d -m 0700 "
    ++ state_dir
    ++ codes " && rm -f "
    ++ exit_code_path
    ++ codes " "
    ++ checksum_path

unfoldable pub launch_command : Text
launch_command =
    codes "setsid nohup " ++ runner_path ++ codes " </dev/null >/dev/null 2>&1 & disown; true"

unfoldable pub id_command : Text
id_command = codes "id -u"

unfoldable pub which_command : Text → Text
which_command cmd = codes "command -v " ++ cmd

-- The runner script, which records the outcome of the bootstrap script.
unfoldable pub runner : Text → Text
runner checksum =
    codes "#!/usr/bin/env bash\n"
    ++ codes "# Generated by kg. Runs the bootstrap script and records its outcome.\n"
    ++ codes "exec >>"
    ++ log_path
    ++ codes " 2>&1\n"
    ++ codes "echo \"=== kg bootstrap started $(date -Is) checksum="
    ++ checksum
    ++ codes " ===\"\n"
    ++ codes "set +e\nbash "
    ++ script_path
    ++ codes "\ncode=$?\nset -e\n"
    ++ codes "echo \"=== kg bootstrap finished $(date -Is) exit=${code} ===\"\n"
    ++ codes "printf '%s' \"${code}\" > "
    ++ exit_code_path
    ++ codes "\n"

abbrev pub required_commands : List Text
required_commands =
    codes "bash"
    ∷ codes "base64"
    ∷ codes "install"
    ∷ codes "setsid"
    ∷ codes "systemctl"
    ∷ codes "kubeadm"
    ∷ codes "kubelet"
    ∷ []

abbrev pub is_zero_ℤ : ℤ → Bool
is_zero_ℤ (pos zero) = true
is_zero_ℤ _ = false

module _ {W K : Type 0} (remote : Remote W K) where
  unfoldable pub read_file : K → Text → Io W Text
  read_file c path = do
    res ← with_context (codes "read " ++ path ++ codes ": ") (remote.run c (read_command path))
    pure (trim_space res.stdout)

  unfoldable pub tail_log : K → Io W Text
  tail_log c = do
    res ← with_context (codes "read " ++ log_path ++ codes ": ") (remote.run c tail_command)
    pure (trim_space res.stdout)

  unfoldable pub failed_status : K → Text → ℤ → Io W State
  failed_status c recorded code = do
    tail ← tail_log c
    pure (record { phase = failed; checksum = recorded; exit_code = code; log_tail = tail })

  -- The end of `Status`: a recorded exit code.
  unfoldable pub exit_status : K → Text → Text → Option ℤ → Io W State
  exit_status c recorded text none = fail (
      new_error (
        codes "host wrote an unreadable exit code "
        ++ go_quote text
        ++ codes " to "
        ++ exit_code_path))
  exit_status c recorded text (some code) =
      if is_zero_ℤ code then pure (state_of succeeded recorded) else failed_status c recorded code

  unfoldable pub recorded_status : K → Text → Io W State
  unfolding exit_status failed_status
  recorded_status c recorded = do
    text ← read_file c exit_code_path
    if text == [] then pure (state_of running recorded) else exit_status c recorded text (atoi text)

  -- `Status`
  unfoldable pub status : K → Text → Io W State
  unfolding recorded_status
  status c desired = do
    recorded ← read_file c checksum_path
    if recorded == [] || not (recorded == desired)
        then pure (state_of idle recorded)
        else recorded_status c recorded

  abbrev pub probe_result : Text → Result Error Output → Io W (List Text)
  probe_result cmd (ok res) = pure []
  probe_result cmd (err e) =
      if is_exit_status e
      then pure (cmd ∷ [])
      else fail (record e { message = codes "probe for " ++ cmd ++ codes ": " ++ e.message })

  -- The loop of `preflight`: the commands that the host does not have.
  unfoldable pub missing_commands : K → List Text → Io W (List Text)
  missing_commands c [] = pure []
  missing_commands c (cmd ∷ cmds) = do
    r ← attempt (remote.run c (which_command cmd))
    here ← probe_result cmd r
    later ← missing_commands c cmds
    pure (here ++ later)

  abbrev pub refuse_missing : List Text → Io W (Unit {0})
  refuse_missing [] = pure tt
  refuse_missing (cmd ∷ cmds) =
      fail (
        new_error (codes "host is missing required command(s): " ++ join (cmd ∷ cmds) (codes ", ")))

  abbrev pub refuse_user : Text → Io W (Unit {0})
  refuse_user uid =
      if uid == codes "0"
      then pure tt
      else fail
          (new_error (codes "kg needs to connect as root; the ssh user resolved to uid " ++ uid))

  unfoldable pub preflight : K → Io W (Unit {0})
  unfolding missing_commands
  preflight c = do
    res ← with_context (codes "check privileges: ") (remote.run c id_command)
    refuse_user (trim_space res.stdout)
    missing ← missing_commands c required_commands
    refuse_missing missing

  -- The part of `Start` that clears the last outcome and writes the script and the runner.
  unfoldable pub upload : K → Text → Text → Io W (Unit {0})
  upload c script checksum = do
    res ← with_context (codes "prepare " ++ state_dir ++ codes ": ") (remote.run c clear_command)
    remote.write_file c script_path script (codes "0700")
    remote.write_file c runner_path (runner checksum) (codes "0700")

  -- The part of `Start` behind it: the checksum, and the detached run.
  unfoldable pub launch : K → Io W (Unit {0})
  launch c = do
    res ← with_context (codes "launch bootstrap: ") (remote.run c launch_command)
    pure tt

  -- `Start`
  unfoldable pub start : K → Text → Text → Io W (Unit {0})
  unfolding preflight upload launch
  start c script checksum = do
    preflight c
    upload c script checksum
    remote.write_file c checksum_path checksum (codes "0600")
    launch c

  abbrev pub reset_path : Text
  reset_path = codes "/tmp/kgenesis-reset.sh"

  -- `Reset`
  unfoldable pub reset : K → Io W (Unit {0})
  reset c = do
    remote.write_file c reset_path (reset_head ++ state_dir ++ reset_tail) (codes "0700")
    res ←
        with_context (codes "reset host: ")
          (remote.run c (codes "bash " ++ reset_path ++ codes " && rm -f " ++ reset_path))
    pure tt
