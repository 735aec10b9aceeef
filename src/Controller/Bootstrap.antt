-- ===== src/Controller/Bootstrap.antt =====
-- internal/controller/hostmachine_controller.go: `reconcileNormal` and the bootstrap run that it
-- drives, `runBootstrap`.
pub mod Report
pub mod Success
pub mod Rendered
use kg.Base.{
  ℕ, Bool, true, false, not, ◌&&◌, ◌||◌, List, [], ◌∷◌, ◌++◌, Option, none, some, Result, ok, err,
  Text, codes, ◌==◌, if◌then◌else◌,
}
use kg.Base.Strings.{go_quote, print_int}
use kg.Api.{
  Labels, Host, HostMachine, HostMachineStatus, HostPhase, HostSystemInfo, MachineAddress,
  internal_ip, host_name, Cluster, Machine, provisioned,
}
use kg.Api.Maps.{lookup}
use kg.Platform.{Error, is_key_mismatch, new_error, Io, ◌>>=◌, pure, fail, attempt, with_context}
use kg.Platform.Client.{Client}
use kg.Platform.Library.{Library}
use kg.Platform.Remote.{Remote}
use kg.Provisioner
use kg.Provisioner.{State, Phase, log_path}
use kg.Controller.{Outcome, done, failed, truncate, condition_message_limit, set_condition}
use kg.Controller.Connection.{connect}
use kg.Controller.Claim.{Claim, claim_host}
use kg.Controller.Bootstrap.Report.{
  provider_id, is_provisioned, is_set, bad_format, check_data, of_result, identified,
  not_provisioned, script_running, started, script_failed, script_succeeded, no_host, host_claimed,
}

abbrev pub requeue_waiting_for_dependency : ℕ
requeue_waiting_for_dependency = 20

abbrev pub requeue_bootstrap_running : ℕ
requeue_bootstrap_running = 20

abbrev pub requeue_bootstrap_failed : ℕ
requeue_bootstrap_failed = 120

abbrev pub requeue_after_start : ℕ
requeue_after_start = 30

module _ {W K : Type 0} (lib : Library) (client : Client W) (remote : Remote W K) where
  -- `markHostProvisioned`
  unfoldable pub mark_host_provisioned : Host → Io W (Unit {0})
  mark_host_provisioned host = if is_provisioned host.status.phase then pure tt else do
    host' ←
        client.update_host_status
          (record host { status = record host.status { phase = provisioned } })
    pure tt

  abbrev pub after_start : HostMachine → Text → Result Error (Unit {0}) → Io W (Outcome HostMachine)
  after_start machine sum (ok _) = done (started lib machine sum) requeue_after_start
  after_start machine sum (err e) =
      done
        (not_provisioned lib machine (codes "BootstrapFailed")
          (truncate e.message condition_message_limit))
        requeue_bootstrap_failed

  abbrev pub after_mark : HostMachine → Result Error (Unit {0}) → Io W (Outcome HostMachine)
  after_mark machine (ok _) = done machine 0
  after_mark machine (err e) = failed machine e

  abbrev pub finish : HostMachine → Host → Text → Io W (Outcome HostMachine)
  finish machine host sum = do
    r ← attempt (mark_host_provisioned host)
    after_mark (script_succeeded lib machine sum) r

  abbrev pub begin : HostMachine → K → Text → Text → Io W (Outcome HostMachine)
  begin machine conn script sum = do
    r ← attempt (Provisioner.start remote conn script sum)
    after_start machine sum r

  -- The switch of `runBootstrap` on the phase that the host reports.
  abbrev pub by_phase :
      Phase → HostMachine → K → Host → Text → Text → State → Io W (Outcome HostMachine)
  by_phase Phase.idle machine conn host script sum state = begin machine conn script sum
  by_phase Phase.running machine conn host script sum state =
      done (script_running lib machine) requeue_bootstrap_running
  by_phase Phase.failed machine conn host script sum state =
      done (script_failed lib machine state) requeue_bootstrap_failed
  by_phase Phase.succeeded machine conn host script sum state = finish machine host sum

  abbrev pub after_status :
      HostMachine → K → Host → Text → Text → Result Error State → Io W (Outcome HostMachine)
  after_status machine conn host script sum (err e) = failed machine e
  after_status machine conn host script sum (ok state) =
      by_phase state.phase machine conn host script sum state

  abbrev pub over_session :
      HostMachine → Text → Text → Result Error (K × Host) → Io W (Outcome HostMachine)
  over_session machine script sum (err e) =
      done
        (not_provisioned lib machine (codes "ProbeFailed")
          (truncate e.message condition_message_limit))
        (if is_key_mismatch e then 0 else requeue_waiting_for_dependency)
  over_session machine script sum (ok (conn, host)) = do
    r ← attempt (Provisioner.status remote conn sum)
    after_status machine conn host script sum r

  -- `runBootstrap`
  unfoldable pub run_bootstrap : HostMachine → Host → Text → Text → Io W (Outcome HostMachine)
  unfolding mark_host_provisioned
  run_bootstrap machine host script sum = do
    r ← attempt (connect client remote host)
    over_session machine script sum r

  -- `bootstrapData`, for a machine with a data secret.
  unfoldable pub bootstrap_data : Machine → Text → Io W Text
  bootstrap_data machine secret_name = do
    let key = machine.meta.namespace ++ codes "/" ++ secret_name
    secret ←
        with_context (codes "get bootstrap secret " ++ key ++ codes ": ")
          (client.get_secret machine.meta.namespace secret_name)
    of_result (
        check_data key (lookup (codes "value") secret)
          (bad_format (lookup (codes "format") secret)))

  module _ (render : Text → Text → Text → Result Error Text) where
    abbrev pub after_render : HostMachine → Host → Result Error Text → Io W (Outcome HostMachine)
    after_render machine host (err e) =
        done
          (not_provisioned lib machine (codes "BootstrapFailed")
            (truncate e.message condition_message_limit))
          0
    after_render machine host (ok script) = run_bootstrap machine host script (lib.checksum script)

    abbrev pub after_data : HostMachine → Host → Result Error Text → Io W (Outcome HostMachine)
    after_data machine host (err e) = failed machine e
    after_data machine host (ok data') =
        after_render (identified machine host) host
          (render data' (provider_id host) host.spec.address)

    abbrev pub with_host : Machine → Text → HostMachine → Option Host → Io W (Outcome HostMachine)
    with_host owner secret_name machine none =
        done (no_host lib machine) requeue_waiting_for_dependency
    with_host owner secret_name machine (some host) = do
      r ← attempt (bootstrap_data owner secret_name)
      after_data (host_claimed lib machine host) host r

    abbrev pub after_claim :
        Machine → Text → HostMachine → Result Error Claim → Io W (Outcome HostMachine)
    after_claim owner secret_name machine (err e) = failed machine e
    after_claim owner secret_name machine (ok c) = with_host owner secret_name c.machine c.host

    abbrev pub with_secret :
        Cluster → Machine → HostMachine → Option Text → Io W (Outcome HostMachine)
    with_secret cluster owner machine none =
        done
          (not_provisioned lib machine (codes "WaitingForBootstrapData")
            (codes "Waiting for the bootstrap provider to publish its data secret"))
          requeue_waiting_for_dependency
    with_secret cluster owner machine (some secret_name) = do
      r ← attempt (claim_host lib client cluster machine)
      after_claim owner secret_name machine r

    -- `reconcileNormal`; `render` is `cloudinit.Render` of data, provider id and host address.
    unfoldable pub reconcile_normal : Cluster → Machine → HostMachine → Io W (Outcome HostMachine)
    unfolding identified bootstrap_data run_bootstrap
    reconcile_normal cluster owner machine =
        if not (is_set cluster.infrastructure_provisioned)
        then done
            (not_provisioned lib machine (codes "WaitingForCluster")
              (codes "Waiting for the cluster infrastructure to be provisioned"))
            0
        else with_secret cluster owner machine owner.data_secret_name
