-- ===== src/Controller/Host.antt =====
-- internal/controller/host_controller.go: the reconciler that keeps the pool's view of each machine
-- current.
pub mod Phases
use kg.Base.{
  ℕ, Bool, true, false, not, List, [], ◌∷◌, ◌++◌, Option, none, some, Result, ok, err, Text, codes,
  ◌==◌, if◌then◌else◌,
}
use kg.Api.{
  Host, HostStatus, HostPhase, HostSystemInfo, ObjectReference, HostMachine, available, claimed,
  unreachable, host_finalizer, claimed_by_label,
}
use kg.Api.Maps.{get}
use kg.Platform.{Error, is_not_found, is_key_mismatch, Io, ◌>>=◌, ◌>>◌, pure, fail, attempt}
use kg.Platform.Client.{Client}
use kg.Platform.Library.{Library}
use kg.Platform.Remote.{Remote}
use kg.Provisioner.Probe
use kg.Provisioner.Probe.{SystemInfo}
use kg.Controller.{Outcome, done, failed, truncate, condition_message_limit, set_condition}
use kg.Controller.Connection.{connect}

abbrev pub probe_interval_healthy : ℕ
probe_interval_healthy = 300

abbrev pub probe_interval_unhealthy : ℕ
probe_interval_unhealthy = 60

abbrev pub reachable_condition : Text
reachable_condition = codes "Reachable"

abbrev pub with_status : Host → HostStatus → Host
with_status host status = record host { status = status }

-- `if labels[claimed-by] != ""`
unfoldable pub answering_phase : Text → HostPhase
answering_phase claimed_by = if claimed_by == [] then available else claimed

-- The system information less the kubeadm version, as the status keeps it.
unfoldable pub system_info_of : SystemInfo → HostSystemInfo
system_info_of info = record {
  hostname = info.hostname;
  os_image = info.os_image;
  kernel_version = info.kernel_version;
  architecture = info.architecture;
  cpu_cores = info.cpu_cores;
  memory_mb = info.memory_mb;
  container_runtime = info.container_runtime;
}

abbrev pub timed : Host → ℕ → Host
timed host now = with_status host (record host.status { last_probe_time = some now })

module _ (lib : Library) where
  -- A host with the Reachable condition and a phase.
  unfoldable pub report : Host → HostPhase → Bool → Text → Text → Host
  report host phase status reason message = with_status host (record host.status {
    phase = phase;
    conditions =
        set_condition lib host.status.conditions reachable_condition status reason message
          host.meta.generation;
  })

  unfoldable pub probe_failed : Host → Text → Host
  unfolding report
  probe_failed host message =
      report host unreachable false (codes "ProbeFailed") (truncate message condition_message_limit)

  unfoldable pub probe_succeeded : Host → SystemInfo → Host
  unfolding report answering_phase
  probe_succeeded host info =
      report (with_status host (record host.status { system_info = some (system_info_of info) }))
        (answering_phase (get claimed_by_label host.meta.labels)) true (codes "ProbeSucceeded")
        (codes "SSH probe succeeded")

  unfoldable pub drop_finalizer : Host → Host
  drop_finalizer host = record host {
    meta = record host.meta {
      finalizers = lib.remove_finalizer host.meta.finalizers host_finalizer;
    };
  }

  unfoldable pub add_finalizer : Host → Host
  add_finalizer host = record host {
    meta = record host.meta { finalizers = lib.add_finalizer host.meta.finalizers host_finalizer };
  }

module _ {W K : Type 0} (lib : Library) (client : Client W) (remote : Remote W K) where
  abbrev pub after_probe : Host → Result Error SystemInfo → Io W (Outcome Host)
  after_probe host (err e) = done (probe_failed lib host e.message) probe_interval_unhealthy
  after_probe host (ok info) = done (probe_succeeded lib host info) probe_interval_healthy

  abbrev pub probe_over : K × Host → Io W (Outcome Host)
  probe_over (conn, host) = do r ← attempt (Probe.probe remote conn); after_probe host r

  -- A changed host key is left for an operator; anything else is tried again.
  abbrev pub after_connect : Host → Result Error (K × Host) → Io W (Outcome Host)
  after_connect host (err e) =
      done (probe_failed lib host e.message)
        (if is_key_mismatch e then 0 else probe_interval_unhealthy)
  after_connect host (ok session) = probe_over session

  -- `probe`
  unfoldable pub probe : Host → Io W (Outcome Host)
  unfolding probe_failed probe_succeeded
  probe host w =
      let host' = timed host (client.now w) in
      (do r ← attempt (connect client remote host'); after_connect host' r) w

  -- The switch of `reconcileDelete` on the lookup of the claimant.
  abbrev pub after_claimant : Host → Text → Result Error HostMachine → Io W (Outcome Host)
  after_claimant host key (ok machine) =
      done
        (report lib host host.status.phase false (codes "Deleting")
          (codes "Waiting for HostMachine " ++ key ++ codes " to release this host"))
        15
  after_claimant host key (err e) =
      if is_not_found e
      then done (drop_finalizer lib (with_status host (record host.status { claim_ref = none }))) 0
      else failed host e

  abbrev pub delete_claimed : Host → Option ObjectReference → Io W (Outcome Host)
  delete_claimed host none = done (drop_finalizer lib host) 0
  delete_claimed host (some ref) = do
    r ← attempt (client.get_host_machine ref.namespace ref.name)
    after_claimant host (ref.namespace ++ codes "/" ++ ref.name) r

  -- `reconcileDelete`
  unfoldable pub reconcile_delete : Host → Io W (Outcome Host)
  unfolding report drop_finalizer
  reconcile_delete host = delete_claimed host host.status.claim_ref

  abbrev pub reconcile_unclaimed : Host → Option ObjectReference → Io W (Outcome Host)
  reconcile_unclaimed host (some ref) = done host 0
  reconcile_unclaimed host none =
      if host.spec.unhealthy
      then done
          (report lib host unreachable false (codes "ProbeFailed")
            (codes "Host is marked unhealthy in its spec"))
          0
      else probe host

  -- `Reconcile` on a host that was read, before the deferred patch.
  unfoldable pub reconcile_host : Host → Io W (Outcome Host)
  unfolding report add_finalizer reconcile_delete probe
  reconcile_host host =
      if host.meta.deleting
      then reconcile_delete host
      else if not (lib.contains_finalizer host.meta.finalizers host_finalizer)
      then done (add_finalizer lib host) 0
      else reconcile_unclaimed host host.status.claim_ref

  -- The deferred patch sets a variable that is not the result, so its error is lost.
  abbrev pub patched : Host → Outcome Host → Io W ℕ
  patched before (host, r) w = (r, (client.patch_host before host w).1)

  abbrev pub after_get : Result Error Host → Io W ℕ
  after_get (err e) = if is_not_found e then pure 0 else fail e
  after_get (ok host) = do client.new_helper host.meta; r ← reconcile_host host; patched host r

  -- `Reconcile`
  unfoldable pub reconcile : Text → Text → Io W ℕ
  unfolding reconcile_host
  reconcile namespace name = do r ← attempt (client.get_host namespace name); after_get r
