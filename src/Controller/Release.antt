-- ===== src/Controller/Release.antt =====
-- internal/controller/hostmachine_controller.go: `reconcileDelete` and `releaseHost`, which return a
-- host to the pool.
pub mod Freed
pub mod Pool
use kg.Base.{
  ℕ, Bool, true, false, not, List, [], ◌∷◌, ◌++◌, Option, none, some, Result, ok, err, Text, codes,
  if◌then◌else◌,
}
use kg.Api.{Host, HostMachine, pending, machine_finalizer, claimed_by_label, cluster_name_label}
use kg.Api.Maps
use kg.Platform.{Error, is_not_found, Io, ◌>>=◌, ◌>>◌, pure, fail, attempt}
use kg.Platform.Client.{Client}
use kg.Platform.Library.{Library}
use kg.Platform.Remote.{Remote}
use kg.Provisioner
use kg.Controller.{Outcome, done, failed, truncate, condition_message_limit, set_condition}
use kg.Controller.Connection.{connect}

-- The condition that says whether the kubeadm state was removed.
pub record Reset : Type 0 where
  pub status : Bool
  pub reason : Text
  pub message : Text

unfoldable pub reset_condition : Text
reset_condition = codes "Reset"

unfoldable pub reset_succeeded : HostMachine → Reset
reset_succeeded machine = record {
  status = true;
  reason = codes "ResetSucceeded";
  message =
      codes "kubeadm state removed for "
      ++ machine.meta.namespace
      ++ codes "/"
      ++ machine.meta.name;
}

unfoldable pub reset_failed : Text → Error → Reset
reset_failed reason e = record {
  status = false;
  reason = reason;
  message = truncate e.message condition_message_limit;
}

-- A host without the labels of a claim.
unfoldable pub unlabelled : Host → Host
unlabelled host = record host {
  meta = record host.meta {
    labels = Maps.remove claimed_by_label (Maps.remove cluster_name_label host.meta.labels);
  };
}

-- An error of an update that is not that the object is gone.
abbrev pub refused : {W : Type 0} → Result Error Host → Host → Io W Host
refused (ok h) host = pure h
refused (err e) host = if is_not_found e then pure host else fail e

module _ (lib : Library) where
  -- A host with no claim, to be probed again before it is handed out.
  unfoldable pub free : Reset → Host → Host
  free reset host = record host {
    status = record host.status {
      claim_ref = none;
      phase = pending;
      conditions =
          set_condition lib host.status.conditions reset_condition reset.status reset.reason
            reset.message host.meta.generation;
    };
  }

  unfoldable pub drop_finalizer : HostMachine → HostMachine
  drop_finalizer machine = record machine {
    meta = record machine.meta {
      finalizers = lib.remove_finalizer machine.meta.finalizers machine_finalizer;
    };
  }

  unfoldable pub forget : HostMachine → HostMachine
  unfolding drop_finalizer
  forget machine =
      drop_finalizer (record machine { status = record machine.status { host_ref = none } })

module _ {W K : Type 0} (lib : Library) (client : Client W) (remote : Remote W K) where
  -- `releaseHost`
  unfoldable pub release_host : Host → Reset → Io W (Unit {0})
  unfolding unlabelled free
  release_host host reset = do
    r ← attempt (client.update_host (unlabelled host))
    updated ← refused r (unlabelled host)
    s ← attempt (client.update_host_status (free lib reset updated))
    freed ← refused s updated
    pure tt

  abbrev pub reset_result : HostMachine → Result Error (Unit {0}) → Reset
  reset_result machine (ok _) = reset_succeeded machine
  reset_result machine (err e) = reset_failed (codes "ResetIncomplete") e

  abbrev pub after_connect : HostMachine → Host → Result Error (K × Host) → Io W (Host × Reset)
  after_connect machine host (err e) = pure (host, reset_failed (codes "HostUnreachable") e)
  after_connect machine host (ok (conn, host')) = do
    r ← attempt (Provisioner.reset remote conn)
    pure (host', reset_result machine r)

  -- The host is reset if it can be reached; nothing that fails there stops the release.
  unfoldable pub try_reset : HostMachine → Host → Io W (Host × Reset)
  try_reset machine host = do r ← attempt (connect client remote host); after_connect machine host r

  abbrev pub after_release : HostMachine → Result Error (Unit {0}) → Io W (Outcome HostMachine)
  after_release machine (ok _) = done (forget lib machine) 0
  after_release machine (err e) = failed machine e

  unfoldable pub release : HostMachine → Host × Reset → Io W (Outcome HostMachine)
  unfolding release_host
  release machine (host, reset) = do r ← attempt (release_host host reset); after_release machine r

  abbrev pub after_lookup : HostMachine → Result Error Host → Io W (Outcome HostMachine)
  after_lookup machine (err e) =
      if is_not_found e then done (forget lib machine) 0 else failed machine e
  after_lookup machine (ok host) = do reset ← try_reset machine host; release machine reset

  abbrev pub delete_by_ref : HostMachine → Option Text → Io W (Outcome HostMachine)
  delete_by_ref machine none = done (drop_finalizer lib machine) 0
  delete_by_ref machine (some name) = do
    r ← attempt (client.get_host machine.meta.namespace name)
    after_lookup machine r

  -- `reconcileDelete`
  unfoldable pub reconcile_delete : HostMachine → Io W (Outcome HostMachine)
  unfolding try_reset release
  reconcile_delete machine = delete_by_ref machine machine.status.host_ref
