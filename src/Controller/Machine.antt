-- ===== src/Controller/Machine.antt =====
-- internal/controller/hostmachine_controller.go: `Reconcile` of a host machine, and the events that
-- wake it.
use kg.Base.{
  ℕ, List, [], ◌∷◌, Option, none, some, Result, ok, err, Text, codes, ◌==◌, if◌then◌else◌,
}
use kg.Api.{HostMachine, Cluster, Machine, machine_finalizer}
use kg.Platform.{Error, is_not_found, Io, ◌>>=◌, ◌>>◌, pure, fail, attempt}
use kg.Platform.Client.{Client}
use kg.Platform.Library.{Library}
use kg.Platform.Remote.{Remote}
use kg.Controller.{Outcome}
use kg.Controller.Bootstrap.{reconcile_normal}
use kg.Controller.Release.{reconcile_delete}

-- A namespaced name to reconcile.
pub record Request : Type 0 where
  pub namespace : Text
  pub name : Text

-- `machineToHostMachine`
unfoldable pub machine_requests : Machine → List Request
machine_requests machine =
    if machine.infrastructure_kind == codes "HostMachine"
    then record { namespace = machine.meta.namespace; name = machine.infrastructure_name } ∷ []
    else []

-- The loop of `clusterToHostMachines`.
unfoldable pub all_requests : List Machine → List Request
unfolding machine_requests
all_requests [] = []
all_requests (m ∷ ms) =
    if m.infrastructure_kind == codes "HostMachine"
    then record { namespace = m.meta.namespace; name = m.infrastructure_name } ∷ all_requests ms
    else all_requests ms

abbrev pub or_no_request : {W : Type 0} → Result Error (List Machine) → Io W (List Request)
or_no_request (err e) = pure []
or_no_request (ok machines) = pure (all_requests machines)

-- `clusterToHostMachines`
unfoldable pub cluster_requests : {W : Type 0} → Client W → Cluster → Io W (List Request)
unfolding all_requests
cluster_requests client cluster = do
  r ← attempt (client.list_machines cluster.meta.namespace cluster.meta.name)
  or_no_request r

-- The deferred patch: its error is the result where the reconciliation had none.
abbrev pub or_patch_error : Result Error ℕ → Result Error (Unit {0}) → Result Error ℕ
or_patch_error (err e) p = err e
or_patch_error (ok n) (ok _) = ok n
or_patch_error (ok n) (err e) = err e

module _ {W K : Type 0} (lib : Library) (client : Client W) (remote : Remote W K)
    (render : Text → Text → Text → Result Error Text) where
  -- The finalizer is added where it is missing.
  unfoldable pub with_finalizer : HostMachine → HostMachine
  with_finalizer machine =
      if lib.contains_finalizer machine.meta.finalizers machine_finalizer
      then machine
      else record machine {
        meta = record machine.meta {
          finalizers = lib.add_finalizer machine.meta.finalizers machine_finalizer;
        };
      }

  -- `Reconcile` of a machine that has its owner and cluster, before the deferred patch.
  unfoldable pub reconcile_machine : Cluster → Machine → HostMachine → Io W (Outcome HostMachine)
  unfolding with_finalizer
  reconcile_machine cluster owner machine =
      if machine.meta.deleting
      then reconcile_delete lib client remote machine
      else reconcile_normal lib client remote render cluster owner (with_finalizer machine)

  abbrev pub patched : HostMachine → Outcome HostMachine → Io W ℕ
  patched before (machine, r) w =
      let (p, v) = client.patch_host_machine before machine w in (or_patch_error r p, v)

  abbrev pub with_cluster : Machine → HostMachine → Option Cluster → Io W ℕ
  with_cluster owner machine none = pure 0
  with_cluster owner machine (some cluster) =
      if client.is_paused cluster machine.meta then pure 0 else do
        client.new_helper machine.meta
        r ← reconcile_machine cluster owner machine
        patched machine r

  abbrev pub with_owner : HostMachine → Option Machine → Io W ℕ
  with_owner machine none = pure 0
  with_owner machine (some owner) = do
    cluster ← client.get_cluster_from_metadata owner.meta
    with_cluster owner machine cluster

  abbrev pub after_get : Result Error HostMachine → Io W ℕ
  after_get (err e) = if is_not_found e then pure 0 else fail e
  after_get (ok machine) = do
    owner ← client.get_owner_machine machine.meta
    with_owner machine owner

  -- `Reconcile`
  unfoldable pub reconcile : Text → Text → Io W ℕ
  unfolding reconcile_machine
  reconcile namespace name = do r ← attempt (client.get_host_machine namespace name); after_get r
