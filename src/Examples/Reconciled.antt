-- ===== src/Examples/Reconciled.antt =====
-- The theorems on the reconciliations at a concrete host and a concrete machine.
use kg.Base.{
  ℕ, true, false, [], ◌∷◌, none, some, Result, ok, Text, Text-discrete, codes, ◌≡◌, ◌≢◌, ◌⊎◌, refl,
  ap, sym, arith,
}
use kg.Api.{Host}
use kg.Api.HostPhase.{pending, available}
use kg.Platform.{Error, pure}
use kg.Platform.Client.{Client}
use kg.Provisioner.{checksum_path, exit_code_path, clear_command, read_command, id_command}
use kg.Provisioner.Probe.{parse_probe}
use kg.Provisioner.Probe
use kg.Provisioner.Scripts.{probe_script}
use kg.Api.Maps.{get}
use kg.Controller.Connection.{pin, connect}
use kg.Controller.Host.{
  reconcile_host, probe_succeeded, timed, reconcile, drop_finalizer, with_status,
}
use kg.Controller.Host.Phases.{
  reconcile_host-available, reconcile_host-claim_ref, reconcile_host-finalizer,
  reconcile_patch_error_lost, IsGone, Answers,
}
use kg.Controller.Claim.{reference_to}
use kg.Examples.World.{World, server, library, machine, host_key}
use kg.Examples.Objects.{host_with, pending_host, worker, with_host}

abbrev probed_host : Host
probed_host = probe_succeeded library (pin (timed pending_host 7) host_key) (parse_probe [])

connected :
    connect server (machine true) (timed pending_host 7) (with_host pending_host)
    ≡ (ok (tt, pin (timed pending_host 7) host_key), with_host pending_host)
unfolding connect get Text-discrete
connected = refl

abbrev third : Text → ℕ
third (a ∷ b ∷ c ∷ s) = c
third s = 0

probe_apart : (cmd : Text) → third cmd ≢ 99 → probe_script ≢ cmd
unfolding probe_script
probe_apart cmd n e = n (ap third (sym e))

probe_step :
    Probe.probe (machine true) tt (with_host pending_host)
    ≡ (ok (parse_probe []), with_host pending_host)
unfolding Probe.probe clear_command read_command id_command
probe_step = ground (
  arith,
  probe_apart clear_command (λ e. omega arith),
  probe_apart (read_command checksum_path) (λ e. omega arith),
  probe_apart (read_command exit_code_path) (λ e. omega arith),
  probe_apart id_command (λ e. omega arith),
)

probed :
    reconcile_host library server (machine true) pending_host (with_host pending_host)
    ≡ (ok (probed_host, ok 300), with_host pending_host)
unfolding reconcile_host
probed = ground (arith, connected, probe_step)

probed-available : probed_host.status.phase ≡ available
unfolding probe_succeeded pin Text-discrete get
probed-available = refl

pending_not_available : pending ≢ available
pending_not_available e = cc

reconcile_host-available_example :
    (false ≡ false)
    × (pending_host.status.claim_ref ≡ none)
    × (pending_host.spec.unhealthy ≡ false)
    × (◌≡◌ {A = Text} [] [])
    × (◌≡◌ {A = Result Error ℕ} (ok 300) (ok 300))
    × Answers library server
        (machine true)
        pending_host
        (with_host pending_host)
        (with_host pending_host)
unfolding get
reconcile_host-available_example =
    reconcile_host-available library server (machine true) pending_host probed_host (ok 300)
      (with_host pending_host) (with_host pending_host) probed pending_not_available
      probed-available

reconcile_host-claim_ref_example :
    (probed_host.spec ≡ pending_host.spec)
    × (probed_host.meta.labels ≡ [])
    × ((probed_host.status.claim_ref ≡ none)
        ⊎ ((false ≡ true) × (probed_host.status.claim_ref ≡ none)))
reconcile_host-claim_ref_example =
    reconcile_host-claim_ref library server (machine true) pending_host probed_host (ok 300)
      (with_host pending_host) (with_host pending_host) probed

-- The server of which the patch succeeds.
abbrev patching : Client World
patching = record server { patch_host = λ before after. pure tt }

reconcile_patch_error_lost_example :
    (reconcile library patching
      (machine true)
      (codes "default")
      (codes "rack-1")
      (with_host pending_host)).0
    ≡ (reconcile library server
        (machine true)
        (codes "default")
        (codes "rack-1")
        (with_host pending_host)).0
reconcile_patch_error_lost_example =
    reconcile_patch_error_lost library server (machine true) (λ before after. pure tt)
      (codes "default") (codes "rack-1") (with_host pending_host)

-- A deleted host whose claimant is gone.
abbrev deleted_host : Host
deleted_host = host_with [] true available (some (reference_to worker))

abbrev gone_host : Host
gone_host =
    drop_finalizer library
      (with_status deleted_host (record deleted_host.status { claim_ref = none }))

deleted :
    reconcile_host library server (machine true) deleted_host (with_host deleted_host)
    ≡ (ok (gone_host, ok 0), with_host deleted_host)
unfolding reconcile_host
deleted = refl

gone_host-finalizers : gone_host.meta.finalizers ≢ deleted_host.meta.finalizers
unfolding drop_finalizer Text-discrete
gone_host-finalizers e = cc

reconcile_host-finalizer_example :
    IsGone library server (machine true) (with_host deleted_host) (some (reference_to worker))
reconcile_host-finalizer_example =
    reconcile_host-finalizer library server (machine true) deleted_host gone_host (ok 0)
      (with_host deleted_host) (with_host deleted_host) deleted refl gone_host-finalizers
