-- ===== src/Controller/Bootstrap/Rendered.antt =====
-- A reconciliation of a machine with the renderer of its bootstrap data, internal/cloudinit, and
-- the provisioner that runs the script.
use kg.Base.{
  ℕ, true, false, List, Option, none, some, Result, ok, err, Text, ◌≡◌, ◌≢◌, refl, arith,
  Result-cases, inl, inr, Any,
}
use kg.Api.{Host, HostMachine, Cluster, Machine}
use kg.Platform.{Error}
use kg.Platform.Codec.{Codec}
use kg.Platform.Client.{Client}
use kg.Platform.Library.{Library}
use kg.Platform.Remote.{Remote}
use kg.Provisioner.{Phase, checksum_path, exit_code_path}
use kg.Provisioner.Recovery.{Shell, classify}
use kg.Cloudinit.Documents.{ResolvedFile}
use kg.Cloudinit.Documents.Refused.{HasConfig}
use kg.Cloudinit.Kubeadm.{is_empty}
use kg.Cloudinit.Script.{CloudConfig, Options, resolve_files, patch_of, render}
use kg.Cloudinit.Script.Accepted.{render-HasConfig}
use kg.Controller.Connection.{connect}
use kg.Controller.Claim.{Claim, claim_host}
use kg.Controller.Bootstrap.{reconcile_normal, after_data, bootstrap_data, with_host}
use kg.Controller.Bootstrap.Report.{
  not_provisioned, report, no_host, host_claimed, identified, provider_id,
}
use kg.Controller.Bootstrap.Success.{run_bootstrap-succeeded}

-- The options that `reconcileNormal` renders with.
abbrev pub options_of : Text → Text → Options
options_of provider address = record { provider_id = provider; host_address = address }

pins : (host : Host) → is_empty (patch_of (options_of (provider_id host) host.spec.address)) ≡ false
unfolding is_empty patch_of provider_id
pins host = refl

module _ {W K : Type 0} (lib : Library) (client : Client W) (remote : Remote W K)
    (codec : Codec CloudConfig) (file : W → K → Text → Text) where
  -- The renderer, as `reconcileNormal` calls it.
  abbrev pub render_for : Text → Text → Text → Result Error Text
  render_for data' provider address = render codec data' (options_of provider address)

  -- A cloud-config with a kubeadm document in one of its files.
  abbrev pub Bootstraps : Text → Type 0
  Bootstraps data' =
      (cfg : CloudConfig) × (files : List ResolvedFile) × (codec.unmarshal_config data' ≡ ok cfg)
      × (resolve_files codec cfg.write_files ≡ ok files)
      × Any (HasConfig codec) files

  -- From `w`, the host is reached, and its files say that this script exited with 0.
  abbrev pub HasRun : Host → Text → W → Type 0
  HasRun host script w =
      (conn : K) × (host' : Host) × (u : W) × (connect client remote host w ≡ (ok (conn, host'), u))
      × (classify (file u conn checksum_path) (file u conn exit_code_path) (lib.checksum script)
          ≡ Phase.succeeded)

  -- The bootstrap data pins the host's provider ID, and the script that is rendered from it has
  -- run on the host.
  abbrev pub IsBootstrapped : Host → Text → W → Type 0
  IsBootstrapped host data' w =
      Bootstraps data'
      × (script : Text) × (render_for data' (provider_id host) host.spec.address ≡ ok script)
      × HasRun host script w

  module _ (shell : Shell remote file) (machine' : HostMachine) (r : Result Error ℕ) (v : W) where
    after_data-initialized :
        (machine : HostMachine) (host : Host) (data' : Text) (w : W)
        → machine'.status.initialized ≢ machine.status.initialized
        → after_data lib client remote render_for machine host (ok data') w ≡ (ok (machine', r), v)
        → IsBootstrapped host data' w
    unfolding identified not_provisioned report
    after_data-initialized machine host data' w fresh h =
        let opts = options_of (provider_id host) host.spec.address in
        elim (Result-cases (render codec data' opts)) [
          | inr (e, bad) ↦ absurd (ground arith)
          | inl (script, good) ↦ (
            render-HasConfig codec data' script opts good (pins host),
            script,
            good,
            run_bootstrap-succeeded lib client remote (identified machine host) machine' script
                (lib.checksum script) r fresh shell host w v (rw good at h),
          )
        ]

    -- The host that the claim gave, and the data that was read after it.
    abbrev Follows : Machine → Text → Option Host → W → Type 0
    Follows owner name found u =
        (host : Host) × (data' : Text) × (t : W) × (found ≡ some host)
        × (bootstrap_data lib client remote owner name u ≡ (ok data', t))
        × IsBootstrapped host data' t

    with_data-initialized :
        (owner : Machine) (name : Text) (machine : HostMachine) (host : Host) (u t : W)
        (data' : Result Error Text)
        → machine'.status.initialized ≢ machine.status.initialized
        → bootstrap_data lib client remote owner name u ≡ (data', t)
        → after_data lib client remote render_for (host_claimed lib machine host) host data' t
          ≡ (ok (machine', r), v)
        → Follows owner name (some host) u
    unfolding host_claimed report
    with_data-initialized owner name machine host u t (err e) fresh read h = absurd (ground arith)
    with_data-initialized owner name machine host u t (ok data') fresh read h = (
      host,
      data',
      t,
      refl,
      read,
      after_data-initialized (host_claimed lib machine host) host data' t fresh h,
    )

    with_host-initialized :
        (owner : Machine) (name : Text) (machine : HostMachine) (found : Option Host) (u : W)
        → machine'.status.initialized ≢ machine.status.initialized
        → with_host lib client remote render_for owner name machine found u ≡ (ok (machine', r), v)
        → Follows owner name found u
    unfolding no_host report
    with_host-initialized owner name machine none u fresh h = absurd (ground arith)
    with_host-initialized owner name machine (some host) u fresh h =
        let d = bootstrap_data lib client remote owner name u in
        with_data-initialized owner name machine host u d.1 d.0 fresh refl h

    -- For a machine with a data secret in a cluster whose infrastructure is provisioned, and whose
    -- claim succeeds: where the reconciliation changes whether the machine is initialized, the claim
    -- gave it a host and its bootstrap data was read; a file of that cloud-config has a kubeadm
    -- InitConfiguration or JoinConfiguration to pin the provider ID in; and the host was reached and
    -- its files say that the script rendered from this data for this host exited with 0.
    pub reconcile_normal-IsBootstrapped :
        (cluster : Cluster) (owner : Machine) (machine : HostMachine) (name : Text) (c : Claim)
        (w u : W)
        → cluster.infrastructure_provisioned ≡ some true
        → owner.data_secret_name ≡ some name
        → claim_host lib client cluster machine w ≡ (ok c, u)
        → machine'.status.initialized ≢ c.machine.status.initialized
        → reconcile_normal lib client remote render_for cluster owner machine w
          ≡ (ok (machine', r), v)
        → (host : Host) × (data' : Text) × (t : W) × (c.host ≡ some host)
          × (bootstrap_data lib client remote owner name u ≡ (ok data', t))
          × IsBootstrapped host data' t
    unfolding reconcile_normal
    reconcile_normal-IsBootstrapped cluster owner machine name c w u ready secret claimed fresh h =
        with_host-initialized owner name c.machine c.host u fresh (ground arith)
