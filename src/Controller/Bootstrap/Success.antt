-- ===== src/Controller/Bootstrap/Success.antt =====
-- When a machine is reported as bootstrapped.
use kg.Base.{
  ℕ, true, Option, none, some, Result, ok, err, Text, ◌≡◌, ◌≢◌, refl, arith, Result-cases, sym, ◌∙◌,
  inl, inr,
}
use kg.Api.{Host, HostMachine, Cluster, Machine}
use kg.Platform.{Error}
use kg.Platform.Client.{Client}
use kg.Platform.Library.{Library}
use kg.Platform.Remote.{Remote}
use kg.Provisioner
use kg.Provisioner.{State, Phase, checksum_path, exit_code_path}
use kg.Provisioner.Recovery.{Shell, classify, status-classify}
use kg.Controller.Connection.{connect}
use kg.Controller.Claim.{Claim, claim_host}
use kg.Controller.Bootstrap.{
  run_bootstrap, reconcile_normal, by_phase, after_data, bootstrap_data, with_host,
}
use kg.Controller.Bootstrap.Report.{
  script_succeeded, started, script_running, script_failed, not_provisioned, report, no_host,
  host_claimed, identified, provider_id,
}

module _ {W K : Type 0} (lib : Library) (client : Client W) (remote : Remote W K) where
  module _ (machine machine' : HostMachine) (script sum : Text) (r : Result Error ℕ)
      (fresh : machine'.status.initialized ≢ machine.status.initialized) where
    by_phase-succeeded :
        (phase : Phase) (conn : K) (host : Host) (state : State) (w v : W)
        → by_phase lib client remote phase machine conn host script sum state w
          ≡ (ok (machine', r), v)
        → phase ≡ Phase.succeeded
    unfolding started script_failed script_running report
    by_phase-succeeded Phase.idle conn host state w v h = absurd (ground arith)
    by_phase-succeeded Phase.running conn host state w v h = absurd (ground arith)
    by_phase-succeeded Phase.failed conn host state w v h = absurd (ground arith)
    by_phase-succeeded Phase.succeeded conn host state w v h = refl

    -- A machine becomes initialized only where the host was reached and its files say that the
    -- script with this checksum exited with 0.
    pub run_bootstrap-succeeded :
        {file : W → K → Text → Text}
        → Shell remote file
        → (host : Host) (w v : W)
        → run_bootstrap lib client remote machine host script sum w ≡ (ok (machine', r), v)
        → (conn : K) × (host' : Host) × (u : W) × (connect client remote host w
            ≡ (ok (conn, host'), u))
          × (classify (file u conn checksum_path) (file u conn exit_code_path) sum
              ≡ Phase.succeeded)
    unfolding run_bootstrap not_provisioned report
    run_bootstrap-succeeded shell host w v h =
        let m = connect client remote host w in
        elim (Result-cases m.0) [
          | inr (e, refused) ↦ absurd (ground arith)
          | inl ((conn, host'), reached) ↦
              let s = Provisioner.status remote conn sum m.1 in
              elim (Result-cases s.0) [
                | inr (e, broken) ↦ absurd (ground arith)
                | inl (state, read) ↦
                    let said =
                      by_phase-succeeded state.phase conn host' state s.1 v (ground arith) in
                    (
                      conn,
                      host',
                      m.1,
                      ground arith,
                      sym (status-classify remote shell conn sum m.1 s.1 state (ground arith))
                          ∙ said,
                    )
              ]
        ]

  by_phase-host_ref :
      (phase : Phase) (machine machine' : HostMachine) (conn : K) (host : Host) (script sum : Text)
      (state : State) (r : Result Error ℕ) (w v : W)
      → by_phase lib client remote phase machine conn host script sum state w
        ≡ (ok (machine', r), v)
      → machine'.status.host_ref ≡ machine.status.host_ref
  unfolding started script_failed script_running report script_succeeded
  by_phase-host_ref Phase.idle machine machine' conn host script sum state r w v h = ground arith
  by_phase-host_ref _ machine machine' conn host script sum state r w v h = ground arith

  run_bootstrap-host_ref :
      (machine machine' : HostMachine) (host : Host) (script sum : Text) (r : Result Error ℕ)
      (w v : W)
      → run_bootstrap lib client remote machine host script sum w ≡ (ok (machine', r), v)
      → machine'.status.host_ref ≡ machine.status.host_ref
  unfolding run_bootstrap not_provisioned report
  run_bootstrap-host_ref machine machine' host script sum r w v h =
      let m = connect client remote host w in
      elim (Result-cases m.0) [
        | inr (e, refused) ↦ ground arith
        | inl ((conn, host'), reached) ↦
            let s = Provisioner.status remote conn sum m.1 in
            elim (Result-cases s.0) [
              | inr (e, broken) ↦ ground arith
              | inl (state, read) ↦
                  by_phase-host_ref state.phase machine machine' conn host' script sum state r s.1 v
                    (ground arith)
            ]
      ]

  module _ (render : Text → Text → Text → Result Error Text) where
    after_data-host_ref :
        (machine machine' : HostMachine) (host : Host) (data' : Result Error Text)
        (r : Result Error ℕ) (w v : W)
        → after_data lib client remote render machine host data' w ≡ (ok (machine', r), v)
        → machine'.status.host_ref ≡ machine.status.host_ref
    unfolding identified not_provisioned report
    after_data-host_ref machine machine' host (err e) r w v h = ground arith
    after_data-host_ref machine machine' host (ok data') r w v h =
        let out = render data' (provider_id host) host.spec.address in
        elim (Result-cases out) [
          | inr (e, bad) ↦ ground arith
          | inl (script, good) ↦
              run_bootstrap-host_ref (identified machine host) machine' host script
                (lib.checksum script) r w v (rw good at h)
        ]

    with_host-host_ref :
        (owner : Machine) (name : Text) (machine machine' : HostMachine) (host : Option Host)
        (r : Result Error ℕ) (w v : W)
        → with_host lib client remote render owner name machine host w ≡ (ok (machine', r), v)
        → machine'.status.host_ref ≡ machine.status.host_ref
    unfolding no_host host_claimed report
    with_host-host_ref owner name machine machine' none r w v h = ground arith
    with_host-host_ref owner name machine machine' (some host) r w v h =
        let d = bootstrap_data lib client remote owner name w in
        after_data-host_ref (host_claimed lib machine host) machine' host d.0 r d.1 v h

    -- For a machine with a data secret in a cluster whose infrastructure is provisioned: where the
    -- claim succeeds, the machine that the reconciliation leaves has the host reference that the claim
    -- gave it, whatever fails later in the reconciliation.
    pub reconcile_normal-host_ref :
        (cluster : Cluster) (owner : Machine) (machine machine' : HostMachine) (name : Text)
        (c : Claim) (r : Result Error ℕ) (w u v : W)
        → cluster.infrastructure_provisioned ≡ some true
        → owner.data_secret_name ≡ some name
        → claim_host lib client cluster machine w ≡ (ok c, u)
        → reconcile_normal lib client remote render cluster owner machine w ≡ (ok (machine', r), v)
        → machine'.status.host_ref ≡ c.machine.status.host_ref
    unfolding reconcile_normal no_host host_claimed
    reconcile_normal-host_ref cluster owner machine machine' name c r w u v ready secret claimed h =
        ground (arith, with_host-host_ref owner name c.machine machine' c.host r u v)
