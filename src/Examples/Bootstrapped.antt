-- ===== src/Examples/Bootstrapped.antt =====
-- A reconciliation that renders a cloud-config and finds that its script has run, at a concrete
-- host.
use kg.Base.{ℕ, true, some, Result, ok, Text, Text-discrete, codes, ◌∷◌, ◌≡◌, ◌≢◌, refl}
use kg.Base.Strings.{trim_space, has_prefix, to_lower, go_quote}
use kg.Api.{HostMachine, Host}
use kg.Api.Maps.{get, lookup}
use kg.Platform.{Error}
use kg.Base.Int.{atoi}
use kg.Platform.Client.{Client}
use kg.Inventory.{sort_by_name}
use kg.Provisioner
use kg.Provisioner.{read_command, clear_command}
use kg.Yaml
use kg.Cloudinit.Kubeadm.{is_empty, patch_document}
use kg.Cloudinit.Documents.{patch_configs}
use kg.Cloudinit.Script.{render}
use kg.Controller.{Outcome}
use kg.Controller.Connection.{connect, pin}
use kg.Controller.Claim.{claim_host, find_claimed, find_labelled, eligible, label_claim}
use kg.Controller.Bootstrap.{reconcile_normal, run_bootstrap, bootstrap_data}
use kg.Controller.Bootstrap.Report.{host_claimed, identified, script_succeeded}
use kg.Controller.Bootstrap.Rendered.{render_for, IsBootstrapped, reconcile_normal-IsBootstrapped}
use kg.Examples.Recovered.{machine-Shell}
use kg.Examples.World.{World, server, library, machine, file, credentials}
use kg.Examples.Objects.{available_host, worker, cluster, owner, with_host}
use kg.Examples.Pool.{claim, claimed_labelled}
use kg.Examples.Rendered.{codec}

-- A server that holds bootstrap data too.
abbrev publisher : Client World
publisher = record server {
  get_secret = λ namespace name w. (ok ((codes "value", codes "data") ∷ credentials), w);
}

claims :
    claim_host library publisher cluster worker (with_host available_host)
    ≡ (ok claim, with_host claimed_labelled)
unfolding claim_host find_claimed sort_by_name find_labelled Text-discrete get eligible label_claim
claims = refl

abbrev prepared : HostMachine
prepared = identified (host_claimed library claim.machine claimed_labelled) claimed_labelled

abbrev ended : HostMachine
ended = script_succeeded library prepared (codes "c0ffee")

unfoldable run : Result Error (Outcome HostMachine) × World
run =
    reconcile_normal library publisher (machine true)
      (render_for library publisher (machine true) codec file) cluster owner worker
      (with_host available_host)

run_ended : (r : Result Error ℕ) × (run.0 ≡ ok (ended, r))
unfolding run reconcile_normal Text-discrete claim_host find_claimed sort_by_name find_labelled get
    eligible label_claim lookup bootstrap_data connect run_bootstrap Provisioner.status trim_space
    Provisioner.read_file read_command clear_command atoi go_quote pin render to_lower is_empty
    patch_configs has_prefix Yaml.lookup patch_document Yaml.set
run_ended = (_, refl)

fresh : ended.status.initialized ≢ claim.machine.status.initialized
unfolding script_succeeded
fresh e = cc

reconcile_normal-IsBootstrapped_example :
    (host : Host) × (data' : Text) × (t : World) × (claim.host ≡ some host)
    × (bootstrap_data library publisher
          (machine true)
          owner
          (codes "bootstrap")
          (with_host claimed_labelled)
        ≡ (ok data', t))
    × IsBootstrapped library publisher (machine true) codec file host data' t
unfolding run
reconcile_normal-IsBootstrapped_example =
    reconcile_normal-IsBootstrapped library publisher (machine true) codec file (machine-Shell true)
      ended run_ended.0 run.1 cluster owner worker (codes "bootstrap") claim
      (with_host available_host) (with_host claimed_labelled) refl refl claims fresh
      (λ i. (run_ended.1 i, run.1))
