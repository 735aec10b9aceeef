-- ===== src/Examples/Objects.antt =====
-- The objects of the examples: a host, a machine, its owner and its cluster.
use kg.Base.{Bool, true, false, List, [], ◌∷◌, Option, none, some, Text, codes}
use kg.Api.{
  Labels, ObjectMeta, ObjectReference, Host, HostPhase, HostMachine, Cluster, Machine, tofu,
  host_finalizer, machine_finalizer, claimed_by_label,
}
use kg.Api.HostPhase.{pending, available}
use kg.Controller.Claim.{reference_to}
use kg.Provisioner.{checksum_path, exit_code_path}
use kg.Examples.World.{World}

abbrev pub meta_of : Text → Labels → List Text → Bool → ObjectMeta
meta_of name labels finalizers deleting = record {
  name = name;
  namespace = codes "default";
  uid = name;
  labels = labels;
  finalizers = finalizers;
  deleting = deleting;
  generation = 1;
  resource_version = 4;
}

abbrev pub host_with : Labels → Bool → HostPhase → Option ObjectReference → Host
host_with labels deleting phase claim_ref = record {
  meta = meta_of (codes "rack-1") labels (host_finalizer ∷ []) deleting;
  spec = record {
    address = codes "10.0.0.2";
    port = 22;
    user = codes "root";
    ssh_secret = codes "ssh";
    host_key_policy = tofu;
    public_key = [];
    unhealthy = false;
  };
  status = record {
    phase = phase;
    claim_ref = claim_ref;
    observed_public_key = [];
    last_probe_time = none;
    system_info = none;
    conditions = [];
  };
}

abbrev pub machine_with : Text → Option Text → HostMachine
machine_with name host_ref = record {
  meta = meta_of name [] (machine_finalizer ∷ []) false;
  spec = record { provider_id = none; host_selector = none };
  status = record {
    initialized = none;
    host_ref = host_ref;
    addresses = [];
    bootstrap_data_checksum = [];
    conditions = [];
  };
}

abbrev pub worker : HostMachine
worker = machine_with (codes "worker-0") none

abbrev pub cluster : Cluster
cluster = record {
  meta = meta_of (codes "prod") [] [] false;
  infrastructure_provisioned = some true;
  infrastructure_kind = codes "HostCluster";
  infrastructure_name = codes "prod";
}

abbrev pub owner : Machine
owner = record {
  meta = meta_of (codes "worker-0") [] [] false;
  data_secret_name = some (codes "bootstrap");
  infrastructure_kind = codes "HostMachine";
  infrastructure_name = codes "worker-0";
}

abbrev pub pending_host : Host
pending_host = host_with [] false pending none

abbrev pub available_host : Host
available_host = host_with [] false available none

abbrev pub claimed_host : Host
claimed_host = host_with [] false available (some (reference_to worker))

abbrev pub labelled_host : Host
labelled_host = host_with ((claimed_by_label, codes "worker-0") ∷ []) false available none

-- A server that holds a host, before a machine that reports a finished run.
abbrev pub with_host : Host → World
with_host host = record {
  host = some host;
  machine = none;
  files = (checksum_path, codes "c0ffee") ∷ (exit_code_path, codes "0") ∷ [];
}
