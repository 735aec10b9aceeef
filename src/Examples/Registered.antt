-- ===== src/Examples/Registered.antt =====
-- A registry on the disk of the examples.
use kg.Base.{
  false, [], ◌∷◌, Option, none, some, ok, err, Text, Text-discrete, codes, ◌≡◌, ◌≢◌, ◌⊎◌, refl,
  ne_of_==, All,
}
use kg.Base.Int.{pos}
use kg.Base.Strings.{has_suffix, join_host_port, print_int}
use kg.Base.Paths.{join_path, base_of, is_abs}
use kg.Api.Maps
use kg.Api.Maps.{Labels, lookup}
use kg.Platform.{Error}
use kg.Registry.{
  Record, Encoding, managed, released, validate, path, key, stamped, put, get, forget, list,
}
use kg.Registry.Outcome.{IsContent}
use kg.Registry.Atomic.{put-IsAtomic}
use kg.Registry.Roundtrip.{put-get, forget-get}
use kg.Registry.Sorted.{IsOrdered, list-IsOrdered}
use kg.Config.{Config}
use kg.Cli.{Options, Surroundings, record_for, remember, require_genesis_managed, select_from}
use kg.Cli.Refused.{remember_refused}
use kg.Cli.Selected.{IsOnly, select_from-IsOnly}
use kg.Examples.World.{missing}
use kg.Examples.Disk.{disk, view, is_temporary, disk-IsFileSystem}

abbrev pub state_dir : Text
state_dir = codes "/kg"

abbrev prod : Record
prod = record {
  version = pos 1;
  name = codes "prod";
  namespace = codes "eu";
  mode = managed;
  endpoint = codes "10.0.0.1:6443";
  management_kubeconfig = codes "/kg/bootstrap.kubeconfig";
  workload_kubeconfig = codes "/kg/prod.kubeconfig";
  updated_at = 7;
}

-- One record is all that is ever encoded here.
abbrev encoding : Encoding
encoding = record {
  checksum = λ s. codes "5f";
  encode = λ r. ok (codes "prod");
  decode = λ s. ok prod;
}

abbrev file : Text
file = codes "/kg/clusters/5f.json"

abbrev stored : Labels
stored = (file, codes "prod\n") ∷ []

at_file : path disk encoding state_dir (codes "eu") (codes "prod") ≡ file
unfolding path join_path Text-discrete
at_file = refl

put_it : put disk encoding state_dir prod [] ≡ (ok tt, stored)
unfolding put Text-discrete is_abs lookup Maps.put Maps.remove join_path
put_it = refl

put-IsAtomic_example :
    ((path disk encoding state_dir prod.namespace prod.name ≢ file)
      × (view (put disk encoding state_dir prod []).1 file ≡ view [] file))
    ⊎ ((e : Error) × ((put disk encoding state_dir prod []).0 ≡ err e)
        × (view (put disk encoding state_dir prod []).1 file ≡ view [] file))
    ⊎ ((c : Text) × (path disk encoding state_dir prod.namespace prod.name ≡ file)
        × IsContent disk encoding view is_temporary disk-IsFileSystem
            (stamped disk encoding prod 7)
            c
        × (view (put disk encoding state_dir prod []).1 file ≡ some c))
unfolding Text-discrete
put-IsAtomic_example =
    put-IsAtomic disk encoding view is_temporary disk-IsFileSystem state_dir prod file [] refl

got_it : get disk encoding state_dir (codes "eu") (codes "prod") stored ≡ (ok (some prod), stored)
unfolding get lookup Text-discrete join_path is_abs
got_it = refl

put-get_example : some prod ≡ some (stamped disk encoding prod 7)
unfolding path Text-discrete join_path
put-get_example =
    put-get disk encoding view is_temporary disk-IsFileSystem state_dir prod [] stored stored tt
      (some prod) refl (λ c content. refl) put_it got_it

forgot_it : forget disk encoding state_dir (codes "eu") (codes "prod") stored ≡ (ok tt, [])
unfolding forget lookup Text-discrete join_path Maps.remove
forgot_it = refl

got_none : get disk encoding state_dir (codes "eu") (codes "prod") [] ≡ (ok none, [])
unfolding get lookup Text-discrete join_path is_abs
got_none = refl

forget-get_example : Path (Option Record) none none
forget-get_example =
    forget-get disk encoding view is_temporary disk-IsFileSystem state_dir (codes "eu")
      (codes "prod") stored [] [] tt none forgot_it got_none

listed : list disk encoding state_dir stored ≡ (ok (prod ∷ []), stored)
unfolding list lookup Text-discrete join_path is_abs has_suffix base_of
listed = refl

list-IsOrdered_example : IsOrdered (prod ∷ []) × All (λ r. validate r ≡ ok tt) (prod ∷ [])
list-IsOrdered_example = list-IsOrdered disk encoding state_dir (prod ∷ []) stored stored listed

abbrev workload : Text
workload = codes "/kg/kubeconfigs/5f.kubeconfig"

-- The record of the cluster once it is released.
abbrev gone : Record
gone = record {
  version = pos 1;
  name = codes "prod";
  namespace = codes "eu";
  mode = released;
  endpoint = codes "10.0.0.1:6443";
  management_kubeconfig = [];
  workload_kubeconfig = workload;
  updated_at = 7;
}

abbrev pub around : Surroundings Labels
around = record {
  files = disk;
  encoding = record encoding { decode = λ s. ok gone };
  binary_name = codes "kg";
  load = λ p w. (err missing, w);
  get_kubeconfig = λ p n s w. (err missing, w);
}

abbrev pub options : Options
options = record { config_path = codes "/kg/config"; state_dir = state_dir; verbose = false }

abbrev pub eu_prod : Config
eu_prod = record {
  api_version = [];
  kind = [];
  cluster = record {
    name = codes "prod";
    namespace = codes "eu";
    kubernetes_version = codes "v1.33.1";
    control_plane_endpoint = record { host = codes "10.0.0.1"; port = pos 6443 };
    control_plane_replicas = pos 3;
    network = record { pod_cidr = []; service_cidr = []; service_domain = [] };
    image_repository = [];
    pre_kubeadm_commands = [];
    post_kubeadm_commands = [];
    ignore_preflight_errors = [];
    cni = record { manifests = [] };
    virtual_ip = record { enabled = false; interface = []; version = [] };
  };
  ssh = record {
    user = [];
    port = pos 22;
    private_key_path = [];
    passphrase = [];
    password = [];
    host_key_policy = [];
  };
  hosts = [];
  workers = [];
  bootstrap = record {
    cluster_name = [];
    node_image = [];
    capi_version = [];
    cert_manager_version = [];
  };
}

made : record_for around options eu_prod released [] ≡ (ok (record gone { updated_at = 0 }), [])
unfolding record_for join_host_port Text-discrete print_int join_path key
made = refl

remembered : remember around options eu_prod released [] ≡ (ok tt, stored)
unfolding remember put Text-discrete is_abs join_path lookup Maps.put Maps.remove
remembered = refl

remember_refused_example : require_genesis_managed around options eu_prod stored ≢ (ok tt, stored)
unfolding path Text-discrete join_path
remember_refused_example =
    remember_refused around options view is_temporary disk-IsFileSystem eu_prod released
      (record gone { updated_at = 0 }) [] [] stored stored tt tt (ne_of_== _ _ refl) made refl
      (λ c content. refl) remembered

select_from-IsOnly_example : IsOnly around options (codes "eu/prod") prod (prod ∷ [])
unfolding select_from Text-discrete
select_from-IsOnly_example =
    select_from-IsOnly around options (codes "eu/prod") prod (prod ∷ []) refl
