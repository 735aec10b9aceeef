-- ===== src/Examples/Ejected.antt =====
-- A cluster with one machine is let go, and the genesis node is dropped.
use kg.Base.{false, [], ◌∷◌, none, ok, err, ◌≢◌, Text, Text-discrete, codes, ◌≡◌, refl}
use kg.Base.Int.{pos, add_int32}
use kg.Base.Paths.{join_path, is_abs}
use kg.Api.Maps
use kg.Api.Maps.{Labels, lookup}
use kg.Config.{Config}
use kg.Platform.{Error, Io, new_error}
use kg.Cli.{Surroundings, bootstrap_kubeconfig, require_genesis_managed, remember}
use kg.Registry.{get, put}
use kg.Compare.{sort_texts}
use kg.Cli.Summary.{Cluster, Machine, add_workers, Management, ready, cluster_summary}
use kg.Cli.Pivot.{Tools}
use kg.Cli.Pivot.Eject.{Flags, deleted, eject}
use kg.Cli.Pivot.Dropped.{redirected, IsHandedOver, eject-IsLast}
use kg.Examples.Registered.{around, options, eu_prod}

abbrev one_machine : Config
one_machine = record eu_prod { cluster = record eu_prod.cluster { control_plane_replicas = pos 1 } }

abbrev here : Surroundings Labels
here = record around {
  load = λ p w. (ok one_machine, w);
  get_kubeconfig = λ p n s w. (ok (codes "kubeconfig"), w);
}

abbrev running : Text
running = codes "Running"

abbrev cluster : Cluster
cluster = record {
  name = codes "prod";
  namespace = codes "eu";
  paused = none;
  phase = codes "Provisioned";
}

abbrev machine : Machine
machine = record {
  name = codes "prod-1";
  phase = running;
  labels = (codes "control-plane", []) ∷ [];
}

abbrev genesis : Management Labels
genesis = record {
  get_cluster = λ s n w. (ok cluster, w);
  update_cluster = λ c w. (ok tt, w);
  list_clusters = λ w. (ok (cluster ∷ []), w);
  list_machines = λ s n w. (ok (machine ∷ []), w);
  list_hosts = λ s w. (ok [], w);
  list_host_machines = λ s w. (ok [], w);
  find_status_condition = λ cs k. none;
  running_phase = running;
  control_plane_label = codes "control-plane";
}

abbrev tools : Tools Labels
tools = record {
  retry_on_conflict = λ m. m;
  new_client = λ p w. (ok genesis, w);
  carry_image = λ cfg w. (ok tt, w);
  install_providers = λ cfg p w. (ok tt, w);
  move = λ a b n d w. (ok tt, w);
  delete_bootstrap = λ n p w. (ok tt, w);
}

abbrev flags : Flags
flags = record { dry_run = false; keep_bootstrap = false; self_manage = false }

-- A deletion of the genesis node that fails.
abbrev refused : Text → Text → Io Labels (Unit {0})
refused name path w = (err (new_error (codes "docker is not running")), w)

ejected : (v : Labels) × (eject here options tools flags [] ≡ (ok deleted, v))
unfolding eject require_genesis_managed get lookup cluster_summary ready Text-discrete add_int32
    add_workers remember put is_abs join_path Maps.put Maps.remove sort_texts
ejected = (_, refl)

not_ejected :
    (e : Error) × (v : Labels) × (eject here options
        (redirected here options tools refused)
        flags
        []
      ≡ (err e, v))
unfolding eject require_genesis_managed get lookup cluster_summary ready Text-discrete add_int32
    add_workers remember put is_abs join_path Maps.put Maps.remove sort_texts
not_ejected = (_, _, refl)

differs :
    eject here options tools flags []
    ≢ eject here options (redirected here options tools refused) flags []
differs same = let (v, done) = ejected in let (e, u, failed) = not_ejected in cc

eject-IsLast_example :
    (flags.dry_run ≡ false)
    × (flags.keep_bootstrap ≡ false)
    × (cfg : Config) × (c : Management Labels) × (x : Labels) × (y : Labels) × (z : Labels)
    × (here.load options.config_path [] ≡ (ok cfg, x))
    × (require_genesis_managed here options cfg x ≡ (ok tt, y))
    × (tools.new_client (bootstrap_kubeconfig options) y ≡ (ok c, z))
    × IsHandedOver here options tools c cfg flags z
eject-IsLast_example = eject-IsLast here options tools refused flags [] differs
