-- ===== src/Cli/Pivot/Eject.antt =====
-- internal/cli/pivot.go: `eject`, which lets a cluster go and drops the genesis node when nothing is
-- left.
use kg.Base.{Bool, true, false, List, [], ◌∷◌, ◌++◌, Result, ok, err, Text, codes, if◌then◌else◌}
use kg.Base.Strings.{print_int}
use kg.Base.Paths.{dir_path}
use kg.Config.{Config}
use kg.Platform.{Error, new_error, is_not_found, Io, ◌>>=◌, ◌>>◌, pure, fail, attempt, with_context}
use kg.Registry.{managed, self_managed, released}
use kg.Cli.{
  Options, Surroundings, invoke, bootstrap_kubeconfig, workload_path, remember,
  require_genesis_managed,
}
use kg.Cli.Summary.{Management, Summary, ready, cluster_summary}
use kg.Cli.Pivot.{Tools, check_self_manageable, pause_cluster, move_to_cluster, clusters_remaining}

pub record Flags : Type 0 where
  pub dry_run : Bool
  pub keep_bootstrap : Bool
  pub self_manage : Bool

-- What the command reports at its end.
pub data Outcome : Type 0 where
  dry kept deleted : Outcome
  still_managing : List Text → Outcome

module _ {W : Type 0} (around : Surroundings W) (o : Options) (tools : Tools W) where
  abbrev ignore_missing : Result Error (Unit {0}) → Io W (Unit {0})
  ignore_missing (ok r) = pure r
  ignore_missing (err e) = if is_not_found e then pure tt else fail e

  abbrev pub drop_genesis : Config → Io W Outcome
  drop_genesis cfg = do
    tools.delete_bootstrap cfg.bootstrap.cluster_name (bootstrap_kubeconfig o)
    r ← attempt (around.files.remove (bootstrap_kubeconfig o))
    ignore_missing r
    pure deleted

  -- The switch on what is left.
  abbrev pub drop_unless : Config → Bool → List Text → Io W Outcome
  drop_unless cfg true names = pure kept
  drop_unless cfg false [] = drop_genesis cfg
  drop_unless cfg false (n ∷ names) = pure (still_managing (n ∷ names))

  -- What follows once the cluster is on its own.
  unfoldable pub finish : Management W → Config → Flags → Io W Outcome
  unfolding clusters_remaining
  finish c cfg flags = do
    with_context
        (codes
          "handover completed, but the registry could not be updated; the genesis node was kept: ")
        (remember around o cfg (if flags.self_manage then self_managed else released))
    names ← clusters_remaining around o tools c cfg.cluster.namespace
    drop_unless cfg flags.keep_bootstrap names

  abbrev pub after_move : Management W → Config → Flags → Io W Outcome
  after_move c cfg flags = if flags.dry_run then pure dry else finish c cfg flags

  -- The handover to the cluster itself, or its release.
  unfoldable pub hand_over : Management W → Config → Flags → Text → Io W Outcome
  unfolding check_self_manageable move_to_cluster pause_cluster finish
  hand_over c cfg flags workload =
      if flags.self_manage
      then (do
        check_self_manageable around o tools c cfg
        move_to_cluster around o tools c cfg workload flags.dry_run
        after_move c cfg flags)
      else (if flags.dry_run
          then pure dry
          else (do pause_cluster around o tools c cfg; finish c cfg flags))

  abbrev pub refuse_unready : Config → Summary → Io W (Unit {0})
  refuse_unready cfg s =
      if ready s
      then pure tt
      else fail (
          new_error (
            codes "cluster "
            ++ cfg.cluster.name
            ++ codes " is not ready yet (control plane "
            ++ print_int s.control_plane_ready
            ++ codes "/"
            ++ print_int s.control_plane_desired
            ++ codes ", machines "
            ++ print_int s.machines_running
            ++ codes "/"
            ++ print_int s.machines_desired
            ++ codes "); run `"
            ++ invoke around.binary_name (codes "cluster status --watch")
            ++ codes "`"))

  abbrev not_initialized : Error → Error
  not_initialized e = record e {
    message =
        e.message
        ++ codes "\n\nRun `"
        ++ invoke around.binary_name (codes "init")
        ++ codes "` first";
  }

  abbrev pub connected : Result Error (Management W) → Io W (Management W)
  connected (ok c) = pure c
  connected (err e) = fail (not_initialized e)

  -- The kubeconfig of the cluster is written beside the configuration.
  unfoldable pub save_kubeconfig : Config → Text → Io W (Unit {0})
  save_kubeconfig cfg workload = do
    kubeconfig ←
        around.get_kubeconfig (bootstrap_kubeconfig o) cfg.cluster.name cfg.cluster.namespace
    around.files.mkdir_all (dir_path workload)
    with_context (codes "write " ++ workload ++ codes ": ")
        (around.files.write_file workload kubeconfig)

  abbrev pub remember_managed : Config → Flags → Io W (Unit {0})
  remember_managed cfg flags = if flags.dry_run then pure tt else remember around o cfg managed

  -- `eject`, once the genesis node is connected.
  unfoldable pub eject_from : Management W → Config → Flags → Io W Outcome
  unfolding save_kubeconfig hand_over
  eject_from c cfg flags = do
    s ← cluster_summary c around.binary_name cfg
    refuse_unready cfg s
    save_kubeconfig cfg (workload_path around o cfg.cluster.namespace cfg.cluster.name)
    remember_managed cfg flags
    hand_over c cfg flags (workload_path around o cfg.cluster.namespace cfg.cluster.name)

  -- `RunE` of `eject`, less its messages.
  unfoldable pub eject : Flags → Io W Outcome
  unfolding eject_from
  eject flags = do
    cfg ← around.load o.config_path
    require_genesis_managed around o cfg
    r ← attempt (tools.new_client (bootstrap_kubeconfig o))
    c ← connected r
    eject_from c cfg flags
