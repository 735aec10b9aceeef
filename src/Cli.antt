-- ===== src/Cli.antt =====
-- internal/cli: the names, paths and records that every command works with (name.go, root.go and
-- registry.go).
pub mod Refused
pub mod Selected
pub mod Summary
pub mod Pivot
use kg.Base.{
  ℕ, zero, suc, Bool, true, false, not, ◌||◌, List, [], ◌∷◌, ◌++◌, Option, none, some, Result, ok,
  err, Text, codes, ◌==◌, leb, ◌-◌, length, if◌then◌else◌,
}
use kg.Base.Int.{pos}
use kg.Base.Strings.{has_suffix, join_host_port, print_int, go_quote, trim_suffix}
use kg.Base.Paths.{base_of, dir_path, join_path}
use kg.Config.{Config}
use kg.Platform.{Error, new_error, Io, ◌>>=◌, ◌>>◌, pure, fail, attempt, with_context}
use kg.Platform.Files.{Files}
use kg.Registry.{Record, Encoding, managed, self_managed, released, key, get, put, list, forget}

-- `Options`; the command prints more where `verbose` is set.
pub record Options : Type 0 where
  pub config_path : Text
  pub state_dir : Text
  pub verbose : Bool

abbrev canonical_name : Text
canonical_name = codes "kg"

abbrev or_canonical : Text → Text
or_canonical name =
    if name == [] || name == codes "." || name == codes "/" || has_suffix name (codes ".test")
    then canonical_name
    else name

-- `resolveBinaryName`, of the arguments of the process.
unfoldable pub resolve_binary_name : List Text → Text
resolve_binary_name [] = canonical_name
resolve_binary_name (arg ∷ args) = or_canonical (trim_suffix (base_of arg) (codes ".exe"))

-- `invoke`, of the name that the process has.
unfoldable pub invoke : Text → Text → Text
invoke binary_name args = if args == [] then binary_name else binary_name ++ codes " " ++ args

abbrev pub hint_column : ℕ
hint_column = 30

abbrev spaces : ℕ → Text
spaces zero = []
spaces (suc n) = b' ' ∷ spaces n

-- `pad`
unfoldable pub pad : Text → Text
pad invocation =
    if leb hint_column (length invocation)
    then invocation ++ codes " "
    else invocation ++ spaces (hint_column - length invocation)

-- `BootstrapKubeconfig` and `WorkloadKubeconfig`
unfoldable pub bootstrap_kubeconfig : Options → Text
bootstrap_kubeconfig o = join_path (o.state_dir ∷ codes "bootstrap.kubeconfig" ∷ [])

unfoldable pub workload_kubeconfig : Options → Text → Text
workload_kubeconfig o name = join_path (o.state_dir ∷ (name ++ codes ".kubeconfig") ∷ [])

-- `invoke("cluster forget ...")` and the other calls of the command line by hand take the name that
-- the process has; `load` and `get_kubeconfig` are `config.Load` and `capi.GetKubeconfig`.
pub record Surroundings (W : Type 0) : Type 0 where
  pub files : Files W
  pub encoding : Encoding
  pub binary_name : Text
  pub load : Text → Io W Config
  pub get_kubeconfig : Text → Text → Text → Io W Text

module _ {W : Type 0} (around : Surroundings W) (o : Options) where
  -- `workloadPath`
  unfoldable pub workload_path : Text → Text → Text
  unfolding workload_kubeconfig
  workload_path namespace name =
      if namespace == name
      then workload_kubeconfig o name
      else join_path (
          o.state_dir
          ∷ codes "kubeconfigs"
          ∷ (key around.files around.encoding namespace name ++ codes ".kubeconfig")
          ∷ [])

  abbrev pub management_of : Text → Text → Text → Text
  management_of mode workload management =
      if mode == self_managed then workload else if mode == released then [] else management

  abbrev pub record_of : Config → Text → Text → Text → Record
  record_of cfg mode workload management = record {
    version = pos 1;
    name = cfg.cluster.name;
    namespace = cfg.cluster.namespace;
    mode = mode;
    endpoint =
        join_host_port cfg.cluster.control_plane_endpoint.host
          (print_int cfg.cluster.control_plane_endpoint.port);
    management_kubeconfig = management_of mode workload management;
    workload_kubeconfig = workload;
    updated_at = 0;
  }

  -- `recordFor`
  unfoldable pub record_for : Config → Text → Io W Record
  unfolding workload_path bootstrap_kubeconfig
  record_for cfg mode = do
    workload ← around.files.abs (workload_path cfg.cluster.namespace cfg.cluster.name)
    management ← around.files.abs (bootstrap_kubeconfig o)
    pure (record_of cfg mode workload management)

  -- `remember`
  unfoldable pub remember : Config → Text → Io W (Unit {0})
  unfolding record_for
  remember cfg mode = do
    r ← record_for cfg mode
    with_context (codes "save cluster management record: ")
        (put around.files around.encoding o.state_dir r)

  abbrev not_managed : Record → Error
  not_managed r = new_error (
      codes "cluster "
      ++ r.namespace
      ++ codes "/"
      ++ r.name
      ++ codes " is "
      ++ r.mode
      ++ codes "; this operation requires genesis management. Use its workload kubeconfig for "
      ++ codes "direct administration; use `"
      ++ invoke around.binary_name
          (codes "cluster forget --cluster " ++ r.namespace ++ codes "/" ++ r.name)
      ++ codes "` only after retiring the cluster to reuse its identity")

  abbrev pub refuse_other_modes : Option Record → Io W (Unit {0})
  refuse_other_modes none = pure tt
  refuse_other_modes (some r) = if r.mode == managed then pure tt else fail (not_managed r)

  -- The record of the cluster that a configuration describes.
  abbrev pub registered : Config → Io W (Option Record)
  registered cfg =
      get around.files around.encoding o.state_dir cfg.cluster.namespace cfg.cluster.name

  -- `requireGenesisManaged`
  unfoldable pub require_genesis_managed : Config → Io W (Unit {0})
  unfolding invoke
  require_genesis_managed cfg = do r ← registered cfg; refuse_other_modes r

  abbrev pub is_selected : Text → Record → Bool
  is_selected selector r = selector == r.name || selector == r.namespace ++ codes "/" ++ r.name

  -- The loop of `selectRecord`, with what was found so far.
  unfoldable pub select_from : Text → Option Record → List Record → Result Error (Option Record)
  select_from selector found [] = ok found
  select_from selector none (r ∷ rs) =
      select_from selector (if is_selected selector r then some r else none) rs
  select_from selector (some f) (r ∷ rs) =
      let rest = select_from selector (some f) rs in
      if is_selected selector r
      then err (
          new_error
            (codes "cluster " ++ go_quote selector ++ codes " is ambiguous; use namespace/name"))
      else rest

  abbrev or_unknown : Text → Option Record → Io W Record
  or_unknown selector (some r) = pure r
  or_unknown selector none = fail (
      new_error (
        codes "cluster "
        ++ go_quote selector
        ++ codes " is not registered; run `"
        ++ invoke around.binary_name (codes "clusters")
        ++ codes "` to see known clusters"))

  abbrev or_record_for : Config → Option Record → Io W Record
  or_record_for cfg (some r) = pure r
  or_record_for cfg none = record_for cfg managed

  abbrev pub select_configured : Io W Record
  select_configured = do cfg ← around.load o.config_path; r ← registered cfg; or_record_for cfg r

  abbrev selected : Text → Result Error (Option Record) → Io W Record
  selected selector (ok found) = or_unknown selector found
  selected selector (err e) = fail e

  abbrev pub select_listed : Text → Io W Record
  select_listed selector = do
    records ← list around.files around.encoding o.state_dir
    selected selector (select_from selector none records)

  -- `selectRecord`
  unfoldable pub select_record : Text → Io W Record
  unfolding record_for select_from invoke
  select_record selector = if selector == [] then select_configured else select_listed selector

  -- `RunE` of `cluster forget`, less its messages.
  unfoldable pub forget_cluster : Text → Bool → Io W (Unit {0})
  unfolding select_record
  forget_cluster selector confirmed = do
    r ← select_record selector
    (if confirmed
        then forget around.files around.encoding o.state_dir r.namespace r.name
        else pure tt)

  abbrev pub path_of : Option Record → Io W Text
  path_of none = pure (bootstrap_kubeconfig o)
  path_of (some r) =
      if r.mode == released
      then fail (
          new_error (
            codes "cluster "
            ++ r.namespace
            ++ codes "/"
            ++ r.name
            ++ codes " is released and has no CAPI host inventory"))
      else pure r.management_kubeconfig

  -- `managementPath`
  unfoldable pub management_path : Config → Io W Text
  unfolding bootstrap_kubeconfig
  management_path cfg = do r ← registered cfg; path_of r
