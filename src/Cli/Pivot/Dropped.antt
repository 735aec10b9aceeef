-- ===== src/Cli/Pivot/Dropped.antt =====
-- When the genesis node is deleted: never before its record is stored, nor while it manages a cluster.
use kg.Base.{
  Bool, true, false, List, [], ◌∷◌, ok, Text, codes, ◌≡◌, ◌≢◌, ◌⊎◌, inl, inr, refl, ◌∙◌, arith,
  ◌==◌, ==→≡, Result, err, if◌then◌else◌, Bool-cases, All,
}
use kg.Compare.{sort_texts, insert_text}
use kg.Config.{Config}
use kg.Platform.{Error, Io, ◌>>=◌, attempt, with_context, >>=-eq-ok, >>=-ne, with_context-ok}
use kg.Registry.{managed, self_managed, released}
use kg.Cli.{
  Options, Surroundings, bootstrap_kubeconfig, remember, require_genesis_managed, workload_path,
}
use kg.Cli.Summary.{Cluster, Management, Summary, ready, cluster_summary}
use kg.Cli.Pivot.{
  Tools, is_paused, remaining, clusters_remaining, check_self_manageable, move_to_cluster,
  pause_cluster, verify_moved, count_inventory,
}
use kg.Cli.Pivot.Eject.{
  Flags, Outcome, drop_unless, finish, hand_over, connected, refuse_unready, save_kubeconfig,
  remember_managed, eject_from, eject,
}

insert_text_some : (s : Text) (ts : List Text) → insert_text s ts ≢ []
unfolding insert_text
insert_text_some s [] h = cc
insert_text_some s (t ∷ ts) h = absurd (ground arith)

sort_texts_none : (ts : List Text) → sort_texts ts ≡ [] → ts ≡ []
unfolding sort_texts
sort_texts_none [] h = refl
sort_texts_none (t ∷ ts) h = absurd (insert_text_some t (sort_texts ts) h)

-- Nothing acts on the cluster here any more, or it is the one that is let go.
abbrev pub IsReleased : Text → Cluster → Type 0
IsReleased ejected k = (k.namespace ≡ ejected) ⊎ (is_paused k ≡ true)

remaining-All :
    (ejected : Text) (cs : List Cluster) → remaining ejected cs ≡ [] → All (IsReleased ejected) cs
unfolding remaining
remaining-All ejected [] h = tt
remaining-All ejected (c ∷ cs) h = elim (Bool-cases (c.namespace == ejected)) [
  | inl same ↦ (inl (==→≡ c.namespace ejected same), remaining-All ejected cs (ground arith))
  | inr other ↦ elim (Bool-cases (is_paused c)) [
    | inl paused ↦ (inr paused, remaining-All ejected cs (ground arith))
    | inr active ↦ absurd (ground arith)
  ]
]

module _ {W : Type 0} (around : Surroundings W) (o : Options) (tools : Tools W) where
  abbrev mode_of : Flags → Text
  mode_of flags = if flags.self_manage then self_managed else released

  -- The cluster is moved to itself, or its management here is paused.
  abbrev pub HandsOver : Management W → Config → Text → Bool → W → W → Type 0
  HandsOver c cfg workload true w u =
      (x : W) × (check_self_manageable around o tools c cfg w ≡ (ok tt, x))
      × (move_to_cluster around o tools c cfg workload false x ≡ (ok tt, u))
  HandsOver c cfg workload false w u = pause_cluster around o tools c cfg w ≡ (ok tt, u)

  -- From `u`, the record is stored, and then every cluster that is listed is released.
  abbrev pub IsLast : Management W → Config → Flags → W → Type 0
  IsLast c cfg flags u =
      (u' : W) × (u'' : W) × (clusters : List Cluster) × (remember around o cfg (mode_of flags) u
        ≡ (ok tt, u'))
      × (c.list_clusters u' ≡ (ok clusters, u''))
      × All (IsReleased cfg.cluster.namespace) clusters

  -- From `w`, the cluster is found ready, its kubeconfig and its record are stored, it is handed
  -- over, and it is the last one.
  abbrev pub IsHandedOver : Management W → Config → Flags → W → Type 0
  IsHandedOver c cfg flags w =
      let workload = workload_path around o cfg.cluster.namespace cfg.cluster.name in
      (s : Summary) × (x : W) × (y : W) × (z : W) × (u : W) × (cluster_summary c around.binary_name
          cfg w
        ≡ (ok s, x))
      × (ready s ≡ true)
      × (save_kubeconfig around o tools cfg workload x ≡ (ok tt, y))
      × (remember around o cfg managed y ≡ (ok tt, z))
      × HandsOver c cfg workload flags.self_manage z u
      × IsLast c cfg flags u

  refuse_unready-ok :
      (cfg : Config) (s : Summary) (w v : W) (a : Unit {0})
      → refuse_unready around o tools cfg s w ≡ (ok a, v)
      → (ready s ≡ true) × (w ≡ v)
  refuse_unready-ok cfg s w v a h = elim (Bool-cases (ready s)) [
    | inl is_ready ↦ (is_ready, ground arith)
    | inr not_ready ↦ absurd (ground arith)
  ]

  connected-ok :
      (m : Result Error (Management W) × W) (r : Result Error (Management W)) (c : Management W)
      (u v : W)
      → (◌≡◌ {A = Result Error (Result Error (Management W)) × W} (ok m.0, m.1) (ok r, u))
      → connected around o tools r u ≡ (ok c, v)
      → m ≡ (ok c, v)
  connected-ok m (ok d) c u v h k = ground arith
  connected-ok m (err e) c u v h k = cc

  -- The tools with another deletion of the genesis node.
  module _ (other : Text → Text → Io W (Unit {0})) where
    abbrev pub redirected : Tools W
    redirected = record tools { delete_bootstrap = other }

    drop_unless-differs :
        (cfg : Config) (keep : Bool) (names : List Text) (w : W)
        → drop_unless around o tools cfg keep names w
          ≢ drop_unless around o redirected cfg keep names w
        → (keep ≡ false) × (names ≡ [])
    drop_unless-differs cfg true names w h = absurd (h refl)
    drop_unless-differs cfg false [] w h = (refl, refl)
    drop_unless-differs cfg false (n ∷ names) w h = absurd (h refl)

    finish-differs :
        (c : Management W) (cfg : Config) (flags : Flags) (w : W)
        → finish around o tools c cfg flags w ≢ finish around o redirected c cfg flags w
        → (flags.keep_bootstrap ≡ false) × IsLast c cfg flags w
    unfolding finish clusters_remaining
    finish-differs c cfg flags w h =
        let prefix =
          codes
            "handover completed, but the registry could not be updated; the genesis node was kept: " in
        let listing =
          with_context (codes "list the clusters still managed here: ") c.list_clusters in
        let (_, u', stored, more) =
          >>=-ne (with_context prefix (remember around o cfg (mode_of flags))) _ _ w h in
        let (names, u, listed, rest) =
          >>=-ne (clusters_remaining around o tools c cfg.cluster.namespace) _ _ u' more in
        let (clusters, u'', got, same) = >>=-eq-ok listing _ u' listed in
        let (not_kept, no_names) = drop_unless-differs cfg flags.keep_bootstrap names u rest in
        let nothing : sort_texts (remaining cfg.cluster.namespace clusters) ≡ names = cc in
        (
          not_kept,
          (
            u',
            u'',
            clusters,
            with_context-ok prefix (remember around o cfg (mode_of flags)) w stored,
            with_context-ok (codes "list the clusters still managed here: ") c.list_clusters u' got,
            remaining-All cfg.cluster.namespace clusters
                (sort_texts_none (remaining cfg.cluster.namespace clusters) (nothing ∙ no_names)),
          ),
        )

    abbrev flags_of : Bool → Bool → Bool → Flags
    flags_of d k s = record { dry_run = d; keep_bootstrap = k; self_manage = s }

    hand_over-differs :
        (c : Management W) (cfg : Config) (d k s : Bool) (workload : Text) (w : W)
        → hand_over around o tools c cfg (flags_of d k s) workload w
          ≢ hand_over around o redirected c cfg (flags_of d k s) workload w
        → (d ≡ false)
          × (k ≡ false)
          × (u : W) × HandsOver c cfg workload s w u
          × IsLast c cfg (flags_of d k s) u
    unfolding hand_over check_self_manageable move_to_cluster pause_cluster verify_moved
        count_inventory
    hand_over-differs c cfg true k false workload w h = absurd (h refl)
    hand_over-differs c cfg false k false workload w h =
        let (_, u, paused, more) = >>=-ne (pause_cluster around o tools c cfg) _ _ w h in
        let (not_kept, last) = finish-differs c cfg (flags_of false k false) u more in
        (refl, not_kept, u, paused, last)
    hand_over-differs c cfg true k true workload w h =
        let (_, x, _, more) = >>=-ne (check_self_manageable around o tools c cfg) _ _ w h in
        let (_, u, _, rest) =
          >>=-ne (move_to_cluster around o tools c cfg workload true) _ _ x more in
        absurd (rest refl)
    hand_over-differs c cfg false k true workload w h =
        let (_, x, checked, more) = >>=-ne (check_self_manageable around o tools c cfg) _ _ w h in
        let (_, u, moved, rest) =
          >>=-ne (move_to_cluster around o tools c cfg workload false) _ _ x more in
        let (not_kept, last) = finish-differs c cfg (flags_of false k true) u rest in
        (refl, not_kept, u, (x, checked, moved), last)

    remembered :
        (cfg : Config) (flags : Flags) (w v : W)
        → flags.dry_run ≡ false
        → remember_managed around o tools cfg flags w ≡ (ok tt, v)
        → remember around o cfg managed w ≡ (ok tt, v)
    remembered cfg flags w v not_dry h = rw (← h, not_dry) refl

    eject_from-differs :
        (c : Management W) (cfg : Config) (flags : Flags) (w : W)
        → eject_from around o tools c cfg flags w ≢ eject_from around o redirected c cfg flags w
        → (flags.dry_run ≡ false) × (flags.keep_bootstrap ≡ false) × IsHandedOver c cfg flags w
    unfolding eject_from save_kubeconfig
    eject_from-differs c cfg flags w h =
        let workload = workload_path around o cfg.cluster.namespace cfg.cluster.name in
        let (s, x, summed, h1) = >>=-ne (cluster_summary c around.binary_name cfg) _ _ w h in
        let (_, x', accepted, h2) = >>=-ne (refuse_unready around o tools cfg s) _ _ x h1 in
        let (is_ready, still) = refuse_unready-ok cfg s x x' tt accepted in
        let (_, y, saved, h3) = >>=-ne (save_kubeconfig around o tools cfg workload) _ _ x' h2 in
        let (_, z, stored, h4) = >>=-ne (remember_managed around o tools cfg flags) _ _ y h3 in
        let (not_dry, not_kept, u, handed, last) =
          hand_over-differs c cfg flags.dry_run flags.keep_bootstrap flags.self_manage workload z
            h4 in
        (
          not_dry,
          not_kept,
          (
            s,
            x,
            y,
            z,
            u,
            summed,
            is_ready,
            rw still saved,
            remembered cfg flags y z not_dry stored,
            handed,
            last,
          ),
        )

    -- What `eject` does depends on the deletion of the genesis node, by the tool that deletes it, only
    -- where it was not asked for a dry run or to keep the node, where the configuration was loaded,
    -- its cluster was one that the genesis node manages, and the client of that node was made; where
    -- by this client the cluster was ready, its kubeconfig and record were stored and it was handed
    -- over; and where, once the registry had stored its new management, every other cluster that the
    -- genesis node listed was paused or in the namespace that was let go. Anywhere else the run is
    -- the same with any other deletion, so that none is called.
    pub eject-IsLast :
        (flags : Flags) (w : W)
        → eject around o tools flags w ≢ eject around o redirected flags w
        → (flags.dry_run ≡ false)
          × (flags.keep_bootstrap ≡ false)
          × (cfg : Config) × (c : Management W) × (x : W) × (y : W) × (z : W) × (around.load
                o.config_path w
              ≡ (ok cfg, x))
          × (require_genesis_managed around o cfg x ≡ (ok tt, y))
          × (tools.new_client (bootstrap_kubeconfig o) y ≡ (ok c, z))
          × IsHandedOver c cfg flags z
    unfolding eject
    eject-IsLast flags w h =
        let (cfg, x, loaded, h1) = >>=-ne (around.load o.config_path) _ _ w h in
        let (_, y, accepted, h2) = >>=-ne (require_genesis_managed around o cfg) _ _ x h1 in
        let from : Management W → Io W Outcome = λ c. eject_from around o tools c cfg flags in
        let other_from : Management W → Io W Outcome =
          λ c. eject_from around o redirected c cfg flags in
        let (r, z', tried, h3) =
          >>=-ne (attempt (tools.new_client (bootstrap_kubeconfig o)))
            (λ r. connected around o tools r >>= from)
            (λ r. connected around o redirected r >>= other_from) y h2 in
        let (c, z, made, h4) = >>=-ne (connected around o tools r) from other_from z' h3 in
        let (not_dry, not_kept, handed) = eject_from-differs c cfg flags z h4 in
        (
          not_dry,
          not_kept,
          cfg,
          c,
          x,
          y,
          z,
          loaded,
          accepted,
          connected-ok (tools.new_client (bootstrap_kubeconfig o) y) r c z' z tried made,
          handed,
        )
