-- ===== src/Cli/Refused.antt =====
-- What the commands refuse once a cluster is on its own.
use kg.Base.{
  Bool, false, Option, some, ok, Text, codes, ◌≡◌, ◌≢◌, inl, inr, ◌==◌, ==→≡, arith, subst,
  Bool-cases,
}
use kg.Config.{Config}
use kg.Platform.{bind_result, with_context, >>=-eq-ok, with_context-ok}
use kg.Platform.Files.{IsFileSystem}
use kg.Registry.{Record, managed, pattern, path, stamped, put, get}
use kg.Registry.Outcome.{IsContent}
use kg.Registry.Roundtrip.{put-get}
use kg.Cli.{
  Options, Surroundings, record_of, record_for, remember, workload_path, bootstrap_kubeconfig,
  refuse_other_modes, registered, require_genesis_managed,
}

module _ {W : Type 0} (around : Surroundings W) (o : Options) where
  refuse_other_modes-some :
      (r : Record) (w v : W) (a : Unit {0})
      → refuse_other_modes around o (some r) w ≡ (ok a, v)
      → r.mode ≡ managed
  refuse_other_modes-some r w v a h = elim (Bool-cases (r.mode == managed)) [
    | inl same ↦ ==→≡ r.mode managed same
    | inr other ↦ absurd (ground arith)
  ]

  record_for-ok :
      (cfg : Config) (mode : Text) (r : Record) (w v : W)
      → record_for around o cfg mode w ≡ (ok r, v)
      → (workload management : Text) × (record_of around o cfg mode workload management ≡ r)
  unfolding record_for
  record_for-ok cfg mode r w v h =
      let (workload, u, _, more) =
        >>=-eq-ok (around.files.abs (workload_path around o cfg.cluster.namespace cfg.cluster.name))
          _ w h in
      let (management, u', _, same) =
        >>=-eq-ok (around.files.abs (bootstrap_kubeconfig o)) _ u more in
      (workload, management, cc)

  saved :
      (cfg : Config) (mode : Text) (r : Record) (w w' v : W) (a : Unit {0})
      → record_for around o cfg mode w ≡ (ok r, w')
      → remember around o cfg mode w ≡ (ok a, v)
      → put around.files around.encoding o.state_dir r w' ≡ (ok a, v)
  unfolding remember
  saved cfg mode r w w' v a made h =
      with_context-ok (codes "save cluster management record: ")
        (put around.files around.encoding o.state_dir r) w'
        (subst
          (λ x.
            bind_result x (λ s.
              with_context (codes "save cluster management record: ")
                (put around.files around.encoding o.state_dir s))
            ≡ (ok a, v))
          made h)

  get_refused :
      (cfg : Config) (r : Record) (v u : W) (b : Unit {0}) (found : Option Record)
      → found ≡ some r
      → r.mode ≢ managed
      → refuse_other_modes around o found v ≢ (ok b, u)
  get_refused cfg r v u b found same other h = other (
      refuse_other_modes-some r v u b
        (subst (λ x. refuse_other_modes around o x v ≡ (ok b, u)) same h))

  -- `requireGenesisManaged` fails on a cluster of which the registry has just recorded that it is
  -- released or manages itself: no command that begins with it acts on such a cluster. This needs
  -- that the record that was written is decoded from its encoding and a line break.
  pub remember_refused :
      (view : W → Text → Option Text) (is_temporary : Text → Bool)
      (fs : IsFileSystem around.files view is_temporary pattern) (cfg : Config) (mode : Text)
      (r : Record) (w w' v u : W) (a b : Unit {0})
      → mode ≢ managed
      → record_for around o cfg mode w ≡ (ok r, w')
      → is_temporary (path around.files around.encoding o.state_dir r.namespace r.name) ≡ false
      → ((c : Text)
          → IsContent around.files around.encoding view is_temporary fs
              (stamped around.files around.encoding r (around.files.now w'))
              c
          → around.encoding.decode c
            ≡ ok (stamped around.files around.encoding r (around.files.now w')))
      → remember around o cfg mode w ≡ (ok a, v)
      → require_genesis_managed around o cfg v ≢ (ok b, u)
  unfolding remember require_genesis_managed
  remember_refused view is_temporary fs cfg mode r w w' v u a b other made apart decodes h k =
      let (workload, management, same) = record_for-ok cfg mode r w w' made in
      let (found, u', got, checked) = >>=-eq-ok (registered around o cfg) _ v k in
      let stored = saved cfg mode r w w' v a made h in
      let s = stamped around.files around.encoding r (around.files.now w') in
      let found_it =
        put-get around.files around.encoding view is_temporary fs o.state_dir r w' v u' a found
          apart decodes stored
          (subst
            (λ x.
              get around.files around.encoding o.state_dir x.namespace x.name v ≡ (ok found, u'))
            same got) in
      get_refused cfg s u' u b found found_it (subst (λ x. x.mode ≢ managed) same other) checked
