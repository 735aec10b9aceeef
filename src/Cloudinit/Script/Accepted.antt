-- ===== src/Cloudinit/Script/Accepted.antt =====
-- What the user data was like where `Render` gives a script.
use kg.Base.{
  Bool, true, false, List, [], ◌∷◌, some, ok, Text, codes, ◌==◌, ◌≡◌, inl, inr, refl, if◌then◌else◌,
  Bool-cases, Any, ==→≡, subst,
}
use kg.Platform.Fallible.{Fallible, ◌>>=◌, >>=-eq-ok, with_context, with_context-ok}
use kg.Platform.Codec.{Codec}
use kg.Yaml.{Value, Fields, no_fields, field, lookup}
use kg.Cloudinit.Kubeadm.{Patch, is_empty}
use kg.Cloudinit.Documents.{ResolvedFile, patch_configs}
use kg.Cloudinit.Documents.Refused.{HasConfig, patch_configs-HasConfig}
use kg.Cloudinit.Script.{
  CloudConfig, Options, is_supported, unknown_keys, refuse_unknown, check_unsupported,
  resolve_files, patch_of, pinned_files, render_config, render,
}

none_kept :
    (b : Bool) (j : Text) (rest : List Text)
    → (if b then rest else j ∷ rest) ≡ []
    → (b ≡ true) × (rest ≡ [])
none_kept true j rest h = (refl, h)
none_kept false j rest h = cc

later_field :
    (j k : Text) (w v : Value) (fs : Fields)
    → (j == k) ≡ false
    → lookup k (field j w fs) ≡ lookup k fs
unfolding lookup
later_field j k w v fs other = rw other refl

unknown_keys-lookup :
    (top : Fields) (k : Text) (v : Value)
    → unknown_keys top ≡ []
    → lookup k top ≡ some v
    → is_supported k ≡ true
unfolding unknown_keys lookup
unknown_keys-lookup no_fields k v h at = cc
unknown_keys-lookup (field j w fs) k v h at =
    let (supported, later) = none_kept (is_supported j) j (unknown_keys fs) h in
    elim (Bool-cases (j == k)) [
      | inl same ↦ subst (λ i. is_supported i ≡ true) (==→≡ j k same) supported
      | inr other ↦ unknown_keys-lookup fs k v later (rw (← later_field j k w v fs other) at)
    ]

parsed_then :
    {A B : Type 0} (prefix : Text) (r : Fallible A) (a : A) (h : r ≡ ok a) (f : A → Fallible B)
    → (with_context prefix r >>= f) ≡ f a
parsed_then prefix r a h f = rw h refl

refuse_unknown-ok : (ks : List Text) (r : Unit) → refuse_unknown ks ≡ ok r → ks ≡ []
refuse_unknown-ok [] r h = refl
refuse_unknown-ok (k ∷ ks) r h = cc

module _ (codec : Codec CloudConfig) where
  check_unsupported-ok :
      (user_data : Text) (top : Fields) (r : Unit)
      → codec.unmarshal user_data ≡ ok top
      → check_unsupported codec user_data ≡ ok r
      → unknown_keys top ≡ []
  unfolding check_unsupported
  check_unsupported-ok user_data top r parsed checked = refuse_unknown-ok (unknown_keys top) r (
      rw
        (← parsed_then (codes "parse cloud-config: ") (codec.unmarshal user_data) top parsed
          (λ t. refuse_unknown (unknown_keys t)))
        checked)

  not_empty :
      (patch : Patch) (files : List ResolvedFile)
      → is_empty patch ≡ false
      → pinned_files codec patch files ≡ patch_configs codec patch files
  not_empty patch files h = rw h refl

  -- Where `Render` gives a script, every top-level key of the cloud-config is a directive that it
  -- implements: no other directive is left out in silence.
  pub render-supported :
      (user_data script : Text) (opts : Options) (top : Fields) (k : Text) (v : Value)
      → render codec user_data opts ≡ ok script
      → codec.unmarshal user_data ≡ ok top
      → lookup k top ≡ some v
      → is_supported k ≡ true
  unfolding render check_unsupported
  render-supported user_data script opts top k v h parsed at =
      let (r, checked, _) = >>=-eq-ok (check_unsupported codec user_data) _ h in
      unknown_keys-lookup top k v (check_unsupported-ok user_data top r parsed checked) at

  -- Where `Render` gives a script and has a provider ID or an address to pin, a file of the
  -- cloud-config has a kubeadm InitConfiguration or JoinConfiguration to pin it in.
  pub render-HasConfig :
      (user_data script : Text) (opts : Options)
      → render codec user_data opts ≡ ok script
      → is_empty (patch_of opts) ≡ false
      → (cfg : CloudConfig) × (files : List ResolvedFile) × (codec.unmarshal_config user_data
          ≡ ok cfg)
        × (resolve_files codec cfg.write_files ≡ ok files)
        × Any (HasConfig codec) files
  unfolding render render_config
  render-HasConfig user_data script opts h given =
      let (r, checked, read) = >>=-eq-ok (check_unsupported codec user_data) _ h in
      let (cfg, parsed, rendered) =
        >>=-eq-ok (with_context (codes "parse cloud-config: ") (codec.unmarshal_config user_data)) _
          read in
      let (files, resolved, pinned) = >>=-eq-ok (resolve_files codec cfg.write_files) _ rendered in
      let (out, patched, _) = >>=-eq-ok (pinned_files codec (patch_of opts) files) _ pinned in
      (
        cfg,
        files,
        with_context-ok (codes "parse cloud-config: ") (codec.unmarshal_config user_data) parsed,
        resolved,
        patch_configs-HasConfig codec (patch_of opts) files out
            (rw (← not_empty (patch_of opts) files given) patched),
      )
