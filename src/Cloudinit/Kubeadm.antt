-- ===== src/Cloudinit/Kubeadm.antt =====
-- internal/cloudinit/kubeadm.go: what is pinned in one kubeadm document.
pub mod Flags
pub mod Pinned
pub mod Nested
use kg.Base.{
  ℕ, Bool, true, false, not, ◌||◌, ◌&&◌, List, [], ◌∷◌, ◌++◌, Option, none, some, Result, ok, err,
  Text, codes, ◌==◌, if◌then◌else◌,
}
use kg.Base.Strings.{has_prefix, trim_prefix, join}
use kg.Platform.{Error, new_error}
use kg.Platform.Fallible.{Fallible, ◌>>=◌, pure, fail, with_context}
use kg.Platform.Codec.{Codec}
use kg.Yaml.{
  Value, Items, Fields, null, text, scalar, list, mapping, no_items, item, no_fields, field, lookup,
  set, as_text, as_mapping,
}

-- `kubeletArg` and `kubeadmPatch`
pub record KubeletArg : Type 0 where
  pub name : Text
  pub value : Text

pub record Patch : Type 0 where
  pub kubelet_args : List KubeletArg
  pub advertise_address : Text

abbrev no_args : List KubeletArg → Bool
no_args [] = true
no_args (a ∷ rest) = false

-- `empty`
unfoldable pub is_empty : Patch → Bool
is_empty patch = no_args patch.kubelet_args && patch.advertise_address == []

abbrev pub name_key : Text
name_key = codes "name"

abbrev pub value_key : Text
value_key = codes "value"

abbrev pub registration_key : Text
registration_key = codes "nodeRegistration"

abbrev pub args_key : Text
args_key = codes "kubeletExtraArgs"

abbrev pub group_prefix : Text
group_prefix = codes "kubeadm.k8s.io/"

-- `usesArgList`
unfoldable pub uses_arg_list : Text → Bool
uses_arg_list api_version =
    let version = trim_prefix api_version group_prefix in
    not (version == codes "v1beta1" || version == codes "v1beta2" || version == codes "v1beta3")

abbrev pub is_text : Text → Option Value → Bool
is_text s (some (text t)) = t == s
is_text s _ = false

-- An entry of the list form, which names the flag.
abbrev pub names_flag : Text → Value → Bool
names_flag name (mapping fs) = is_text name (lookup name_key fs)
names_flag name _ = false

-- `entry["value"] = value`
abbrev pub set_value : Text → Value → Value
set_value value (mapping fs) = mapping (set value_key (text value) fs)
set_value value v = v

abbrev pub new_entry : Text → Text → Value
new_entry name value = mapping (field name_key (text name) (field value_key (text value) no_fields))

-- `upsertArgList`
unfoldable pub upsert_args : Items → Text → Text → Items
upsert_args no_items name value = item (new_entry name value) no_items
upsert_args (item v vs) name value =
    let rest = upsert_args vs name value in
    if names_flag name v then item (set_value value v) vs else item v rest

abbrev pub new_args : Bool → Text → Text → Value
new_args true name value = list (upsert_args no_items name value)
new_args false name value = mapping (set name (text value) no_fields)

-- `m, ok := v.(map[string]any)`, with a new mapping where it is none.
abbrev pub registration_of : Option Value → Fields
registration_of (some (mapping fs)) = fs
registration_of _ = no_fields

module _ {C : Type 0} (codec : Codec C) where
  abbrev unexpected : Value → Error
  unexpected v =
      new_error
        (codes "nodeRegistration.kubeletExtraArgs has unexpected type " ++ codec.print_type v)

  -- The switch on the form of the flags.
  unfoldable pub set_args : Text → Text → Text → Option Value → Fallible Value
  unfolding upsert_args uses_arg_list
  set_args api_version name value none = pure (new_args (uses_arg_list api_version) name value)
  set_args api_version name value (some null) =
      pure (new_args (uses_arg_list api_version) name value)
  set_args api_version name value (some (list vs)) = pure (list (upsert_args vs name value))
  set_args api_version name value (some (mapping fs)) = pure (mapping (set name (text value) fs))
  set_args api_version name value (some v) = fail (unexpected v)

  -- `setKubeletExtraArg`
  unfoldable pub set_extra_arg : Fields → Text → Text → Text → Fallible Fields
  unfolding set_args
  set_extra_arg doc api_version name value = do
    let registration = registration_of (lookup registration_key doc)
    args ← set_args api_version name value (lookup args_key registration)
    pure (set registration_key (mapping (set args_key args registration)) doc)

  -- The loop over the flags of a patch.
  unfoldable pub set_extra_args : Fields → Text → List KubeletArg → Fallible Fields
  unfolding set_extra_arg
  set_extra_args doc api_version [] = pure doc
  set_extra_args doc api_version (a ∷ rest) = do
    doc' ← set_extra_arg doc api_version a.name a.value
    set_extra_args doc' api_version rest

-- The mapping at a key, for `setNested` to go into; the keys gone through are for the error.
abbrev pub nested_mapping : List Text → Option Value → Fallible Fields
nested_mapping through v = elim (as_mapping v) [
  | some fs ↦ ok fs
  | none ↦ err (new_error (join through (codes ".") ++ codes " is not a mapping"))
]

-- `setNested`, with a path of at least one key.
unfoldable pub set_nested : List Text → Fields → Text → List Text → Fallible Fields
set_nested through doc value [] = pure doc
set_nested through doc value (k ∷ []) = pure (set k (text value) doc)
set_nested through doc value (k ∷ j ∷ ks) = do
  inner ← nested_mapping (through ++ k ∷ []) (lookup k doc)
  inner' ← set_nested (through ++ k ∷ []) inner value (j ∷ ks)
  pure (set k (mapping inner') doc)

abbrev pub init_path : List Text
init_path = codes "localAPIEndpoint" ∷ codes "advertiseAddress" ∷ []

abbrev pub join_path : List Text
join_path = codes "controlPlane" ∷ codes "localAPIEndpoint" ∷ codes "advertiseAddress" ∷ []

abbrev pub set_join_address : Fields → Text → Option Value → Fallible Fields
set_join_address doc address none = pure doc
set_join_address doc address (some v) = set_nested [] doc address join_path

-- `setAdvertiseAddress`
unfoldable pub set_advertise_address : Fields → Text → Text → Fallible Fields
unfolding set_nested
set_advertise_address doc kind address =
    if kind == codes "InitConfiguration"
    then set_nested [] doc address init_path
    else if kind == codes "JoinConfiguration"
    then set_join_address doc address (lookup (codes "controlPlane") doc)
    else pure doc

module _ {C : Type 0} (codec : Codec C) where
  abbrev pub set_address : Fields → Text → Text → Fallible Fields
  set_address doc kind address =
      if address == [] then pure doc else set_advertise_address doc kind address

  -- What `patchKubeadmConfig` writes into one document.
  unfoldable pub patch_document : Patch → Text → Text → Fields → Fallible Fields
  unfolding set_extra_args set_advertise_address
  patch_document patch api_version kind doc = with_context (kind ++ codes ": ") (do
    doc' ← set_extra_args codec doc api_version patch.kubelet_args
    set_address doc' kind patch.advertise_address)
