-- ===== src/Cloudinit/Documents/Patched.antt =====
-- What a kubeadm document says once it is patched, and that a patch is never left out in silence.
use kg.Base.{
  List, [], ◌∷◌, Option, none, some, ok, Text, Text-discrete, codes, ◌==◌, ◌≡◌, ◌≢◌, inl, inr, refl,
  arith, if◌then◌else◌, ne_of_==, Bool-cases, Option-cases, ◌∙◌,
}
use kg.Platform.Fallible.{>>=-eq-ok, with_context-ok}
use kg.Platform.Codec.{Codec}
use kg.Yaml.{Value, Fields, null, text, mapping, lookup, at_path}
use kg.Cloudinit.Kubeadm.{
  Patch, registration_key, init_path, join_path, set_nested, set_extra_args, set_join_address,
  set_advertise_address, set_address, patch_document,
}
use kg.Cloudinit.Kubeadm.Flags.{IsOnce, kubelet_flag}
use kg.Cloudinit.Kubeadm.Pinned.{assigned, set_extra_args-assigned, set_extra_args-lookup}
use kg.Cloudinit.Kubeadm.Nested.{at_path-set_nested, set_nested-Diverges}

at_path-one : (k : Text) (fs : Fields) → at_path (k ∷ []) (mapping fs) ≡ lookup k fs
unfolding at_path
at_path-one k fs = ground (arith, Option-cases (lookup k fs))

-- A path that is set touches no key but its first.
set_nested-lookup :
    (doc doc' : Fields) (value j k : Text) (js : List Text)
    → set_nested [] doc value (j ∷ js) ≡ ok doc'
    → j ≢ k
    → lookup k doc' ≡ lookup k doc
set_nested-lookup doc doc' value j k js h other =
    rw (← at_path-one k doc, ← at_path-one k doc')
      (set_nested-Diverges [] doc doc' value (j ∷ js) (k ∷ []) h (inl other))

set_join_address-lookup :
    (doc doc' : Fields) (address k : Text) (o : Option Value)
    → set_join_address doc address o ≡ ok doc'
    → codes "controlPlane" ≢ k
    → lookup k doc' ≡ lookup k doc
set_join_address-lookup doc doc' address k none h other = ground arith
set_join_address-lookup doc doc' address k (some v) h other =
    set_nested-lookup doc doc' address (codes "controlPlane") k
      (codes "localAPIEndpoint" ∷ codes "advertiseAddress" ∷ []) h other

-- The path of the address below `controlPlane`; null is an empty section.
abbrev path_below : Option Value → Option (List Text)
path_below none = none
path_below (some null) = none
path_below (some v) = some join_path

-- The path of the address that kubeadm reads: none for a join without a control plane.
unfoldable pub address_path : Text → Fields → Option (List Text)
address_path kind doc =
    if kind == codes "InitConfiguration"
    then some init_path
    else if kind == codes "JoinConfiguration"
    then path_below (lookup (codes "controlPlane") doc)
    else none

module _ {C : Type 0} (codec : Codec C) where
  set_address-lookup :
      (doc doc' : Fields) (kind address k : Text)
      → set_address codec doc kind address ≡ ok doc'
      → codes "localAPIEndpoint" ≢ k
      → codes "controlPlane" ≢ k
      → lookup k doc' ≡ lookup k doc
  unfolding set_advertise_address
  set_address-lookup doc doc' kind address k h ne_local ne_control =
      elim (Bool-cases (address == [])) [
        | inl unset ↦ ground arith
        | inr given ↦ elim (Bool-cases (kind == codes "InitConfiguration")) [
          | inl init ↦
              set_nested-lookup doc doc' address (codes "localAPIEndpoint") k
                (codes "advertiseAddress" ∷ []) (ground arith) ne_local
          | inr other ↦ elim (Bool-cases (kind == codes "JoinConfiguration")) [
            | inl join ↦
                set_join_address-lookup doc doc' address k (lookup (codes "controlPlane") doc)
                  (ground arith) ne_control
            | inr neither ↦ ground arith
          ]
        ]
      ]

  patch_document-ok :
      (patch : Patch) (api kind : Text) (doc doc' : Fields)
      → patch_document codec patch api kind doc ≡ ok doc'
      → (mid : Fields) × (set_extra_args codec doc api patch.kubelet_args ≡ ok mid)
        × (set_address codec mid kind patch.advertise_address ≡ ok doc')
  unfolding patch_document
  patch_document-ok patch api kind doc doc' h =
      >>=-eq-ok (set_extra_args codec doc api patch.kubelet_args) _ (with_context-ok _ _ h)

  -- A kubeadm document that was patched gives the kubelet, for each flag that it does not repeat,
  -- the value of the patch, and what it gave before for a flag that the patch does not name. This
  -- holds of the flags in the form of a list, of which the kubelet takes the last entry of a flag,
  -- and in the form of a mapping.
  pub patch_document-kubelet_flag :
      (patch : Patch) (api kind : Text) (doc doc' : Fields) (m : Text)
      → patch_document codec patch api kind doc ≡ ok doc'
      → IsOnce m doc
      → kubelet_flag m doc' ≡ assigned m patch.kubelet_args (kubelet_flag m doc)
  unfolding kubelet_flag Text-discrete
  patch_document-kubelet_flag patch api kind doc doc' m h once =
      let (mid, args, address) = patch_document-ok patch api kind doc doc' h in
      let same =
        set_address-lookup mid doc' kind patch.advertise_address registration_key address
          (ne_of_== _ _ refl) (ne_of_== _ _ refl) in
      rw same (set_extra_args-assigned codec m patch.kubelet_args doc mid api args once)

  -- A patched kubeadm document says under each top-level key what it said before, but under
  -- nodeRegistration, localAPIEndpoint and controlPlane.
  pub patch_document-lookup :
      (patch : Patch) (api kind : Text) (doc doc' : Fields) (k : Text)
      → patch_document codec patch api kind doc ≡ ok doc'
      → registration_key ≢ k
      → codes "localAPIEndpoint" ≢ k
      → codes "controlPlane" ≢ k
      → lookup k doc' ≡ lookup k doc
  patch_document-lookup patch api kind doc doc' k h ne_flags ne_local ne_control =
      let (mid, args, address) = patch_document-ok patch api kind doc doc' h in
      let keys = λ (k : Text). set_extra_args-lookup codec patch.kubelet_args doc mid api k args in
      set_address-lookup mid doc' kind patch.advertise_address k address ne_local ne_control
      ∙ keys k ne_flags

  advertised :
      (mid doc' : Fields) (kind address : Text) (path : List Text)
      → set_address codec mid kind address ≡ ok doc'
      → address ≢ []
      → address_path kind mid ≡ some path
      → at_path path (mapping doc') ≡ some (text address)
  unfolding address_path set_advertise_address
  advertised mid doc' kind address path h given at = ground (
    arith,
    at_path-set_nested [] mid doc' address (codes "localAPIEndpoint")
        (codes "advertiseAddress" ∷ []),
    at_path-set_nested [] mid doc' address (codes "controlPlane")
        (codes "localAPIEndpoint" ∷ codes "advertiseAddress" ∷ []),
    Option-cases (lookup (codes "controlPlane") mid),
  )

  -- Where the patch has an address and kubeadm reads one from the document (always from an
  -- InitConfiguration, and from a JoinConfiguration with a controlPlane that is not null), the patched document has
  -- that address there.
  pub patch_document-address :
      (patch : Patch) (api kind : Text) (doc doc' : Fields) (path : List Text)
      → patch_document codec patch api kind doc ≡ ok doc'
      → patch.advertise_address ≢ []
      → address_path kind doc ≡ some path
      → at_path path (mapping doc') ≡ some (text patch.advertise_address)
  unfolding address_path Text-discrete
  patch_document-address patch api kind doc doc' path h given at =
      let (mid, args, address) = patch_document-ok patch api kind doc doc' h in
      let keys = λ (k : Text). set_extra_args-lookup codec patch.kubelet_args doc mid api k args in
      advertised mid doc' kind patch.advertise_address path address given
        (rw (keys (codes "controlPlane") (ne_of_== _ _ refl)) at)
