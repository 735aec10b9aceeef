-- ===== src/Cloudinit/Kubeadm/Pinned.antt =====
-- What a patched kubeadm document says, and that it says the rest as before.
use kg.Base.{
  ◌≤◌, List, [], ◌∷◌, Option, none, some, ok, Text, ◌==◌, ◌≡◌, ◌≢◌, refl, arith, if◌then◌else◌,
  ==_refl, ◌∙◌,
}
use kg.Platform.Fallible.{>>=-eq-ok}
use kg.Platform.Codec.{Codec}
use kg.Yaml.{Value, Fields, null, text, scalar, list, mapping, lookup, set}
use kg.Yaml.Laws.{lookup-set}
use kg.Cloudinit.Kubeadm.{
  KubeletArg, registration_key, args_key, set_args, registration_of, set_extra_arg, set_extra_args,
  uses_arg_list,
}
use kg.Cloudinit.Kubeadm.Flags.{
  flag_of, times_of, args_of, kubelet_flag, IsOnce, flag_of-new_args, times_of-new_args,
  last_flag-upsert_args, IsOnce-upsert_args,
}

-- The value that a list of flags gives a flag: the last of its name, or what it was.
unfoldable pub assigned : Text → List KubeletArg → Option Value → Option Value
assigned m [] before = before
assigned m (a ∷ rest) before = assigned m rest (if a.name == m then some (text a.value) else before)

module _ {C : Type 0} (codec : Codec C) where
  flag_of-set_args :
      (api m n value : Text) (o : Option Value) (w : Value)
      → set_args codec api n value o ≡ ok w
      → times_of m o ≤ 1
      → (flag_of m (some w) ≡ (if n == m then some (text value) else flag_of m o))
        × (times_of m (some w) ≤ 1)
  unfolding set_args
  flag_of-set_args api m n value none w h once = (
    ground (arith, flag_of-new_args (uses_arg_list api) m n value),
    ground (arith, times_of-new_args (uses_arg_list api) m n value),
  )
  flag_of-set_args api m n value (some null) w h once = (
    ground (arith, flag_of-new_args (uses_arg_list api) m n value),
    ground (arith, times_of-new_args (uses_arg_list api) m n value),
  )
  flag_of-set_args api m n value (some (list vs)) w h once = (
    ground (arith, last_flag-upsert_args m n value vs),
    ground (arith, IsOnce-upsert_args m n value vs),
  )
  flag_of-set_args api m n value (some (mapping fs)) w h once =
      (ground (arith, lookup-set n m (text value) fs), ground arith)
  flag_of-set_args api m n value (some (text s)) w h once = cc
  flag_of-set_args api m n value (some (scalar s)) w h once = cc

  args_of-set_extra_arg :
      (doc doc' : Fields) (api n value : Text)
      → set_extra_arg codec doc api n value ≡ ok doc'
      → (args : Value) × (set_args codec api n value (args_of doc) ≡ ok args)
        × (args_of doc' ≡ some args)
        × ((j : Text) → registration_key ≢ j → lookup j doc' ≡ lookup j doc)
  unfolding set_extra_arg
  args_of-set_extra_arg doc doc' api n value h =
      let r = registration_of (lookup registration_key doc) in
      let (args, set_ok, same) = >>=-eq-ok (set_args codec api n value (lookup args_key r)) _ h in
      let whole : set registration_key (mapping (set args_key args r)) doc ≡ doc' = ground arith in
      (
        args,
        set_ok,
        rw (← whole) (
            rw
              (
                lookup-set registration_key registration_key (mapping (set args_key args r)) doc,
                ==_refl registration_key,
                lookup-set args_key args_key args r,
                ==_refl args_key,
              )
              refl),
        λ j other.
            rw (← whole)
              (ground (arith, lookup-set registration_key j (mapping (set args_key args r)) doc)),
      )

  -- One flag is pinned: it is read back, another flag stays, and so does every other section.
  set_extra_arg-kubelet_flag :
      (m : Text) (doc doc' : Fields) (api n value : Text)
      → set_extra_arg codec doc api n value ≡ ok doc'
      → IsOnce m doc
      → (kubelet_flag m doc' ≡ (if n == m then some (text value) else kubelet_flag m doc))
        × IsOnce m doc'
  unfolding kubelet_flag IsOnce
  set_extra_arg-kubelet_flag m doc doc' api n value h once =
      let (args, set_ok, there, _) = args_of-set_extra_arg doc doc' api n value h in
      rw there (flag_of-set_args api m n value (args_of doc) args set_ok once)

  pub set_extra_args-lookup :
      (as' : List KubeletArg) (doc doc' : Fields) (api j : Text)
      → set_extra_args codec doc api as' ≡ ok doc'
      → registration_key ≢ j
      → lookup j doc' ≡ lookup j doc
  unfolding set_extra_args
  set_extra_args-lookup [] doc doc' api j h other = ground arith
  set_extra_args-lookup (a ∷ rest) doc doc' api j h other =
      let (mid, one, more) = >>=-eq-ok (set_extra_arg codec doc api a.name a.value) _ h in
      let (_, _, _, keys) = args_of-set_extra_arg doc mid api a.name a.value one in
      set_extra_args-lookup rest mid doc' api j more other ∙ keys j other

  pub set_extra_args-assigned :
      (m : Text) (as' : List KubeletArg) (doc doc' : Fields) (api : Text)
      → set_extra_args codec doc api as' ≡ ok doc'
      → IsOnce m doc
      → kubelet_flag m doc' ≡ assigned m as' (kubelet_flag m doc)
  unfolding set_extra_args assigned
  set_extra_args-assigned m [] doc doc' api h once =
      let same : doc ≡ doc' = ground arith in rw same refl
  set_extra_args-assigned m (a ∷ rest) doc doc' api h once =
      let (mid, one, more) = >>=-eq-ok (set_extra_arg codec doc api a.name a.value) _ h in
      let (flag, still) = set_extra_arg-kubelet_flag m doc mid api a.name a.value one once in
      rw (← flag) (set_extra_args-assigned m rest mid doc' api more still)
