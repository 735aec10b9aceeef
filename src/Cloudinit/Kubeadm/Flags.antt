-- ===== src/Cloudinit/Kubeadm/Flags.antt =====
-- The flags that a kubeadm document gives the kubelet, and an upsert of one of them.
use kg.Base.{
  ℕ, suc, eqb, ◌&&◌, ◌≤◌, Bool, true, false, Option, none, some, Text, Text-discrete, ◌==◌, ◌≡◌,
  refl, arith, if◌then◌else◌,
}
use kg.Yaml.{
  Value, Items, Fields, null, text, scalar, list, mapping, no_items, item, no_fields, lookup,
}
use kg.Yaml.Laws.{lookup-set}
use kg.Cloudinit.Kubeadm.{
  name_key, value_key, registration_key, args_key, names_flag, set_value, upsert_args, new_args,
  registration_of, new_entry, is_text,
}

keys_apart : (value_key == name_key) ≡ false
unfolding Text-discrete
keys_apart = refl

value_refl : (value_key == value_key) ≡ true
unfolding Text-discrete
value_refl = refl

-- The value of an entry of the list form.
abbrev pub entry_value : Value → Option Value
entry_value (mapping fs) = lookup value_key fs
entry_value _ = none

-- How many entries of the list form name a flag.
unfoldable pub times : Text → Items → ℕ
times name no_items = 0
times name (item v vs) = let rest = times name vs in if names_flag name v then suc rest else rest

-- The value of a flag in the list form: that of the last entry which names it.
unfoldable pub last_flag : Text → Items → Option Value
unfolding times
last_flag name no_items = none
last_flag name (item v vs) =
    let rest = last_flag name vs in
    if names_flag name v && eqb (times name vs) 0 then entry_value v else rest

-- The value of a flag in either form.
abbrev pub flag_of : Text → Option Value → Option Value
flag_of name (some (list vs)) = last_flag name vs
flag_of name (some (mapping fs)) = lookup name fs
flag_of name _ = none

-- How often either form names a flag; a mapping names none twice.
abbrev pub times_of : Text → Option Value → ℕ
times_of name (some (list vs)) = times name vs
times_of name _ = 0

-- The flags that a kubeadm document gives the kubelet.
abbrev pub args_of : Fields → Option Value
args_of doc = lookup args_key (registration_of (lookup registration_key doc))

-- The value that a kubeadm document gives the kubelet for a flag: where it is repeated, the last.
unfoldable pub kubelet_flag : Text → Fields → Option Value
unfolding last_flag
kubelet_flag name doc = flag_of name (args_of doc)

-- No two entries of the document name the flag.
unfoldable pub IsOnce : Text → Fields → Type 0
unfolding times
IsOnce name doc = times_of name (args_of doc) ≤ 1

names_flag-set_value :
    (m value : Text) (v : Value) → names_flag m (set_value value v) ≡ names_flag m v
names_flag-set_value m value (mapping fs) =
    ground (arith, lookup-set value_key name_key (text value) fs, keys_apart)
names_flag-set_value m value null = refl
names_flag-set_value m value (text s) = refl
names_flag-set_value m value (scalar s) = refl
names_flag-set_value m value (list vs) = refl

entry_value-set_value :
    (n value : Text) (v : Value)
    → names_flag n v ≡ true
    → entry_value (set_value value v) ≡ some (text value)
entry_value-set_value n value (mapping fs) h =
    ground (arith, lookup-set value_key value_key (text value) fs)
entry_value-set_value n value null h = cc
entry_value-set_value n value (text s) h = cc
entry_value-set_value n value (scalar s) h = cc
entry_value-set_value n value (list vs) h = cc

names_unique : (m n : Text) (o : Option Value) → is_text m o ≡ true → is_text n o ≡ true → m ≡ n
names_unique m n (some (text t)) h k = ground arith
names_unique m n (some null) h k = cc
names_unique m n (some (scalar s)) h k = cc
names_unique m n (some (list vs)) h k = cc
names_unique m n (some (mapping fs)) h k = cc
names_unique m n none h k = cc

names_flag_unique : (m n : Text) (v : Value) → names_flag m v ≡ true → names_flag n v ≡ true → m ≡ n
names_flag_unique m n (mapping fs) h k = names_unique m n (lookup name_key fs) h k
names_flag_unique m n null h k = cc
names_flag_unique m n (text s) h k = cc
names_flag_unique m n (scalar s) h k = cc
names_flag_unique m n (list vs) h k = cc

times-set_value :
    (m value : Text) (v : Value) (vs : Items)
    → times m (item (set_value value v) vs) ≡ times m (item v vs)
unfolding times
times-set_value m value v vs = ground (arith, names_flag-set_value m value v)

new_entry-names : (m n value : Text) → names_flag m (new_entry n value) ≡ (n == m)
unfolding lookup Text-discrete
new_entry-names m n value = refl

new_entry-value : (n value : Text) → entry_value (new_entry n value) ≡ some (text value)
unfolding lookup Text-discrete
new_entry-value n value = refl

-- An upsert adds an entry only where there was none.
times-upsert_args :
    (m n value : Text) (vs : Items)
    → times m (upsert_args vs n value) ≡ (if n == m && eqb (times m vs) 0 then 1 else times m vs)
unfolding upsert_args times
times-upsert_args m n value no_items = ground (arith, new_entry-names m n value)
times-upsert_args m n value (item v vs) =
    ground (
      arith,
      names_flag-set_value m value v,
      names_flag_unique m n v,
      times-upsert_args m n value vs,
    )

-- A flag of at most one entry that is upserted is read back, and the others stay.
pub last_flag-upsert_args :
    (m n value : Text) (vs : Items)
    → times m vs ≤ 1
    → last_flag m (upsert_args vs n value) ≡ (if n == m then some (text value) else last_flag m vs)
unfolding upsert_args last_flag times
last_flag-upsert_args m n value no_items h =
    ground (arith, new_entry-names m n value, new_entry-value n value)
last_flag-upsert_args m n value (item v vs) h =
    let few : times m vs ≤ 1 = ground arith in
    let later = last_flag-upsert_args m n value vs few in
    ground (
      arith,
      names_flag-set_value m value v,
      entry_value-set_value n value v,
      names_flag_unique m n v,
      times-upsert_args m n value vs,
      later,
    )

-- A list has at most one entry of a flag after an upsert, where it had before.
pub IsOnce-upsert_args :
    (m n value : Text) (vs : Items) → times m vs ≤ 1 → times m (upsert_args vs n value) ≤ 1
IsOnce-upsert_args m n value vs h = ground (arith, times-upsert_args m n value vs)

no_entries : (m : Text) → times m no_items ≤ 1
unfolding times
no_entries m = omega arith

last_flag-none : (m : Text) → last_flag m no_items ≡ none
unfolding last_flag
last_flag-none m = refl

pub flag_of-new_args :
    (b : Bool) (m n value : Text)
    → flag_of m (some (new_args b n value)) ≡ (if n == m then some (text value) else none)
unfolding lookup
flag_of-new_args true m n value =
    rw (last_flag-upsert_args m n value no_items (no_entries m), last_flag-none m) refl
flag_of-new_args false m n value = lookup-set n m (text value) no_fields

pub times_of-new_args : (b : Bool) (m n value : Text) → times_of m (some (new_args b n value)) ≤ 1
times_of-new_args true m n value = IsOnce-upsert_args m n value no_items (no_entries m)
times_of-new_args false m n value = omega arith
