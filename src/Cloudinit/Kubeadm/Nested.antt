-- ===== src/Cloudinit/Kubeadm/Nested.antt =====
-- `setNested` sets one path and leaves the others.
use kg.Base.{
  List, [], ◌∷◌, ◌++◌, Option, none, some, ok, Text, ◌==◌, ◌≡◌, ◌≢◌, ◌⊎◌, inl, inr, refl, arith,
  Bool-cases, ==→≡, ap, ◌∙◌,
}
use kg.Platform.Fallible.{>>=-eq-ok}
use kg.Yaml.{Value, Fields, null, text, scalar, list, mapping, lookup, set, at_path, Diverges}
use kg.Yaml.Laws.{lookup-set}
use kg.Cloudinit.Kubeadm.{nested_mapping, set_nested}

-- What stands at a path in a value that may be missing.
abbrev within : List Text → Option Value → Option Value
within qs none = none
within qs (some w) = at_path qs w

at_path-cons :
    (q : Text) (qs : List Text) (fs : Fields)
    → at_path (q ∷ qs) (mapping fs) ≡ within qs (lookup q fs)
unfolding at_path
at_path-cons q qs fs = ground arith

-- What stands below a key, of the mapping that `setNested` goes into.
at_path-nested :
    (through : List Text) (o : Option Value) (q : Text) (qs : List Text) (inner : Fields)
    → nested_mapping through o ≡ ok inner
    → at_path (q ∷ qs) (mapping inner) ≡ within (q ∷ qs) o
unfolding at_path lookup
at_path-nested through none q qs inner h = ground arith
at_path-nested through (some null) q qs inner h = ground arith
at_path-nested through (some (mapping fs)) q qs inner h = ground arith
at_path-nested through (some (text s)) q qs inner h = cc
at_path-nested through (some (scalar s)) q qs inner h = cc
at_path-nested through (some (list vs)) q qs inner h = cc

-- The path that was set has the value.
pub at_path-set_nested :
    (through : List Text) (doc doc' : Fields) (value : Text) (k : Text) (ks : List Text)
    → set_nested through doc value (k ∷ ks) ≡ ok doc'
    → at_path (k ∷ ks) (mapping doc') ≡ some (text value)
unfolding set_nested at_path
at_path-set_nested through doc doc' value k [] h = ground (arith, lookup-set k k (text value) doc)
at_path-set_nested through doc doc' value k (j ∷ ks) h =
    let (inner, went, more) = >>=-eq-ok (nested_mapping (through ++ k ∷ []) (lookup k doc)) _ h in
    let (inner', set_inner, same) =
      >>=-eq-ok (set_nested (through ++ k ∷ []) inner value (j ∷ ks)) _ more in
    ground (
      arith,
      lookup-set k k (mapping inner') doc,
      at_path-set_nested (through ++ k ∷ []) inner inner' value j ks set_inner,
    )

below : {D : Type 0} (k q : Text) → ((k ≢ q) ⊎ D) → k ≡ q → D
below k q (inl other) same = absurd (other same)
below k q (inr d) same = d

-- Every path that diverges from it says what it said.
pub set_nested-Diverges :
    (through : List Text) (doc doc' : Fields) (value : Text) (ps qs : List Text)
    → set_nested through doc value ps ≡ ok doc'
    → Diverges ps qs
    → at_path qs (mapping doc') ≡ at_path qs (mapping doc)
unfolding set_nested at_path
set_nested-Diverges through doc doc' value [] qs h d = absurd d
set_nested-Diverges through doc doc' value (k ∷ ks) [] h d = absurd d
set_nested-Diverges through doc doc' value (k ∷ []) (q ∷ qs) h (inl other) =
    ground (arith, lookup-set k q (text value) doc)
set_nested-Diverges through doc doc' value (k ∷ []) (q ∷ qs) h (inr d) = absurd d
set_nested-Diverges through doc doc' value (k ∷ j ∷ ks) (q ∷ []) h d =
    let (inner, went, more) = >>=-eq-ok (nested_mapping (through ++ k ∷ []) (lookup k doc)) _ h in
    let (inner', set_inner, same) =
      >>=-eq-ok (set_nested (through ++ k ∷ []) inner value (j ∷ ks)) _ more in
    elim d [
      | inl other ↦ ground (arith, lookup-set k q (mapping inner') doc)
      | inr deeper ↦ absurd deeper
    ]
set_nested-Diverges through doc doc' value (k ∷ j ∷ ks) (q ∷ r ∷ rs) h d =
    let (inner, went, more) = >>=-eq-ok (nested_mapping (through ++ k ∷ []) (lookup k doc)) _ h in
    let (inner', set_inner, same) =
      >>=-eq-ok (set_nested (through ++ k ∷ []) inner value (j ∷ ks)) _ more in
    let whole : set k (mapping inner') doc ≡ doc' = ground arith in
    rw (← whole, at_path-cons q (r ∷ rs), lookup-set k q (mapping inner') doc)
      (elim (Bool-cases (k == q)) [
        | inr other ↦ rw other refl
        | inl equal ↦ rw equal (
            set_nested-Diverges (through ++ k ∷ []) inner inner' value (j ∷ ks) (r ∷ rs) set_inner
              (below k q d (==→≡ k q equal))
            ∙ at_path-nested (through ++ k ∷ []) (lookup k doc) r rs inner went
            ∙ ap (λ x. within (r ∷ rs) (lookup x doc)) (==→≡ k q equal))
      ])
