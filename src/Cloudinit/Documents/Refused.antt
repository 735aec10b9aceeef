-- ===== src/Cloudinit/Documents/Refused.antt =====
-- A patch is never left out in silence.
use kg.Base.{
  ℕ, zero, suc, Bool, true, false, ◌||◌, List, [], ◌∷◌, Result, ok, err, Text, ◌≡◌, ◌⊎◌, inl, inr,
  refl, arith, Bool-cases, Any, codes, ◌++◌,
}
use kg.Platform.{Error}
use kg.Platform.Fallible.{>>=-eq-ok, with_context, with_context-ok}
use kg.Platform.Codec.{Codec}
use kg.Yaml.{Fields}
use kg.Cloudinit.Kubeadm.{Patch}
use kg.Cloudinit.Documents.{
  ResolvedFile, api_version_of, kind_of, is_kubeadm_config, patch_parsed, patch_one, patch_all,
  split_yaml, patch_split, patch_config, patched_file, patch_files, count, patch_configs,
  refuse_none,
}

either_of : {A B : Type 0} (p q : Bool) → (p || q) ≡ true → (p ≡ true → A) → (q ≡ true → B) → A ⊎ B
either_of true q h f g = inl (f refl)
either_of false q h f g = inr (g h)

module _ {C : Type 0} (codec : Codec C) where
  -- A text that is a kubeadm InitConfiguration or JoinConfiguration.
  abbrev pub IsConfig : Text → Type 0
  IsConfig raw =
      (doc : Fields) × (codec.unmarshal raw ≡ ok doc)
      × (is_kubeadm_config (api_version_of doc) (kind_of doc) ≡ true)

  -- A file with such a document.
  abbrev pub HasConfig : ResolvedFile → Type 0
  HasConfig f = (raws : List Text) × (split_yaml codec f.content ≡ ok raws) × Any IsConfig raws

  module _ (patch : Patch) where
    patch_parsed-true :
        (raw out : Text) (doc : Fields)
        → patch_parsed codec patch raw doc ≡ ok (out, true)
        → is_kubeadm_config (api_version_of doc) (kind_of doc) ≡ true
    patch_parsed-true raw out doc h =
        elim (Bool-cases (is_kubeadm_config (api_version_of doc) (kind_of doc))) [
          | inl yes_it_is ↦ yes_it_is
          | inr it_is_not ↦ ground arith
        ]

    patch_one-IsConfig :
        (raw out : Text) (r : Result Error Fields)
        → codec.unmarshal raw ≡ r
        → patch_one codec patch raw r ≡ ok (out, true)
        → IsConfig raw
    unfolding patch_one
    patch_one-IsConfig raw out (err e) at h = cc
    patch_one-IsConfig raw out (ok doc) at h = (doc, at, patch_parsed-true raw out doc h)

    patch_all-IsConfig :
        (raws docs : List Text) → patch_all codec patch raws ≡ ok (docs, true) → Any IsConfig raws
    unfolding patch_all
    patch_all-IsConfig [] docs h = cc
    patch_all-IsConfig (raw ∷ raws) docs h =
        let ((doc, changed), one, more) =
          >>=-eq-ok (patch_one codec patch raw (codec.unmarshal raw)) _ h in
        let ((docs', changed'), rest, same) = >>=-eq-ok (patch_all codec patch raws) _ more in
        either_of changed changed' (ground arith)
          (λ patched. patch_one-IsConfig raw doc (codec.unmarshal raw) refl (rw (← patched) one))
          (λ patched. patch_all-IsConfig raws docs' (rw (← patched) rest))

    patch_config-HasConfig :
        (f : ResolvedFile) (out : Text) (r : Result Error (List Text))
        → split_yaml codec f.content ≡ r
        → patch_split codec patch f.content r ≡ ok (out, true)
        → HasConfig f
    patch_config-HasConfig f out (err e) at h = cc
    patch_config-HasConfig f out (ok raws) at h =
        let ((docs, changed), all, same) = >>=-eq-ok (patch_all codec patch raws) _ h in
        (raws, at, patch_all-IsConfig raws docs (ground (arith, Bool-cases changed)))

    patch_files-step :
        (f : ResolvedFile) (fs out : List ResolvedFile) (k : ℕ)
        → patch_files codec patch (f ∷ fs) ≡ ok (out, k)
        → (r : Text × Bool) × (later : List ResolvedFile × ℕ) × (patch_config codec patch f.content
            ≡ ok r)
          × (patch_files codec patch fs ≡ ok later)
          × (out ≡ patched_file codec patch f r ∷ later.0)
          × (k ≡ count codec patch r.1 later.1)
    unfolding patch_files
    patch_files-step f fs out k h =
        let prefix = codes "write_files " ++ f.entry.path ++ codes ": " in
        let (r, one, more) =
          >>=-eq-ok (with_context prefix (patch_config codec patch f.content)) _ h in
        let (later, rest, same) = >>=-eq-ok (patch_files codec patch fs) _ more in
        (r, later, with_context-ok prefix (patch_config codec patch f.content) one, rest, cc, cc)

    this_or_later :
        (f : ResolvedFile) (fs later : List ResolvedFile) (content : Text) (changed : Bool)
        (m n : ℕ)
        → suc n ≡ count codec patch changed m
        → patch_config codec patch f.content ≡ ok (content, changed)
        → patch_files codec patch fs ≡ ok (later, m)
        → HasConfig f ⊎ (patch_files codec patch fs ≡ ok (later, suc n))
    unfolding patch_config
    this_or_later f fs later content true m n counted one rest =
        inl (patch_config-HasConfig f content (split_yaml codec f.content) refl one)
    this_or_later f fs later content false m n counted one rest = inr (rw counted rest)

    patch_files-HasConfig :
        (files out : List ResolvedFile) (n : ℕ)
        → patch_files codec patch files ≡ ok (out, suc n)
        → Any HasConfig files
    unfolding patch_files patch_config
    patch_files-HasConfig [] out n h = cc
    patch_files-HasConfig (f ∷ fs) out n h =
        let ((content, changed), (out', m), one, rest, same, counted) =
          patch_files-step f fs out (suc n) h in
        elim (this_or_later f fs out' content changed m n counted one rest) [
          | inl has ↦ inl has
          | inr rest' ↦ inr (patch_files-HasConfig fs out' n rest')
        ]

    refused :
        (files files' out : List ResolvedFile) (n : ℕ)
        → patch_files codec patch files ≡ ok (files', n)
        → refuse_none codec patch (files', n) ≡ ok out
        → Any HasConfig files
    refused files files' out zero all h = cc
    refused files files' out (suc n) all h = patch_files-HasConfig files files' n all

    -- Where the patch of the files of a cloud-config succeeds, one of them has a kubeadm
    -- InitConfiguration or JoinConfiguration: without one it is an error.
    pub patch_configs-HasConfig :
        (files out : List ResolvedFile)
        → patch_configs codec patch files ≡ ok out
        → Any HasConfig files
    unfolding patch_configs
    patch_configs-HasConfig files out h =
        let ((files', n), all, checked) = >>=-eq-ok (patch_files codec patch files) _ h in
        refused files files' out n all checked
