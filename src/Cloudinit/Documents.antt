-- ===== src/Cloudinit/Documents.antt =====
-- internal/cloudinit/kubeadm.go: the documents of a file, and the patch of all files.
pub mod Patched
pub mod Refused
use kg.Base.{
  ℕ, zero, suc, Bool, true, false, not, ◌||◌, ◌&&◌, List, [], ◌∷◌, ◌++◌, Option, none, some, Result,
  ok, err, Text, codes, eqb, ◌==◌, if◌then◌else◌,
}
use kg.Base.Strings.{has_prefix, trim_space, is_space, cut}
use kg.Platform.{Error, new_error}
use kg.Platform.Fallible.{Fallible, ◌>>=◌, pure, fail, with_context}
use kg.Platform.Codec.{Codec}
use kg.Yaml.{Fields, no_fields, field, lookup, as_text}
use kg.Cloudinit.Kubeadm.{Patch, group_prefix, patch_document}

-- One entry of write_files.
pub record File : Type 0 where
  pub path : Text
  pub encoding : Text
  pub owner : Text
  pub permissions : Text
  pub append : Bool
  pub content : Text

-- `resolvedFile`: an entry with its decoded content.
pub record ResolvedFile : Type 0 where
  pub entry : File
  pub content : Text

-- `bytes.TrimLeft(doc, " \t\n\r")`
unfoldable pub trim_blanks : Text → Text
trim_blanks [] = []
trim_blanks (c ∷ s) =
    if eqb c b' ' || eqb c b'\t' || eqb c b'\n' || eqb c b'\r' then trim_blanks s else c ∷ s

-- The text behind the first three bytes.
abbrev after_dashes : Text → Text
after_dashes (a ∷ b ∷ c ∷ s) = s
after_dashes s = []

-- What may follow a separator on its line: nothing, or a comment.
abbrev pub is_comment : Text → Bool
is_comment [] = true
is_comment (c ∷ s) = eqb c b'#'

abbrev strip_line : Text → Text → Option (Text × Text) → Text
strip_line doc after none = if trim_space after == [] then [] else doc
strip_line doc after (some (line, rest)) = if is_comment (trim_space line) then rest else doc

-- `stripLeadingSeparator`
unfoldable pub strip_leading_separator : Text → Text
unfolding trim_blanks
strip_leading_separator doc =
    let trimmed = trim_blanks doc in
    let after = after_dashes trimmed in
    if has_prefix trimmed (codes "---") then strip_line doc after (cut after b'\n') else doc

-- The loop of `splitYAML` over the documents that are read.
unfoldable pub strip_documents : List Text → List Text
unfolding strip_leading_separator
strip_documents [] = []
strip_documents (d ∷ ds) =
    let doc = strip_leading_separator d in
    let rest = strip_documents ds in if trim_space doc == [] then rest else doc ∷ rest

-- `joinYAML`
unfoldable pub join_yaml : List Text → Text
join_yaml [] = []
join_yaml (d ∷ ds) =
    let trimmed = trim_space d in
    let rest = join_yaml ds in
    if trimmed == [] then rest else codes "---\n" ++ trimmed ++ codes "\n" ++ rest

-- A document of the kubeadm group that configures the kubelet of this machine.
unfoldable pub is_kubeadm_config : Text → Text → Bool
is_kubeadm_config api_version kind =
    has_prefix api_version group_prefix
    && (kind == codes "InitConfiguration" || kind == codes "JoinConfiguration")

abbrev pub api_version_of : Fields → Text
api_version_of doc = as_text (lookup (codes "apiVersion") doc)

abbrev pub kind_of : Fields → Text
kind_of doc = as_text (lookup (codes "kind") doc)

abbrev is_no_document : Fields → Bool
is_no_document no_fields = true
is_no_document (field k v fs) = false

module _ {C : Type 0} (codec : Codec C) where
  -- `splitYAML`
  unfoldable pub split_yaml : Text → Fallible (List Text)
  unfolding strip_documents
  split_yaml content = do documents ← codec.read_documents content; pure (strip_documents documents)

module _ {C : Type 0} (codec : Codec C) (patch : Patch) where
  abbrev re_encode : Text → Fields → Fallible (Text × Bool)
  re_encode kind doc = do
    out ← with_context (codes "re-encode " ++ kind ++ codes ": ") (codec.marshal doc)
    pure (out, true)

  abbrev pub patch_parsed : Text → Fields → Fallible (Text × Bool)
  patch_parsed raw doc =
      if is_no_document doc || not (is_kubeadm_config (api_version_of doc) (kind_of doc))
      then pure (raw, false)
      else do
        doc' ← patch_document codec patch (api_version_of doc) (kind_of doc) doc
        re_encode (kind_of doc) doc'

  -- One round of the loop of `patchKubeadmConfig`: the document, and whether it was patched.
  unfoldable pub patch_one : Text → Result Error Fields → Fallible (Text × Bool)
  unfolding is_kubeadm_config
  patch_one raw (err e) = pure (raw, false)
  patch_one raw (ok doc) = patch_parsed raw doc

  -- The loop of `patchKubeadmConfig`: the documents, and whether one was patched.
  unfoldable pub patch_all : List Text → Fallible (List Text × Bool)
  unfolding patch_one
  patch_all [] = pure ([], false)
  patch_all (raw ∷ raws) = do
    (doc, changed) ← patch_one raw (codec.unmarshal raw)
    (docs, more) ← patch_all raws
    pure (doc ∷ docs, changed || more)

  abbrev joined : Text → List Text × Bool → Text × Bool
  joined content (docs, true) = (join_yaml docs, true)
  joined content (docs, false) = (content, false)

  abbrev pub patch_split : Text → Result Error (List Text) → Fallible (Text × Bool)
  patch_split content (err e) = pure (content, false)
  patch_split content (ok documents) = do
    patched ← patch_all documents
    pure (joined content patched)

  -- `patchKubeadmConfig`
  unfoldable pub patch_config : Text → Fallible (Text × Bool)
  unfolding split_yaml patch_all join_yaml
  patch_config content = patch_split content (split_yaml codec content)

  -- A patched file is plain text, however it arrived.
  abbrev pub patched_file : ResolvedFile → Text × Bool → ResolvedFile
  patched_file f (content, true) = record {
    entry = record f.entry { encoding = [] };
    content = content;
  }
  patched_file f (content, false) = f

  abbrev pub count : Bool → ℕ → ℕ
  count true n = suc n
  count false n = n

  -- The loop of `patchKubeadmConfigs`: the files, and how many were patched.
  unfoldable pub patch_files : List ResolvedFile → Fallible (List ResolvedFile × ℕ)
  unfolding patch_config
  patch_files [] = pure ([], zero)
  patch_files (f ∷ fs) = do
    r ← with_context (codes "write_files " ++ f.entry.path ++ codes ": ") (patch_config f.content)
    (files, patched) ← patch_files fs
    pure (patched_file f r ∷ files, count r.1 patched)

  abbrev pub refuse_none : List ResolvedFile × ℕ → Fallible (List ResolvedFile)
  refuse_none (files, zero) = fail (
      new_error (
        codes "bootstrap data contains no kubeadm InitConfiguration or "
        ++ codes "JoinConfiguration, so the kubelet provider ID cannot be set and Cluster API "
        ++ codes "would not be able to match this machine to its Node"))
  refuse_none (files, suc n) = pure files

  -- `patchKubeadmConfigs`
  unfoldable pub patch_configs : List ResolvedFile → Fallible (List ResolvedFile)
  unfolding patch_files
  patch_configs files = do r ← patch_files files; refuse_none r
