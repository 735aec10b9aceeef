-- ===== src/Cloudinit/Script.antt =====
-- internal/cloudinit/cloudinit.go: the script that does what a cloud-config says.
pub mod Lines
pub mod Words
pub mod Accepted
use kg.Base.{
  ℕ, zero, suc, Bool, true, false, not, ◌||◌, ◌&&◌, List, [], ◌∷◌, ◌++◌, Option, none, some, Result,
  ok, err, Text, codes, ◌==◌, leb, take, drop, length, if◌then◌else◌,
}
use kg.Base.Strings.{trim_space, join, go_quote, to_lower}
use kg.Compare.{sort_texts}
use kg.Platform.{Error, new_error}
use kg.Platform.Fallible.{Fallible, ◌>>=◌, pure, fail, with_context}
use kg.Platform.Codec.{Codec}
use kg.Shell.{shell_quote, dir_of}
use kg.Yaml.{
  Value, Items, Fields, null, text, scalar, list, mapping, no_items, item, no_fields, field,
}
use kg.Cloudinit.Kubeadm.{KubeletArg, Patch, is_empty}
use kg.Cloudinit.Documents.{File, ResolvedFile, patch_configs}

-- `cloudConfig`
pub record CloudConfig : Type 0 where
  pub write_files : List File
  pub boot_cmd : List Value
  pub run_cmd : List Value

pub record Options : Type 0 where
  pub provider_id : Text
  pub host_address : Text

-- `supported`
abbrev pub is_supported : Text → Bool
is_supported k = k == codes "write_files" || k == codes "bootcmd" || k == codes "runcmd"

unfoldable pub unknown_keys : Fields → List Text
unknown_keys no_fields = []
unknown_keys (field k v fs) =
    let rest = unknown_keys fs in if is_supported k then rest else k ∷ rest

abbrev pub refuse_unknown : List Text → Fallible (Unit {0})
refuse_unknown [] = pure tt
refuse_unknown (k ∷ ks) = fail (
    new_error (
      codes "cloud-config uses directives kg does not implement: "
      ++ join (sort_texts (k ∷ ks)) (codes ", ")
      ++ codes ". Express the same setup through preKubeadmCommands, postKubeadmCommands or files "
      ++ codes "in the KubeadmConfigSpec"))

abbrev pub heredoc_delimiter : Text
heredoc_delimiter = codes "KGENESIS_B64_EOF"

abbrev pub width : ℕ
width = 76

-- The loop of `wrapBase64`; each round but the last takes 76 bytes off the text.
unfoldable pub wrap_lines : ℕ → Text → Text
wrap_lines zero encoded = encoded ++ codes "\n"
wrap_lines (suc fuel) encoded =
    let rest = wrap_lines fuel (drop width encoded) in
    if leb (length encoded) width
    then encoded ++ codes "\n"
    else take width encoded ++ codes "\n" ++ rest

-- `wrapBase64`, of the encoded text.
unfoldable pub wrap_encoded : Text → Text
unfolding wrap_lines
wrap_encoded encoded = wrap_lines (length encoded) encoded

-- `guardCommand`
unfoldable pub guard_command : Text → Text
guard_command line = codes "{\n" ++ line ++ codes "\n} || exit $?"

abbrev if_set : Text → Text → Text
if_set [] out = []
if_set (c ∷ s) out = out

abbrev args_if : Text → Text → List KubeletArg
args_if [] name = []
args_if (c ∷ s) name = record { name = name; value = c ∷ s } ∷ []

-- The flags and the address that `Render` pins.
unfoldable pub patch_of : Options → Patch
patch_of opts = record {
  kubelet_args =
      args_if opts.provider_id (codes "provider-id") ++ args_if opts.host_address (codes "node-ip");
  advertise_address = opts.host_address;
}

module _ (codec : Codec CloudConfig) where
  -- `checkUnsupported`
  unfoldable pub check_unsupported : Text → Fallible (Unit {0})
  unfolding unknown_keys
  check_unsupported user_data = do
    top ← with_context (codes "parse cloud-config: ") (codec.unmarshal user_data)
    refuse_unknown (unknown_keys top)

  abbrev decode_gzip : Text → Fallible Text
  decode_gzip content = do raw ← codec.decode64 (trim_space content); codec.gunzip raw

  -- `decodeContent`
  unfoldable pub decode_content : Text → Text → Fallible Text
  decode_content content encoding =
      let name = to_lower (trim_space encoding) in
      if name == [] || name == codes "text/plain"
      then pure content
      else if name == codes "b64" || name == codes "base64"
      then codec.decode64 (trim_space content)
      else if name == codes "gz" || name == codes "gzip"
      then codec.gunzip content
      else if name == codes "gz+b64"
          || name == codes "gzip+base64"
          || name == codes "gz+base64"
          || name == codes "gzip+b64"
      then decode_gzip content
      else fail (new_error (codes "unsupported encoding " ++ go_quote encoding))

  -- `resolveFiles`
  unfoldable pub resolve_files : List File → Fallible (List ResolvedFile)
  unfolding decode_content
  resolve_files [] = pure []
  resolve_files (f ∷ fs) =
      if f.path == [] then fail (new_error (codes "write_files entry has no path")) else do
        content ←
            with_context (codes "write_files " ++ f.path ++ codes ": ")
              (decode_content f.content f.encoding)
        rest ← resolve_files fs
        pure (record { entry = f; content = content } ∷ rest)

  -- `renderFile`
  unfoldable pub render_file : ResolvedFile → Text
  unfolding wrap_encoded
  render_file f =
      let path = shell_quote f.entry.path in
      codes "install -d -m 0755 "
      ++ shell_quote (dir_of f.entry.path)
      ++ codes "\nbase64 -d <<'"
      ++ heredoc_delimiter
      ++ codes "' "
      ++ (if f.entry.append then codes ">>" else codes ">")
      ++ codes " "
      ++ path
      ++ codes "\n"
      ++ wrap_encoded (codec.encode64 f.content)
      ++ heredoc_delimiter
      ++ codes "\n"
      ++ if_set f.entry.owner
          (codes "chown " ++ shell_quote f.entry.owner ++ codes " " ++ path ++ codes "\n")
      ++ if_set f.entry.permissions
          (codes "chmod " ++ shell_quote f.entry.permissions ++ codes " " ++ path ++ codes "\n")

  abbrev quote_word : Value → Fallible Text
  quote_word (text s) = pure (shell_quote s)
  quote_word v =
      fail (new_error (codes "argv entry " ++ codec.print_value v ++ codes " is not a string"))

  -- The words of an argument vector, quoted.
  unfoldable pub quote_words : Items → Fallible (List Text)
  quote_words no_items = pure []
  quote_words (item v vs) = do word ← quote_word v; words ← quote_words vs; pure (word ∷ words)

  -- `renderCommand`
  unfoldable pub render_command : Value → Fallible Text
  unfolding quote_words
  render_command (text s) = pure s
  render_command (list vs) = do words ← quote_words vs; pure (join words (codes " "))
  render_command v =
      fail (
        new_error
          (codes "entry " ++ codec.print_value v ++ codes " is neither a string nor a list"))

  -- The loop over the commands of a section.
  unfoldable pub render_commands : List Value → Fallible Text
  unfolding render_command guard_command
  render_commands [] = pure []
  render_commands (v ∷ vs) = do
    line ← render_command v
    rest ← render_commands vs
    pure (guard_command line ++ codes "\n" ++ rest)

  abbrev pub render_section : Text → List Value → Fallible Text
  render_section name [] = pure []
  render_section name (v ∷ vs) = do
    body ← with_context (name ++ codes ": ") (render_commands (v ∷ vs))
    pure (codes "### " ++ name ++ codes "\n" ++ body ++ codes "\n")

  unfoldable pub render_files : List ResolvedFile → Text
  unfolding render_file
  render_files [] = []
  render_files (f ∷ fs) = render_file f ++ render_files fs

  abbrev pub files_section : List ResolvedFile → Text
  files_section [] = []
  files_section (f ∷ fs) = codes "### write_files\n" ++ render_files (f ∷ fs) ++ codes "\n"

  -- The files, patched if there is anything to pin.
  abbrev pub pinned_files : Patch → List ResolvedFile → Fallible (List ResolvedFile)
  pinned_files patch files = if is_empty patch then pure files else patch_configs codec patch files

  -- `Render`, once the cloud-config is read.
  unfoldable pub render_config : CloudConfig → Options → Fallible Text
  unfolding resolve_files render_commands render_files patch_of
  render_config cfg opts = do
    resolved ← resolve_files cfg.write_files
    files ← pinned_files (patch_of opts) resolved
    boot ← render_section (codes "bootcmd") cfg.boot_cmd
    run ← render_section (codes "runcmd") cfg.run_cmd
    pure (
        codes "#!/usr/bin/env bash\n"
        ++ codes "# Generated by kg from Cluster API bootstrap data. Do not edit.\n"
        ++ codes "set -euo pipefail\n\n"
        ++ files_section files
        ++ boot
        ++ run)

  -- `Render`
  unfoldable pub render : Text → Options → Fallible Text
  unfolding check_unsupported render_config
  render user_data opts = do
    checked ← check_unsupported user_data
    cfg ← with_context (codes "parse cloud-config: ") (codec.unmarshal_config user_data)
    render_config cfg opts
