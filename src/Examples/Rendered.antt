-- ===== src/Examples/Rendered.antt =====
-- The rendering of a cloud-config with one kubeadm document, at concrete inputs.
use kg.Base.{
  true, false, List, [], ◌∷◌, ◌++◌, some, Result, ok, err, Text, Text-discrete, codes, ◌==◌, ◌≡◌,
  refl, arith, if◌then◌else◌, ne_of_==, Any,
}
use kg.Base.Strings.{contains_byte, trim_space, has_prefix, to_lower}
use kg.Platform.{Error, new_error}
use kg.Platform.Codec.{Codec}
use kg.Yaml.{
  Value, Items, Fields, text, mapping, list, no_items, item, no_fields, field, lookup, set, at_path,
}
use kg.Cloudinit.Kubeadm.{is_empty, patch_document, join_path}
use kg.Cloudinit.Kubeadm.Flags.{IsOnce, kubelet_flag}
use kg.Cloudinit.Kubeadm.Pinned.{assigned}
use kg.Cloudinit.Documents.{File, ResolvedFile, patch_configs}
use kg.Cloudinit.Documents.Patched.{
  patch_document-kubelet_flag, patch_document-lookup, patch_document-address, address_path,
}
use kg.Cloudinit.Documents.Refused.{HasConfig}
use kg.Cloudinit.Script.{
  CloudConfig, Options, is_supported, resolve_files, patch_of, render, render_command, wrap_encoded,
  width,
}
use kg.Cloudinit.Script.Lines.{fits, unwrapped, wrap_encoded-fits}
use kg.Cloudinit.Script.Words.{argv, read_words, read_words-render_command}
use kg.Cloudinit.Script.Accepted.{render-supported, render-HasConfig}

-- A join of a control plane, with one flag in the form of a list.
abbrev flags : Items → Value
flags args = mapping (field (codes "kubeletExtraArgs") (list args) no_fields)

abbrev flag : Text → Text → Value
flag name value =
    mapping (field (codes "name") (text name) (field (codes "value") (text value) no_fields))

abbrev endpoint : Text → Value
endpoint address = mapping (field (codes "advertiseAddress") (text address) no_fields)

abbrev join_document : Items → Fields → Fields
join_document args control_plane =
    field (codes "apiVersion") (text (codes "kubeadm.k8s.io/v1beta4")) (
      field (codes "kind") (text (codes "JoinConfiguration")) (
        field (codes "nodeRegistration") (flags args)
          (field (codes "controlPlane") (mapping control_plane) no_fields)))

abbrev before : Fields
before = join_document (item (flag (codes "v") (codes "2")) no_items) no_fields

abbrev after : Fields
after =
    join_document
      (item (flag (codes "v") (codes "2")) (
        item (flag (codes "provider-id") (codes "kg://a"))
          (item (flag (codes "node-ip") (codes "10.0.0.5")) no_items)))
      (field (codes "localAPIEndpoint") (endpoint (codes "10.0.0.5")) no_fields)

abbrev opts : Options
opts = record { provider_id = codes "kg://a"; host_address = codes "10.0.0.5" }

abbrev join_file : File
join_file = record {
  path = codes "/run/kubeadm.yaml";
  encoding = [];
  owner = codes "root";
  permissions = codes "0640";
  append = false;
  content = codes "join";
}

abbrev config : CloudConfig
config = record {
  write_files = join_file ∷ [];
  boot_cmd = [];
  run_cmd = text (codes "kubeadm join") ∷ [];
}

abbrev top : Fields
top = field (codes "runcmd") (list (item (text (codes "kubeadm join")) no_items)) no_fields

-- Texts are read and written as the examples need it; base64 is left out.
abbrev read : Text → Result Error Fields
read s =
    if s == codes "join"
    then ok before
    else if s == codes "data"
    then ok top
    else err (new_error (codes "no document"))

abbrev pub codec : Codec CloudConfig
codec = record {
  unmarshal = read;
  unmarshal_config = λ s. ok config;
  marshal = λ fs. ok (codes "patched");
  read_documents = λ s. ok (s ∷ []);
  encode64 = λ s. s;
  decode64 = λ s. ok s;
  gunzip = λ s. ok s;
  print_value = λ v. codes "value";
  print_type = λ v. codes "type";
}

abbrev join_kind : Text
join_kind = codes "JoinConfiguration"

abbrev join_version : Text
join_version = codes "kubeadm.k8s.io/v1beta4"

patched : patch_document codec (patch_of opts) join_version join_kind before ≡ ok after
unfolding patch_document patch_of lookup Text-discrete set
patched = refl

once : IsOnce (codes "node-ip") before
unfolding IsOnce lookup Text-discrete
once = omega arith

patch_document-kubelet_flag_example :
    kubelet_flag (codes "node-ip") after
    ≡ assigned
        (codes "node-ip")
        (patch_of opts).kubelet_args
        (kubelet_flag (codes "node-ip") before)
patch_document-kubelet_flag_example =
    patch_document-kubelet_flag codec (patch_of opts) join_version join_kind before after
      (codes "node-ip") patched once

patch_document-lookup_example : lookup (codes "kind") after ≡ lookup (codes "kind") before
unfolding Text-discrete
patch_document-lookup_example =
    patch_document-lookup codec (patch_of opts) join_version join_kind before after (codes "kind")
      patched (ne_of_== _ _ refl) (ne_of_== _ _ refl) (ne_of_== _ _ refl)

patch_document-address_example :
    at_path join_path (mapping after) ≡ some (text (patch_of opts).advertise_address)
unfolding patch_of Text-discrete address_path lookup
patch_document-address_example =
    patch_document-address codec (patch_of opts) join_version join_kind before after join_path
      patched (ne_of_== _ _ refl) refl

wrap_encoded-fits_example :
    (fits width width (wrap_encoded (codes "a2c=")) ≡ true)
    × (unwrapped (wrap_encoded (codes "a2c=")) ≡ codes "a2c=")
unfolding contains_byte
wrap_encoded-fits_example = wrap_encoded-fits (codes "a2c=") refl

read_words-render_command_example :
    (line : Text) × (render_command codec (list (argv (codes "echo" ∷ codes "it's" ∷ [])))
      ≡ ok line)
    × (read_words 2 (line ++ codes "\n}") ≡ some (codes "echo" ∷ codes "it's" ∷ []))
read_words-render_command_example =
    read_words-render_command codec (codes "echo") (codes "it's" ∷ []) (codes "}")

rendered : (script : Text) × (render codec (codes "data") opts ≡ ok script)
unfolding render Text-discrete to_lower trim_space is_empty patch_configs has_prefix lookup
    patch_document set
rendered = (_, refl)

render-supported_example : is_supported (codes "runcmd") ≡ true
unfolding lookup Text-discrete
render-supported_example =
    render-supported codec (codes "data") rendered.0 opts top (codes "runcmd")
      (list (item (text (codes "kubeadm join")) no_items)) rendered.1 refl refl

render-HasConfig_example :
    (cfg : CloudConfig) × (files : List ResolvedFile) × (codec.unmarshal_config (codes "data")
      ≡ ok cfg)
    × (resolve_files codec cfg.write_files ≡ ok files)
    × Any (HasConfig codec) files
unfolding is_empty patch_of
render-HasConfig_example = render-HasConfig codec (codes "data") rendered.0 opts rendered.1 refl
