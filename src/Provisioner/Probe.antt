-- ===== src/Provisioner/Probe.antt =====
-- internal/provisioner/probe.go: the facts that a host reports of itself.
use kg.Base.{List, [], ◌∷◌, Option, none, some, Text, codes, ◌==◌, if◌then◌else◌}
use kg.Base.Int.{ℤ, pos, parse_int, quotient}
use kg.Base.Strings.{split, cut, trim_space}
use kg.Api.Maps.{Labels, get, put}
use kg.Platform.{Io, ◌>>=◌, pure, with_context}
use kg.Platform.Remote.{Remote}
use kg.Provisioner.Scripts.{probe_script}

pub record SystemInfo : Type 0 where
  pub hostname : Text
  pub os_image : Text
  pub kernel_version : Text
  pub architecture : Text
  pub cpu_cores : ℤ
  pub memory_mb : ℤ
  pub container_runtime : Text
  pub kubeadm_version : Text

-- `normalizeArch`
unfoldable pub normalize_arch : Text → Text
normalize_arch uname =
    if uname == codes "x86_64"
    then codes "amd64"
    else if uname == codes "aarch64"
    then codes "arm64"
    else if uname == codes "arm64"
    then codes "arm64"
    else uname

abbrev add_field : Option (Text × Text) → Labels → Labels
add_field none fields = fields
add_field (some (key, value)) fields = put key (trim_space value) fields

-- The loop over the lines of the output: a later line for a key replaces an earlier one.
unfoldable pub read_fields : List Text → Labels → Labels
read_fields [] fields = fields
read_fields (line ∷ lines) fields =
    read_fields lines (add_field (cut (trim_space line) b'=') fields)

abbrev or_zero : Option ℤ → ℤ
or_zero none = pos 0
or_zero (some n) = n

abbrev megabytes : Option ℤ → ℤ
megabytes none = pos 0
megabytes (some kb) = quotient kb 1024

-- What `Probe` makes of the standard output of its script.
unfoldable pub parse_probe : Text → SystemInfo
unfolding read_fields normalize_arch
parse_probe stdout =
    let fields = read_fields (split stdout b'\n') [] in
    record {
      hostname = get (codes "hostname") fields;
      os_image = get (codes "os") fields;
      kernel_version = get (codes "kernel") fields;
      architecture = normalize_arch (get (codes "arch") fields);
      cpu_cores = or_zero (parse_int 32 (get (codes "cpu") fields));
      memory_mb = megabytes (parse_int 64 (get (codes "memkb") fields));
      container_runtime = get (codes "runtime") fields;
      kubeadm_version = get (codes "kubeadm") fields;
    }

module _ {W K : Type 0} (remote : Remote W K) where
  -- `Probe`
  unfoldable pub probe : K → Io W SystemInfo
  unfolding parse_probe
  probe c = do
    res ← with_context (codes "probe host: ") (remote.run c probe_script)
    pure (parse_probe res.stdout)
