-- ===== src/Platform/Codec.antt =====
-- The libraries that internal/cloudinit calls: YAML, base64, gzip, and the printing of a Go value.
use kg.Base.{Result, Text, List}
use kg.Platform.{Error}
use kg.Yaml.{Value, Fields}

-- `C` is the type that a whole document is read into.
pub record Codec (C : Type 0) : Type 0 where
  -- `yaml.Unmarshal` into a map, and into `C`
  pub unmarshal : Text → Result Error Fields
  pub unmarshal_config : Text → Result Error C
  -- `yaml.Marshal`
  pub marshal : Fields → Result Error Text
  -- `Read` of a `utilyaml.YAMLReader` until the end of the stream
  pub read_documents : Text → Result Error (List Text)
  -- `base64.StdEncoding`
  pub encode64 : Text → Text
  pub decode64 : Text → Result Error Text
  -- `gzip.NewReader` and `io.ReadAll`
  pub gunzip : Text → Result Error Text
  -- `%v` and `%T`
  pub print_value : Value → Text
  pub print_type : Value → Text
