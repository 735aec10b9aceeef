-- ===== src/Examples/Plain.antt =====
-- The theorems on names, words, keys and endpoints at concrete inputs.
use kg.Base.{
  ℕ, true, false, [], ◌∷◌, ◌++◌, none, some, Result, ok, err, Text, Text-discrete, codes, ◌≡◌, ◌≢◌,
  ◌↔◌, refl, arith, ne_of_==,
}
use kg.Compare.{Ordering}
use mathlib.Core.List.{Permᴰ}
use kg.Api.{HostCluster, strict}
use kg.Compare.{flip}
use kg.Inventory.{compare_names, sort_by_name, compare_chunk, is_digits, is_digit}
use kg.Inventory.Numbers.{number, compare_chunk-number}
use kg.Inventory.Order.{compare_names_linear}
use kg.Inventory.Sort.{sort_unique, HasDistinctNames}
use kg.Platform.{Error, pure}
use kg.Platform.Remote.{SshConfig}
use kg.Shell.{shell_quote}
use kg.Shell.Quoting.{read_word, read-shell_quote}
use kg.Base.Strings.{trim_space}
use kg.Ssh.{same_authorized_key, Transport, dial}
use kg.Ssh.Trust.{Trusts, ChecksKeys, dial-Trusts}
use kg.Controller.Cluster.{reconcile_cluster, reconcile_cluster-initialized}
use kg.Examples.World.{library}

abbrev rack_2 : Text
rack_2 = codes "rack-2"

abbrev rack_10 : Text
rack_10 = codes "rack-10"

abbrev rack_10b : Text
rack_10b = codes "rack-10b"

compare_names_linear_example :
    (compare_names rack_10 rack_2 ≡ flip (compare_names rack_2 rack_10))
    × (compare_names rack_2 rack_10 ≡ Ordering.lt
        → compare_names rack_10 rack_10b ≡ Ordering.lt
        → compare_names rack_2 rack_10b ≡ Ordering.lt)
    × ((compare_names rack_2 rack_10 ≡ Ordering.eq) ↔ (rack_2 ≡ rack_10))
compare_names_linear_example = compare_names_linear rack_2 rack_10 rack_10b

racks-HasDistinctNames : HasDistinctNames {A = Text} (λ x. x) (rack_10 ∷ rack_2 ∷ [])
unfolding Text-discrete
racks-HasDistinctNames = ((ne_of_== _ _ refl, tt), (tt, tt))

sort_unique_example :
    sort_by_name (λ x. x) (rack_10 ∷ rack_2 ∷ []) ≡ sort_by_name (λ x. x) (rack_2 ∷ rack_10 ∷ [])
sort_unique_example = sort_unique (λ x. x) (Permᴰ.swap refl refl) racks-HasDistinctNames

read-shell_quote_example :
    read_word (shell_quote (codes "it's") ++ codes " -x") ≡ some (codes "it's", codes " -x")
read-shell_quote_example = read-shell_quote (codes "it's") (codes "-x")

abbrev endpoint_cluster : HostCluster
endpoint_cluster = record {
  meta = record {
    name = codes "prod";
    namespace = codes "default";
    uid = codes "u";
    labels = [];
    finalizers = [];
    deleting = false;
    generation = 1;
    resource_version = 1;
  };
  endpoint = record { host = codes "10.0.0.1"; port = 6443 };
  initialized = none;
  conditions = [];
}

reconcile_cluster-initialized_example :
    ((reconcile_cluster library endpoint_cluster).initialized ≡ some true)
    ↔ ((codes "10.0.0.1" ≢ []) × (◌≢◌ {A = ℕ} 6443 0))
reconcile_cluster-initialized_example = reconcile_cluster-initialized library endpoint_cluster refl

-- A server that presents one key, and a handshake that asks the callback.
abbrev presented_key : Text
presented_key = codes "ssh-ed25519 AAAA"

abbrev opened : Result Error (Unit {0}) → Unit {0} → Result Error Text × Unit {0}
opened (ok _) w = (ok presented_key, w)
opened (err e) w = (err e, w)

abbrev transport : Transport (Unit {0}) (Unit {0}) Text Text
transport = record {
  dial_tcp = λ addr. pure tt;
  parse_private_key = λ key passphrase. ok key;
  new_client_conn = λ c user keys passwords callback. opened (callback presented_key);
  presented = λ s. presented_key;
  parse_authorized_key = λ key. some key;
  execute = λ s cmd input. pure (record { stdout = []; stderr = []; exit_code = 0 });
}

opened-ok :
    (r : Result Error (Unit {0})) (w w' : Unit {0}) (s : Text) → opened r w ≡ (ok s, w') → r ≡ ok tt
opened-ok (ok tt) w w' s h = refl
opened-ok (err e) w w' s h = cc

transport-ChecksKeys : ChecksKeys transport
transport-ChecksKeys c user keys passwords callback w w' s h =
    opened-ok (callback presented_key) w w' s h

abbrev strict_config : SshConfig
strict_config = record {
  address = codes "10.0.0.2";
  port = 22;
  user = codes "root";
  private_key = [];
  passphrase = [];
  password = codes "secret";
  policy = strict;
  known_public_key = presented_key;
}

dialled :
    dial transport strict_config tt
    ≡ (ok (record { session = presented_key; host_key = presented_key }), tt)
unfolding dial Text-discrete same_authorized_key trim_space
dialled = refl

dial-Trusts_example : Trusts transport strict strict_config presented_key
dial-Trusts_example =
    dial-Trusts transport transport-ChecksKeys strict_config tt tt
      (record { session = presented_key; host_key = presented_key }) dialled

compare_chunk-number_example : compare_chunk (codes "9") (codes "010") ≡ Ordering.lt
unfolding number is_digits is_digit
compare_chunk-number_example =
    compare_chunk-number (codes "9") (codes "010") refl refl (omega arith)
