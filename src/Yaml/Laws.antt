-- ===== src/Yaml/Laws.antt =====
-- A field that is set is read back, and the others stay.
use kg.Base.{some, Text, ◌==◌, ◌≡◌, arith, if◌then◌else◌}
use kg.Yaml.{Value, Fields, no_fields, field, lookup, set}

pub lookup-set :
    (k j : Text) (v : Value) (fs : Fields)
    → lookup j (set k v fs) ≡ (if k == j then some v else lookup j fs)
unfolding lookup set
lookup-set k j v no_fields = ground arith
lookup-set k j v (field i w fs) = ground (arith, lookup-set k j v fs)

-- Setting a field twice is setting it once.
pub set-set : (k : Text) (v w : Value) (fs : Fields) → set k v (set k w fs) ≡ set k v fs
unfolding set
set-set k v w no_fields = ground arith
set-set k v w (field i u fs) = ground (arith, set-set k v w fs)
