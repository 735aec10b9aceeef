-- ===== src/Controller.antt =====
-- internal/controller: the reconcilers of hosts, host machines and host clusters.
-- A reconciler works on one object in memory and writes it back when it returns, so it yields the
-- object beside its result; the result is the number of seconds after which to look again.
pub mod Connection
pub mod Host
pub mod Claim
pub mod Bootstrap
pub mod Release
pub mod Machine
pub mod Cluster
use kg.Base.{
  ℕ, Bool, List, Text, codes, ◌++◌, ◌-◌, leb, length, take, if◌then◌else◌, Result, ok, err,
}
use kg.Api.{Condition}
use kg.Platform.{Error, Io, pure}
use kg.Platform.Library.{Library}

abbrev pub Outcome : Type 0 → Type 0
Outcome O = O × Result Error ℕ

abbrev pub done : {W O : Type 0} → O → ℕ → Io W (Outcome O)
done object seconds = pure (object, ok seconds)

abbrev pub failed : {W O : Type 0} → O → Error → Io W (Outcome O)
failed object e = pure (object, err e)

abbrev pub condition_message_limit : ℕ
condition_message_limit = 512

-- `truncate`
unfoldable pub truncate : Text → ℕ → Text
truncate s limit = if leb (length s) limit then s else take (limit - 3) s ++ codes "..."

-- `setCondition`
unfoldable pub set_condition :
    Library → List Condition → Text → Bool → Text → Text → ℕ → List Condition
set_condition lib conditions kind status reason message generation =
    lib.set_status_condition conditions (record {
      kind = kind;
      status = status;
      reason = reason;
      message = message;
      observed_generation = generation;
    })
