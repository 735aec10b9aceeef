-- ===== src/Controller/Bootstrap/Report.antt =====
-- internal/controller/hostmachine_controller.go: what `reconcileNormal` and `runBootstrap` write into
-- a machine, and the checks of `bootstrapData`.
use kg.Base.{
  Bool, true, false, ◌||◌, List, [], ◌∷◌, ◌++◌, Option, none, some, Result, ok, err, Text, codes,
  ◌==◌, if◌then◌else◌,
}
use kg.Base.Strings.{go_quote, print_int}
use kg.Api.{
  Host, HostMachine, HostMachineStatus, HostPhase, HostSystemInfo, MachineAddress, internal_ip,
  host_name, provisioned,
}
use kg.Platform.{Error, new_error, Io}
use kg.Platform.Library.{Library}
use kg.Provisioner.{State, log_path}
use kg.Controller.{truncate, condition_message_limit, set_condition}

abbrev pub provisioned_condition : Text
provisioned_condition = codes "Provisioned"

abbrev pub host_claimed_condition : Text
host_claimed_condition = codes "HostClaimed"

abbrev pub with_status : HostMachine → HostMachineStatus → HostMachine
with_status machine status = record machine { status = status }

-- `ProviderID`
unfoldable pub provider_id : Host → Text
provider_id host = codes "kgenesis://" ++ host.meta.namespace ++ codes "/" ++ host.meta.name

abbrev pub host_name_address : Option HostSystemInfo → List MachineAddress
host_name_address none = []
host_name_address (some info) =
    if info.hostname == [] then [] else record { kind = host_name; address = info.hostname } ∷ []

-- `addressesFor`
unfoldable pub addresses_for : Host → List MachineAddress
addresses_for host =
    record { kind = internal_ip; address = host.spec.address }
    ∷ host_name_address host.status.system_info

abbrev pub is_provisioned : HostPhase → Bool
is_provisioned provisioned = true
is_provisioned _ = false

abbrev pub is_set : Option Bool → Bool
is_set none = false
is_set (some b) = b

abbrev pub bad_format : Option Text → Option Text
bad_format none = none
bad_format (some f) = if f == [] || f == codes "cloud-config" then none else some f

-- The checks of `bootstrapData` on the format and the value of the secret.
abbrev pub check_data : Text → Option Text → Option Text → Result Error Text
check_data key none format =
    err (new_error (codes "bootstrap secret " ++ key ++ codes " has no \"value\" key"))
check_data key (some data') none = ok data'
check_data key (some data') (some format) = err (
    new_error (
      codes "bootstrap secret "
      ++ key
      ++ codes " has format "
      ++ go_quote format
      ++ codes "; kg renders cloud-config"))

abbrev pub of_result : {W A : Type 0} → Result Error A → Io W A
of_result r w = (r, w)

-- The machine with the identity and the addresses of its host.
unfoldable pub identified : HostMachine → Host → HostMachine
unfolding provider_id addresses_for
identified machine host = record machine {
  spec = record machine.spec { provider_id = some (provider_id host) };
  status = record machine.status { addresses = addresses_for host };
}

module _ (lib : Library) where
  -- The machine with a condition.
  unfoldable pub report : HostMachine → Text → Bool → Text → Text → HostMachine
  report machine kind status reason message = with_status machine (record machine.status {
    conditions =
        set_condition lib machine.status.conditions kind status reason message
          machine.meta.generation;
  })

  unfoldable pub not_provisioned : HostMachine → Text → Text → HostMachine
  unfolding report
  not_provisioned machine reason message = report machine provisioned_condition false reason message

  unfoldable pub script_running : HostMachine → HostMachine
  unfolding not_provisioned
  script_running machine =
      not_provisioned machine (codes "WaitingForBootstrapData")
        (codes "Bootstrap script is running on the host")

  unfoldable pub started : HostMachine → Text → HostMachine
  unfolding script_running
  started machine sum =
      script_running (with_status machine (record machine.status { bootstrap_data_checksum = sum }))

  unfoldable pub script_failed : HostMachine → State → HostMachine
  unfolding not_provisioned
  script_failed machine state = not_provisioned machine (codes "BootstrapFailed") (
      truncate
        (codes "Bootstrap script exited "
          ++ print_int state.exit_code
          ++ codes ". Last lines of "
          ++ log_path
          ++ codes ":\n"
          ++ state.log_tail)
        condition_message_limit)

  unfoldable pub script_succeeded : HostMachine → Text → HostMachine
  unfolding report
  script_succeeded machine sum =
      report
        (with_status machine
          (record machine.status { bootstrap_data_checksum = sum; initialized = some true }))
        provisioned_condition true (codes "BootstrapSucceeded") (codes "Host is bootstrapped")

  unfoldable pub no_host : HostMachine → HostMachine
  unfolding report
  no_host machine =
      let message =
        codes "No Available host matches the selector; add hosts to the inventory, or check "
        ++ codes "`kg inventory list` for unreachable ones" in
      report (report machine host_claimed_condition false (codes "NoMatchingHost") message)
        provisioned_condition false (codes "NoMatchingHost") message

  unfoldable pub host_claimed : HostMachine → Host → HostMachine
  unfolding report
  host_claimed machine host =
      report machine host_claimed_condition true (codes "HostClaimed")
        (codes "Claimed host " ++ host.meta.name ++ codes " (" ++ host.spec.address ++ codes ")")
