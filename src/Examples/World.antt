-- ===== src/Examples/World.antt =====
-- The server and the remote machine of the examples.
use kg.Base.{
  ℕ, suc, Bool, true, false, ◌&&◌, not, List, [], ◌∷◌, Option, none, some, Result, ok, err, Text,
  codes, ◌==◌, eqb, if◌then◌else◌,
}
use kg.Base.Strings.{trim_space}
use kg.Api.{Labels, Host, HostMachine, Condition}
use kg.Api.Maps.{get, put, remove}
use kg.Platform.{Error, not_found, conflict, new_error, Io, pure, fail}
use kg.Platform.Client.{Client}
use kg.Platform.Library.{Library}
use kg.Platform.Remote.{Remote, Output}
use kg.Provisioner.{
  read_command, clear_command, launch_command, id_command, checksum_path, exit_code_path,
}

-- `host` is the one host that the server holds, under any name; `files` is what the machine holds.
pub record World : Type 0 where
  pub host : Option Host
  pub machine : Option HostMachine
  pub files : Labels

abbrev pub missing : Error
missing = record { kind = not_found; message = codes "not found" }

abbrev pub stale : Error
stale = record { kind = conflict; message = codes "the object has been modified" }

abbrev pub held_host : Option Host → Result Error Host
held_host none = err missing
held_host (some h) = ok h

abbrev pub all_hosts : Option Host → List Host
all_hosts none = []
all_hosts (some h) = h ∷ []

abbrev pub held_machine : Option HostMachine → Result Error HostMachine
held_machine none = err missing
held_machine (some m) = ok m

abbrev pub raised : Host → ℕ → Host
raised h version = record h { meta = record h.meta { resource_version = suc version } }

-- An update of the host `old`: its status stays.
abbrev pub update : Option Host → Host → Io World Host
update none h w = (err missing, w)
update (some old) h w =
    if eqb h.meta.resource_version old.meta.resource_version
    then (let h' = record (raised h old.meta.resource_version) { status = old.status } in
        (ok h', record w { host = some h' }))
    else (err stale, w)

-- An update of the status of the host `old`: all else stays.
abbrev pub update_status : Option Host → Host → Io World Host
update_status none h w = (err missing, w)
update_status (some old) h w =
    if eqb h.meta.resource_version old.meta.resource_version
    then (let h' = record (raised old old.meta.resource_version) { status = h.status } in
        (ok h', record w { host = some h' }))
    else (err stale, w)

abbrev pub credentials : Labels
credentials = (codes "password", codes "secret") ∷ []

-- Its patches fail.
abbrev pub server : Client World
server = record {
  get_host = λ namespace name w. (held_host w.host, w);
  list_hosts = λ namespace w. (ok (all_hosts w.host), w);
  get_host_machine = λ namespace name w. (held_machine w.machine, w);
  get_host_cluster = λ namespace name. fail missing;
  get_secret = λ namespace name. pure credentials;
  list_machines = λ namespace name. pure [];
  update_host = λ h w. update w.host h w;
  update_host_status = λ h w. update_status w.host h w;
  new_helper = λ meta. pure tt;
  patch_host = λ before after. fail stale;
  patch_host_machine = λ before after. fail stale;
  patch_host_cluster = λ before after. fail stale;
  get_owner_machine = λ meta. pure none;
  get_cluster_from_metadata = λ meta. pure none;
  get_owner_cluster = λ meta. pure none;
  is_paused = λ cluster meta. false;
  now = λ w. 7;
}

abbrev pub contains : List Text → Text → Bool
contains [] f = false
contains (g ∷ gs) f = if g == f then true else contains gs f

abbrev pub without : List Text → Text → List Text
without [] f = []
without (g ∷ gs) f = if g == f then without gs f else g ∷ without gs f

abbrev pub find : List Condition → Text → Option Condition
find [] kind = none
find (c ∷ cs) kind = if c.kind == kind then some c else find cs kind

abbrev pub library : Library
library = record {
  set_status_condition = λ cs c. c ∷ cs;
  find_status_condition = find;
  contains_finalizer = contains;
  add_finalizer = λ fs f. f ∷ fs;
  remove_finalizer = without;
  compile_selector = λ selector. ok (λ labels. true);
  checksum = λ script. codes "c0ffee";
}

abbrev pub printed : Text → Output
printed text = record { stdout = text; stderr = []; exit_code = 0 }

abbrev pub cleared : World → World
cleared w = record w { files = remove checksum_path (remove exit_code_path w.files) }

-- The commands that the program sends, on a machine that detaches a run or does not.
abbrev pub execute : Bool → Text → Io World Output
execute detaches cmd w =
    if cmd == clear_command
    then (ok (printed []), cleared w)
    else if cmd == read_command checksum_path
    then (ok (printed (get checksum_path w.files)), w)
    else if cmd == read_command exit_code_path
    then (ok (printed (get exit_code_path w.files)), w)
    else if cmd == id_command
    then (ok (printed (codes "0")), w)
    else if cmd == launch_command && not detaches
    then (err (new_error (codes "connection lost")), w)
    else (ok (printed []), w)

abbrev pub host_key : Text
host_key = codes "ssh-ed25519 AAAA"

abbrev pub machine : Bool → Remote World (Unit {0})
machine detaches = record {
  dial = λ cfg. pure tt;
  host_key = λ conn. host_key;
  run = λ conn. execute detaches;
  write_file = λ conn path content mode w. (ok tt, record w { files = put path content w.files });
}

-- The content of a file of the machine.
abbrev pub file : World → Unit {0} → Text → Text
file w conn path = trim_space (get path w.files)
