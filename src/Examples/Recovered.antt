-- ===== src/Examples/Recovered.antt =====
-- The theorems on the detached run at a concrete machine.
use kg.Base.{
  ℕ, ap, Bool, true, false, [], ◌∷◌, none, Result, ok, err, Text, Text-discrete, codes, ◌≡◌, ◌≢◌,
  refl, ne_of_==, inl, inr, arith, sym, List, All,
}
use kg.Base.Strings.{trim_space, go_quote}
use kg.Base.Int.{atoi}
use kg.Api.Maps.{get, put, remove, get-put, get-remove}
use kg.Platform.{Error, new_error}
use kg.Provisioner.{
  succeeded, checksum_path, exit_code_path, read_command, clear_command, launch_command, id_command,
  which_command, status, start, state_of, read_file, required_commands,
}
use kg.Provisioner.Recovery.{Shell, classify, status-classify}
use kg.Provisioner.Keeps.{Commands, IsScript, Kept}
use kg.Provisioner.Start.{start-IsClean, IsClean}
use kg.Examples.World.{World, machine, file, cleared, printed, execute}

abbrev second : Text → ℕ
second [] = 0
second (c ∷ []) = 0
second (c ∷ d ∷ s) = d

-- Two commands with different second bytes.
abbrev apart_by : {a b : Text} → second a ≢ second b → a ≢ b
apart_by n e = n (ap second e)

All-All : {P : Text → Type 0} → ((t : Text) → P t) → (ts : List Text) → All P ts
All-All h [] = tt
All-All h (t ∷ ts) = (h t, All-All h ts)

read_apart : (p : Text) → read_command p ≢ clear_command
unfolding read_command clear_command
read_apart p = apart_by (λ e. omega arith)

which_apart : (cmd : Text) → which_command cmd ≢ clear_command
unfolding which_command clear_command
which_apart cmd = apart_by (λ e. omega arith)

id_apart : id_command ≢ clear_command
unfolding id_command clear_command
id_apart = apart_by (λ e. omega arith)

launch_apart : launch_command ≢ clear_command
unfolding launch_command clear_command
launch_apart = apart_by (λ e. omega arith)

launch_reads : (p : Text) → launch_command ≢ read_command p
unfolding read_command launch_command
launch_reads p = apart_by (λ e. omega arith)

launch_id : launch_command ≢ id_command
unfolding id_command launch_command
launch_id = apart_by (λ e. omega arith)

reads_apart : read_command exit_code_path ≢ read_command checksum_path
unfolding read_command Text-discrete go_quote
reads_apart = ne_of_== _ _ refl

paths_apart : exit_code_path ≢ checksum_path
unfolding Text-discrete
paths_apart = ne_of_== _ _ refl

execute-keeps :
    (detaches : Bool) (cmd q : Text) (w : World)
    → cmd ≢ clear_command
    → file (execute detaches cmd w).1 tt q ≡ file w tt q
execute-keeps detaches cmd q w n = ground arith

execute-checksum :
    (detaches : Bool) (w : World)
    → execute detaches (read_command checksum_path) w
      ≡ (ok (printed (get checksum_path w.files)), w)
execute-checksum detaches w = ground (arith, read_apart checksum_path)

execute-exit_code :
    (detaches : Bool) (w : World)
    → execute detaches (read_command exit_code_path) w
      ≡ (ok (printed (get exit_code_path w.files)), w)
execute-exit_code detaches w = ground (arith, read_apart exit_code_path, reads_apart)

execute-clear :
    (detaches : Bool) (w : World) → execute detaches clear_command w ≡ (ok (printed []), cleared w)
execute-clear detaches w = ground arith

execute-launch :
    (w : World) → execute false launch_command w ≡ (err (new_error (codes "connection lost")), w)
execute-launch w =
    ground (arith, launch_apart, launch_reads checksum_path, launch_reads exit_code_path, launch_id)

cleared-file :
    (w : World)
    → (file (cleared w) tt exit_code_path ≡ []) × (file (cleared w) tt checksum_path ≡ [])
unfolding trim_space
cleared-file w = (
  rw (get-remove checksum_path exit_code_path (remove exit_code_path w.files))
      (rw (get-remove exit_code_path exit_code_path w.files) (ground arith)),
  rw (get-remove checksum_path checksum_path (remove exit_code_path w.files)) (ground arith),
)

pub machine-Shell : (detaches : Bool) → Shell (machine detaches) file
machine-Shell detaches = record {
  read_ok = λ c p w v out is h. elim is [
    | inl e ↦ ground (arith, execute-checksum detaches w)
    | inr e ↦ ground (arith, execute-exit_code detaches w)
  ];
  read_keeps = λ c p q w is is'. execute-keeps detaches (read_command p) q w (read_apart p);
}

-- No run goes on: this machine loses the command that launches one, or forgets it.
abbrev Quiet : World → Unit {0} → Type 0
Quiet w c = Unit

looks-Kept :
    (detaches : Bool) (cmd : Text) (w : World)
    → cmd ≢ clear_command
    → Kept file Quiet tt w (execute detaches cmd w).1
looks-Kept detaches cmd w n alone = (
  tt,
  execute-keeps detaches cmd checksum_path w n,
  execute-keeps detaches cmd exit_code_path w n,
)

put-keeps :
    (p content q : Text) (w : World)
    → p ≢ q
    → file (record w { files = put p content w.files }) tt q ≡ file w tt q
put-keeps p content q w n = ground (arith, get-put p q content w.files)

scripts_apart : (p : Text) → IsScript p → (p ≢ checksum_path) × (p ≢ exit_code_path)
unfolding Text-discrete
scripts_apart p (inl e) = rw e (ne_of_== _ _ refl, ne_of_== _ _ refl)
scripts_apart p (inr e) = rw e (ne_of_== _ _ refl, ne_of_== _ _ refl)

which-Kept :
    (detaches : Bool) (cmd : Text) (w : World)
    → Kept file Quiet tt w (execute detaches (which_command cmd) w).1
which-Kept detaches cmd w = looks-Kept detaches (which_command cmd) w (which_apart cmd)

machine-Commands : (detaches : Bool) → Commands file Quiet (machine detaches)
machine-Commands detaches = record {
  id_keeps = λ c w. looks-Kept detaches id_command w id_apart;
  which_keeps = λ c. All-All (which-Kept detaches) required_commands;
  clear_alone = λ c w alone. tt;
  clear_ok = λ c w v out alone h. ground (arith, execute-clear detaches w, cleared-file w);
  clear_failed = λ c w v e alone h. absurd (ground (arith, execute-clear detaches w));
  script_keeps = λ c p content mode w is alone.
      let (not_sum, not_code) = scripts_apart p is in
      (
        tt,
        put-keeps p content checksum_path w not_sum,
        put-keeps p content exit_code_path w not_code,
      );
  checksum_keeps = λ c content mode w alone.
      (tt, put-keeps checksum_path content exit_code_path w (λ e. paths_apart (sym e)));
  checksum_ok = λ c content mode w v alone h.
      ground (arith, get-put checksum_path checksum_path content w.files);
}

abbrev sum : Text
sum = codes "c0ffee"

abbrev script : Text
script = codes "#!/bin/bash\n"

abbrev machine_with : Text → Text → World
machine_with recorded code = record {
  host = none;
  machine = none;
  files = (checksum_path, recorded) ∷ (exit_code_path, code) ∷ [];
}

-- A machine on which the script has ended with 0, and one with the outcome of an older script.
abbrev finished : World
finished = machine_with sum (codes "0\n")

abbrev outdated : World
outdated = machine_with (codes "dead") (codes "1")

finished_status : status (machine true) tt sum finished ≡ (ok (state_of succeeded sum), finished)
unfolding status Text-discrete trim_space read_file read_command clear_command atoi go_quote get
finished_status = refl

status-classify_example :
    succeeded ≡ classify (file finished tt checksum_path) (file finished tt exit_code_path) sum
status-classify_example =
    status-classify (machine true) (machine-Shell true) tt sum finished finished
      (state_of succeeded sum) finished_status

sum_trimmed : trim_space sum ≡ sum
unfolding trim_space
sum_trimmed = refl

outdated-checksum : file outdated tt checksum_path ≢ sum
unfolding trim_space Text-discrete get
outdated-checksum = ne_of_== _ _ refl

named : sum ≢ []
named e = cc

unfoldable started : Bool → Result Error (Unit {0}) × World
started detaches = start (machine detaches) tt script sum outdated

started_at : start (machine true) tt script sum outdated ≡ ((started true).0, (started true).1)
unfolding started
started_at = refl

start-IsClean_example :
    IsClean
      (machine true)
      file
      Quiet
      (machine-Commands true)
      tt
      sum
      (started true).0
      (started true).1
start-IsClean_example =
    start-IsClean (machine true) file Quiet (machine-Commands true) tt sum named script outdated
      (started true).1 (started true).0 sum_trimmed tt outdated-checksum started_at
