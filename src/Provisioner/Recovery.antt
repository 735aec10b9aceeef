-- ===== src/Provisioner/Recovery.antt =====
-- The outcome of a run on disk, as `Status` reads it.
use kg.Base.{
  Bool, false, [], Option, none, some, ◌≡◌, ◌⊎◌, inl, inr, arith, refl, ok, Text, ◌==◌, ◌||◌, not,
  if◌then◌else◌, Result-cases,
}
use kg.Base.Int.{ℤ, atoi}
use kg.Base.Strings.{trim_space}
use kg.Platform.{>>=-eq-ok}
use kg.Platform.Remote.{Remote, Output}
use kg.Provisioner.{
  Phase, State, idle, running, succeeded, failed, checksum_path, exit_code_path, read_command,
  read_file, recorded_status, status, tail_log, is_zero_ℤ, exit_status, failed_status,
}

-- The two files that `Status` reads.
abbrev pub IsOutcome : Text → Type 0
IsOutcome p = (p ≡ checksum_path) ⊎ (p ≡ exit_code_path)

-- What the remote shell does with the two files that `Status` reads, while it reads them; `file w c p`
-- is the trimmed content of the file `p`, and nothing where there is none.
pub record Shell {W K : Type 0} (remote : Remote W K) (file : W → K → Text → Text) : Type 0 where
  pub read_ok :
      (c : K) (p : Text) (w v : W) (out : Output)
      → IsOutcome p
      → remote.run c (read_command p) w ≡ (ok out, v)
      → trim_space out.stdout ≡ file w c p
  pub read_keeps :
      (c : K) (p q : Text) (w : W)
      → IsOutcome p
      → IsOutcome q
      → file (remote.run c (read_command p) w).1 c q ≡ file w c q

abbrev is_success : Option ℤ → Bool
is_success none = false
is_success (some code) = is_zero_ℤ code

abbrev outcome_of : Text → Option ℤ → Phase
outcome_of code parsed =
    if code == [] then running else if is_success parsed then succeeded else failed

-- What the exit code file says of a run that was started.
unfoldable pub outcome : Text → Phase
outcome code = outcome_of code (atoi code)

-- What the two files say of the run for the checksum `desired`: the meaning of `Status`.
unfoldable pub classify : Text → Text → Text → Phase
classify recorded code desired =
    if recorded == [] || not (recorded == desired) then idle else outcome code

module _ {W K : Type 0} (remote : Remote W K) {file : W → K → Text → Text}
    (shell : Shell remote file) where
  read_file_ok :
      (c : K) (p : Text) (w v : W) (text : Text)
      → IsOutcome p
      → read_file remote c p w ≡ (ok text, v)
      → (text ≡ file w c p) × ((q : Text) → IsOutcome q → file v c q ≡ file w c q)
  unfolding read_file
  read_file_ok c p w v text is h = elim (Result-cases (remote.run c (read_command p) w).0) [
    | inl (out, e) ↦
        let moved : v ≡ (remote.run c (read_command p) w).1 = ground arith in
        (
          ground (arith, shell.read_ok c p w v out is (ground arith)),
          λ q is'. rw moved (shell.read_keeps c p q w is is'),
        )
    | inr (x, e) ↦ ground arith
  ]

  failed_status-phase :
      (c : K) (recorded : Text) (code : ℤ) (w v : W) (s : State)
      → failed_status remote c recorded code w ≡ (ok s, v)
      → s.phase ≡ failed
  unfolding failed_status
  failed_status-phase c recorded code w v s h =
      let (tail, u, _, rest) = >>=-eq-ok (tail_log remote c) _ w h in ground arith

  exit_status-phase :
      (c : K) (recorded text : Text) (code : Option ℤ) (w v : W) (s : State)
      → exit_status remote c recorded text code w ≡ (ok s, v)
      → s.phase ≡ (if is_success code then succeeded else failed)
  unfolding exit_status
  exit_status-phase c recorded text none w v s h = ground arith
  exit_status-phase c recorded text (some code) w v s h =
      ground (arith, failed_status-phase c recorded code w v s)

  recorded_status-phase :
      (c : K) (recorded : Text) (w v : W) (s : State)
      → recorded_status remote c recorded w ≡ (ok s, v)
      → s.phase ≡ outcome (file w c exit_code_path)
  unfolding recorded_status outcome
  recorded_status-phase c recorded w v s h =
      let (text, u, read, rest) = >>=-eq-ok (read_file remote c exit_code_path) _ w h in
      let (same, _) = read_file_ok c exit_code_path w u text (inr refl) read in
      rw (← same) (ground (arith, exit_status-phase c recorded text (atoi text) u v s))

  -- Where `Status` returns a state, its phase is what the two files say of the desired checksum.
  pub status-classify :
      (c : K) (desired : Text) (w v : W) (s : State)
      → status remote c desired w ≡ (ok s, v)
      → s.phase ≡ classify (file w c checksum_path) (file w c exit_code_path) desired
  unfolding status classify
  status-classify c desired w v s h =
      let (recorded, u, read, rest) = >>=-eq-ok (read_file remote c checksum_path) _ w h in
      let (same, keeps) = read_file_ok c checksum_path w u recorded (inl refl) read in
      rw (← same, ← keeps exit_code_path (inr refl))
        (ground (arith, recorded_status-phase c recorded u v s))
