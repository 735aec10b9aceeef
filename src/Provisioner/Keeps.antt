-- ===== src/Provisioner/Keeps.antt =====
-- The host that the calls of `Start` find, and what they leave alone there.
use kg.Base.{
  List, [], ◌∷◌, ◌++◌, ◌≡◌, ◌⊎◌, inl, inr, refl, arith, Result, ok, err, Text, codes, All, subst,
  ◌∙◌,
}
use kg.Base.Strings.{trim_space}
use kg.Platform.{Error, Io, ◌>>=◌, ◌>>◌, pure, attempt, with_context, bind_result, wrap_result}
use kg.Platform.Remote.{Remote, Output}
use kg.Provisioner.{
  script_path, runner_path, checksum_path, exit_code_path, id_command, which_command, clear_command,
  preflight, missing_commands, probe_result, refuse_missing, refuse_user, required_commands,
}

-- What a call moves, step by step: a relation of worlds that is reflexive and transitive.
module _ {W : Type 0} (Moves : W → W → Type 0) (stay : (w : W) → Moves w w)
    (follow : (w u v : W) → Moves w u → Moves u v → Moves w v) where
  abbrev pub Steps : {A : Type 0} → Io W A → Type 0
  Steps m = (w : W) → Moves w (m w).1

  bind_result-Steps :
      {A B : Type 0} (w : W) (m : Result Error A × W) (f : A → Io W B)
      → Moves w m.1
      → ((a : A) → Steps (f a))
      → Moves w (bind_result m f).1
  bind_result-Steps w (ok a, u) f h k = follow w u (f a u).1 h (k a u)
  bind_result-Steps w (err e, u) f h k = h

  pub >>=-Steps :
      {A B : Type 0} (m : Io W A) (f : A → Io W B)
      → Steps m
      → ((a : A) → Steps (f a))
      → Steps (m >>= f)
  >>=-Steps m f h k w = bind_result-Steps w (m w) f (h w) k

  wrap_result-Steps :
      {A : Type 0} (prefix : Text) (w : W) (m : Result Error A × W)
      → Moves w m.1
      → Moves w (wrap_result prefix m).1
  wrap_result-Steps prefix w (ok a, u) h = h
  wrap_result-Steps prefix w (err e, u) h = h

  pub with_context-Steps :
      {A : Type 0} (prefix : Text) (m : Io W A) → Steps m → Steps (with_context prefix m)
  with_context-Steps prefix m h w = wrap_result-Steps prefix w (m w) (h w)

-- One of the two scripts that `Start` writes.
abbrev pub IsScript : Text → Type 0
IsScript p = (p ≡ script_path) ⊎ (p ≡ runner_path)

module _ {W K : Type 0} (file : W → K → Text → Text) (Alone : W → K → Type 0) where
  -- While no run is going on, a move of the world starts none and leaves the two files as they are.
  abbrev pub Kept : K → W → W → Type 0
  Kept c w u =
      Alone w c
      → Alone u c
        × (file u c checksum_path ≡ file w c checksum_path)
        × (file u c exit_code_path ≡ file w c exit_code_path)

  -- What the remote shell does with the two files on a host where `Alone`, no detached run is going
  -- on: such a run may write its exit code at any time. A call that fails may have had its effect or
  -- not. Of the command that launches a run nothing is said.
  pub record Commands (remote : Remote W K) : Type 0 where
    -- the commands of `preflight` look only
    pub id_keeps : (c : K) (w : W) → Kept c w (remote.run c id_command w).1
    pub which_keeps :
        (c : K)
        → All (λ cmd. (w : W) → Kept c w (remote.run c (which_command cmd) w).1) required_commands
    pub clear_alone : (c : K) (w : W) → Alone w c → Alone (remote.run c clear_command w).1 c
    pub clear_ok :
        (c : K) (w v : W) (out : Output)
        → Alone w c
        → remote.run c clear_command w ≡ (ok out, v)
        → (file v c exit_code_path ≡ []) × (file v c checksum_path ≡ [])
    pub clear_failed :
        (c : K) (w v : W) (e : Error)
        → Alone w c
        → remote.run c clear_command w ≡ (err e, v)
        → (file v c checksum_path ≡ []) ⊎ (file v c checksum_path ≡ file w c checksum_path)
    pub script_keeps :
        (c : K) (p content mode : Text) (w : W)
        → IsScript p
        → Kept c w (remote.write_file c p content mode w).1
    pub checksum_keeps :
        (c : K) (content mode : Text) (w : W)
        → Alone w c
        → Alone (remote.write_file c checksum_path content mode w).1 c
          × (file (remote.write_file c checksum_path content mode w).1 c exit_code_path
              ≡ file w c exit_code_path)
    pub checksum_ok :
        (c : K) (content mode : Text) (w v : W)
        → Alone w c
        → remote.write_file c checksum_path content mode w ≡ (ok tt, v)
        → file v c checksum_path ≡ trim_space content

  pub Kept-refl : (c : K) (w : W) → Kept c w w
  Kept-refl c w alone = (alone, refl, refl)

  pub Kept-trans : (c : K) (w u v : W) → Kept c w u → Kept c u v → Kept c w v
  Kept-trans c w u v first second alone =
      let (alone', sum, code) = first alone in
      let (alone'', sum', code') = second alone' in (alone'', sum' ∙ sum, code' ∙ code)

  Kept-same : (c : K) (w u : W) → w ≡ u → Kept c w u
  Kept-same c w u same = subst (λ v. Kept c w v) same (Kept-refl c w)

  module _ (remote : Remote W K) (commands : Commands remote) (c : K) where
    abbrev pub Keeps : {A : Type 0} → Io W A → Type 0
    Keeps m = Steps (Kept c) (Kept-refl c) (Kept-trans c) m

    Keeps-then :
        {A B : Type 0} (m : Io W A) (f : A → Io W B)
        → Keeps m
        → ((a : A) → Keeps (f a))
        → Keeps (m >>= f)
    Keeps-then m f h k = >>=-Steps (Kept c) (Kept-refl c) (Kept-trans c) m f h k

    probe_result-Keeps : (cmd : Text) (r : Result Error Output) → Keeps (probe_result remote cmd r)
    probe_result-Keeps cmd (ok res) w = Kept-refl c w
    probe_result-Keeps cmd (err e) w = Kept-same c w _ (ground arith)

    abbrev then_others : List Text → List Text → Io W (List Text)
    then_others cmds here = do later ← missing_commands remote c cmds; pure (here ++ later)

    abbrev then_result : Text → List Text → Result Error Output → Io W (List Text)
    then_result cmd cmds r = probe_result remote cmd r >>= then_others cmds

    missing_commands-Keeps :
        (cmds : List Text)
        → All (λ cmd. (w : W) → Kept c w (remote.run c (which_command cmd) w).1) cmds
        → Keeps (missing_commands remote c cmds)
    unfolding missing_commands
    missing_commands-Keeps [] h = Kept-refl c
    missing_commands-Keeps (cmd ∷ cmds) (h, hs) =
        Keeps-then (attempt (remote.run c (which_command cmd))) (then_result cmd cmds) h (λ r.
          Keeps-then (probe_result remote cmd r) (then_others cmds) (probe_result-Keeps cmd r)
            (λ here.
              Keeps-then (missing_commands remote c cmds) (λ later. pure (here ++ later))
                (missing_commands-Keeps cmds hs) (λ later. Kept-refl c)))

    refuse_missing-Keeps : (cmds : List Text) → Keeps (refuse_missing remote cmds)
    refuse_missing-Keeps [] = Kept-refl c
    refuse_missing-Keeps (cmd ∷ cmds) = Kept-refl c

    refuse_user-Keeps : (uid : Text) → Keeps (refuse_user remote uid)
    refuse_user-Keeps uid w = Kept-same c w _ (ground arith)

    pub preflight-Keeps : Keeps (preflight remote c)
    unfolding preflight
    preflight-Keeps =
        let prefix = codes "check privileges: " in
        Keeps-then (with_context prefix (remote.run c id_command)) _
          (with_context-Steps (Kept c) (Kept-refl c) (Kept-trans c) prefix (remote.run c id_command)
            (commands.id_keeps c))
          (λ res.
            Keeps-then (refuse_user remote (trim_space res.stdout)) _
              (refuse_user-Keeps (trim_space res.stdout))
              (λ _.
                Keeps-then (missing_commands remote c required_commands) _
                  (missing_commands-Keeps required_commands (commands.which_keeps c))
                  refuse_missing-Keeps))

    -- The two writes of `upload` behind the one that clears.
    pub writes-Keeps :
        (script text : Text)
        → Keeps (λ w.
          (remote.write_file c script_path script (codes "0700")
              >> remote.write_file c runner_path text (codes "0700"))
            w)
    writes-Keeps script text =
        Keeps-then (remote.write_file c script_path script (codes "0700"))
          (λ _. remote.write_file c runner_path text (codes "0700"))
          (λ u. commands.script_keeps c script_path script (codes "0700") u (inl refl))
          (λ _ u. commands.script_keeps c runner_path text (codes "0700") u (inr refl))
