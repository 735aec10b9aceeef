-- ===== src/Provisioner/Start.antt =====
-- `Start` and an interruption at any of its calls.
use kg.Base.{
  [], ◌++◌, ◌≡◌, ◌≢◌, ◌⊎◌, inl, inr, refl, arith, Result, ok, err, Text, codes, ap, sym, subst, ◌∙◌,
}
use kg.Base.Strings.{trim_space}
use kg.Platform.{Error, ◌>>◌, >>=-cases, with_context, with_context-ok, with_context-err}
use kg.Platform.Remote.{Remote}
use kg.Provisioner.{
  Phase, idle, running, checksum_path, exit_code_path, clear_command, upload, launch, runner, start,
  preflight, state_dir,
}
use kg.Provisioner.Recovery.{classify, outcome}
use kg.Provisioner.Keeps.{Commands, preflight-Keeps, writes-Keeps}

module _ {W K : Type 0} (remote : Remote W K) (file : W → K → Text → Text) (Alone : W → K → Type 0)
    (commands : Commands file Alone remote) where
  abbrev prefix : Text
  prefix = codes "prepare " ++ state_dir ++ codes ": "

  module _ (c : K) (sum : Text) where
    abbrev pub phase_at : W → Phase
    phase_at w = classify (file w c checksum_path) (file w c exit_code_path) sum

    -- An error before anything is launched, with the host idle or running for the checksum; or a
    -- launch as the last call, on a host that reads as running while no run is going on.
    abbrev pub IsClean : Result Error (Unit {0}) → W → Type 0
    IsClean r v =
        ((e : Error) × (r ≡ err e) × ((phase_at v ≡ idle) ⊎ (phase_at v ≡ running)))
        ⊎ ((z : W) × Alone z c × (phase_at z ≡ running) × (launch remote c z ≡ (r, v)))

  module _ (c : K) (sum : Text) (named : sum ≢ []) where
    cleared-checksum :
        (w v : W) (e : Error)
        → Alone w c
        → remote.run c clear_command w ≡ (err e, v)
        → file w c checksum_path ≢ sum
        → file v c checksum_path ≢ sum
    cleared-checksum w v e alone h old = elim (commands.clear_failed c w v e alone h) [
      | inl gone ↦ λ same. named (sym same ∙ gone)
      | inr kept ↦ λ same. old (sym kept ∙ same)
    ]

    -- Whatever becomes of `upload`, it does not leave the new checksum behind; where it succeeds, it
    -- leaves no exit code, and still no run.
    upload-clears :
        (script : Text) (w v : W) (r : Result Error (Unit {0}))
        → Alone w c
        → upload remote c script sum w ≡ (r, v)
        → file w c checksum_path ≢ sum
        → (file v c checksum_path ≢ sum) × (r ≡ ok tt → Alone v c × (file v c exit_code_path ≡ []))
    unfolding upload
    upload-clears script w v r alone h old =
        elim (>>=-cases (with_context prefix (remote.run c clear_command)) _ w h) [
          | inl (e, stopped, same) ↦
              let (d, cleared) = with_context-err prefix (remote.run c clear_command) w stopped in
              (cleared-checksum w v d alone cleared old, λ won. absurd (ground arith))
          | inr (res, u, done, rest) ↦
              let cleared = with_context-ok prefix (remote.run c clear_command) w done in
              let (no_code, no_sum) = commands.clear_ok c w u res alone cleared in
              let alone' : Alone u c =
                subst (λ p. Alone p.1 c) cleared (commands.clear_alone c w alone) in
              let (alone'', sum_kept, code_kept) =
                writes-Keeps file Alone remote commands c script (runner sum) u alone' in
              let moved = ap (λ p. p.1) rest in
              (
                λ same.
                    named
                      (sym same ∙ ap (λ x. file x c checksum_path) (sym moved) ∙ sum_kept ∙ no_sum),
                λ won. (
                  subst (λ x. Alone x c) moved alone'',
                  ap (λ x. file x c exit_code_path) (sym moved) ∙ code_kept ∙ no_code,
                ),
              )
        ]

    classify_other : (recorded code : Text) → recorded ≢ sum → classify recorded code sum ≡ idle
    unfolding classify
    classify_other recorded code h = ground arith

    classify_no_code :
        (recorded : Text) → (classify recorded [] sum ≡ idle) ⊎ (classify recorded [] sum ≡ running)
    unfolding classify outcome
    classify_no_code recorded = ground arith

    classify_same : classify sum [] sum ≡ running
    unfolding classify outcome
    classify_same = ground arith

    record-IsClean :
        (w v : W) (r : Result Error (Unit {0}))
        → trim_space sum ≡ sum
        → Alone w c
        → file w c exit_code_path ≡ []
        → (do remote.write_file c checksum_path sum (codes "0600"); launch remote c) w ≡ (r, v)
        → IsClean c sum r v
    record-IsClean w v r trim alone code h =
        let (alone', code_kept) = commands.checksum_keeps c sum (codes "0600") w alone in
        elim (>>=-cases (remote.write_file c checksum_path sum (codes "0600"))
          (λ _. launch remote c) w h) [
            | inl (e, stopped, same) ↦
                let moved = ap (λ p. p.1) stopped in
                let no_code = sym (ap (λ x. file x c exit_code_path) moved) ∙ code_kept ∙ code in
                inl (e, same, rw no_code (classify_no_code (file v c checksum_path)))
            | inr (t, u, wrote, rest) ↦
                let moved = ap (λ p. p.1) wrote in
                let no_code = sym (ap (λ x. file x c exit_code_path) moved) ∙ code_kept ∙ code in
                let recorded = commands.checksum_ok c sum (codes "0600") w u alone wrote ∙ trim in
                inr (
                  u,
                  subst (λ x. Alone x c) moved alone',
                  rw (no_code, recorded) classify_same,
                  rest,
                )
          ]

    -- For a checksum that is not empty and has no blanks around it, on a host with another checksum or
    -- none on which no earlier run is still going on: whichever of its calls fails, `Start` leaves no
    -- outcome to misread. Either it returns an error before it launches anything, and the host is
    -- idle or running for the checksum; or its last call is the launch, on a host that reads as
    -- running for the checksum while no run is going on, so that an exit code is read there
    -- later only if it is written later.
    pub start-IsClean :
        (script : Text) (w v : W) (r : Result Error (Unit {0}))
        → trim_space sum ≡ sum
        → Alone w c
        → file w c checksum_path ≢ sum
        → start remote c script sum w ≡ (r, v)
        → IsClean c sum r v
    unfolding start
    start-IsClean script w v r trim alone old h =
        let (alone', sum_kept, _) = preflight-Keeps file Alone remote commands c w alone in
        elim (>>=-cases (preflight remote c) _ w h) [
          | inl (e, stopped, same) ↦
              let moved = ap (λ p. p.1) stopped in
              inl (
                e,
                same,
                inl (
                    classify_other _ _
                      (λ k. old (sym sum_kept ∙ ap (λ x. file x c checksum_path) moved ∙ k))),
              )
          | inr (t, u, passed, rest) ↦
              let moved = ap (λ p. p.1) passed in
              let still = λ (k : file u c checksum_path ≡ sum).
                old (sym sum_kept ∙ ap (λ x. file x c checksum_path) moved ∙ k) in
              let here = subst (λ x. Alone x c) moved alone' in
              elim (>>=-cases (upload remote c script sum) _ u rest) [
                | inl (e, stopped, same) ↦
                    let (other, _) = upload-clears script u v (err e) here stopped still in
                    inl (e, same, inl (classify_other _ _ other))
                | inr (t', x, uploaded, rest') ↦
                    let (_, clean) = upload-clears script u x (ok t') here uploaded still in
                    let (alone'', code) = clean refl in record-IsClean x v r trim alone'' code rest'
              ]
        ]
