-- ===== src/Controller/Host/Phases.antt =====
-- How a reconciliation moves the phase of a host.
use kg.Base.{
  ℕ, true, false, [], Option, none, some, Result, ok, err, Text, refl, ◌≡◌, ◌≢◌, ◌⊎◌, inl, inr,
  arith, Result-cases,
}
use kg.Api.{Host, ObjectReference, available, claimed_by_label}
use kg.Api.Maps.{get}
use kg.Platform.{is_not_found, Error, Io, ◌>>=◌, bind_result}
use kg.Controller.{Outcome}
use kg.Platform.Client.{Client}
use kg.Platform.Library.{Library}
use kg.Platform.Remote.{Remote}
use kg.Provisioner.Probe
use kg.Provisioner.Probe.{SystemInfo}
use kg.Controller.Connection.{connect, connect-IsPinned, pin}
use kg.Controller.Host.{
  after_get, patched, reconcile, delete_claimed, timed, reconcile_host, report, answering_phase,
  probe_interval_healthy, probe, reconcile_delete,
}

module _ {W K : Type 0} (lib : Library) (client : Client W) (remote : Remote W K) where
  -- The host answers a connection and then the probe script, which ends in the world `v`.
  abbrev pub Answers : Host → W → W → Type 0
  Answers host w v =
      (conn : K) × (host' : Host) × (info : SystemInfo) × (u : W) × (connect client remote
          (timed host (client.now w)) w
        ≡ (ok (conn, host'), u))
      × (Probe.probe remote conn u ≡ (ok info, v))

  probe-Answers :
      (host host' : Host) (r : Result Error ℕ) (w v : W)
      → probe lib client remote host w ≡ (ok (host', r), v)
      → host'.status.phase ≡ available
      → Answers host w v
  unfolding probe
  probe-Answers host host' r w v h new =
      let m = connect client remote (timed host (client.now w)) w in
      elim (Result-cases m.0) [
        | inr (e, refused) ↦ absurd (ground arith)
        | inl ((conn, reached), connected) ↦
            let p = Probe.probe remote conn m.1 in
            elim (Result-cases p.0) [
              | inr (e, broken) ↦ absurd (ground arith)
              | inl (info, probed) ↦ (conn, reached, info, m.1, ground arith, ground arith)
            ]
      ]

  -- A host becomes available only where it is reached and the probe then succeeds, and only while
  -- nothing claims it: it is not being deleted or marked unhealthy, and has no claim and no label of
  -- one.
  pub reconcile_host-available :
      (host host' : Host) (r : Result Error ℕ) (w v : W)
      → reconcile_host lib client remote host w ≡ (ok (host', r), v)
      → host.status.phase ≢ available
      → host'.status.phase ≡ available
      → (host.meta.deleting ≡ false)
        × (host.status.claim_ref ≡ none)
        × (host.spec.unhealthy ≡ false)
        × (get claimed_by_label host.meta.labels ≡ [])
        × (r ≡ ok probe_interval_healthy)
        × Answers host w v
  unfolding reconcile_host answering_phase pin
  reconcile_host-available host host' r w v h old new =
      let pinned = connect-IsPinned client remote (timed host (client.now w)) w in
      (
        ground (arith, pinned),
        ground (arith, pinned),
        ground (arith, pinned),
        ground (arith, pinned),
        ground (arith, pinned),
        probe-Answers host host' r w v (ground arith) new,
      )

  -- A reconciliation leaves the spec and the labels of a host alone, and its claim too, except that
  -- it clears the claim of a host that is being deleted.
  pub reconcile_host-claim_ref :
      (host host' : Host) (r : Result Error ℕ) (w v : W)
      → reconcile_host lib client remote host w ≡ (ok (host', r), v)
      → (host'.spec ≡ host.spec)
        × (host'.meta.labels ≡ host.meta.labels)
        × ((host'.status.claim_ref ≡ host.status.claim_ref)
            ⊎ ((host.meta.deleting ≡ true) × (host'.status.claim_ref ≡ none)))
  unfolding reconcile_host pin
  reconcile_host-claim_ref host host' r w v h =
      ground (arith, connect-IsPinned client remote (timed host (client.now w)) w)

  -- Whether the claimant of a host can no longer be found.
  abbrev pub IsGone : W → Option ObjectReference → Type 0
  IsGone w none = Unit
  IsGone w (some ref) =
      (e : Error) × ((client.get_host_machine ref.namespace ref.name w).0 ≡ err e)
      × (is_not_found e ≡ true)

  delete-IsGone :
      (ref : Option ObjectReference) (host host' : Host) (r : Result Error ℕ) (w v : W)
      → delete_claimed lib client remote host ref w ≡ (ok (host', r), v)
      → host'.meta.finalizers ≢ host.meta.finalizers
      → IsGone w ref
  unfolding report
  delete-IsGone none host host' r w v h moved = tt
  delete-IsGone (some ref) host host' r w v h moved =
      elim (Result-cases (client.get_host_machine ref.namespace ref.name w).0) [
        | inl (machine, e) ↦ absurd (ground arith)
        | inr (x, e) ↦ (x, e, ground arith)
      ]

  -- A host that is being deleted keeps its finalizer as long as its claimant may exist.
  pub reconcile_host-finalizer :
      (host host' : Host) (r : Result Error ℕ) (w v : W)
      → reconcile_host lib client remote host w ≡ (ok (host', r), v)
      → host.meta.deleting ≡ true
      → host'.meta.finalizers ≢ host.meta.finalizers
      → IsGone w host.status.claim_ref
  unfolding reconcile_host
  reconcile_host-finalizer host host' r w v h deleting moved =
      delete-IsGone host.status.claim_ref host host' r w v (simp deleting at h) moved

  module _ (other : Host → Host → Io W (Unit {0})) where
    abbrev repatched : Client W
    repatched = record client { patch_host = other }

    patched_result :
        (host : Host) (m : Result Error (Outcome Host) × W)
        → (bind_result m (patched lib repatched remote host)).0
          ≡ (bind_result m (patched lib client remote host)).0
    patched_result host (ok (host', r), u) = refl
    patched_result host (err e, u) = refl

    helped_result :
        (host : Host) (m : Result Error (Unit {0}) × W)
        → (bind_result m
            (λ _. reconcile_host lib repatched remote host >>= patched lib repatched remote host)).0
          ≡ (bind_result m
              (λ _. reconcile_host lib client remote host >>= patched lib client remote host)).0
    unfolding reconcile_host reconcile_delete probe connect
    helped_result host (ok a, u) = patched_result host (reconcile_host lib client remote host u)
    helped_result host (err e, u) = refl

    after_get_result :
        (r : Result Error Host) (u : W)
        → (after_get lib repatched remote r u).0 ≡ (after_get lib client remote r u).0
    after_get_result (err e) u = refl
    after_get_result (ok host) u = helped_result host (client.new_helper host.meta u)

    -- What a reconciliation returns does not depend on the deferred patch: with any other patch, one
    -- that fails included, it is the same.
    pub reconcile_patch_error_lost :
        (namespace name : Text) (w : W)
        → (reconcile lib repatched remote namespace name w).0
          ≡ (reconcile lib client remote namespace name w).0
    unfolding reconcile
    reconcile_patch_error_lost namespace name w =
        after_get_result (client.get_host namespace name w).0 (client.get_host namespace name w).1
