-- ===== src/Controller/Release/Pool.antt =====
-- What a deleted machine leaves behind: a host that is free again, or an error and another try.
use kg.Base.{ℕ, Option, none, some, Result, Result-cases, ok, err, Text, ◌≡◌, inl, inr, refl, arith}
use kg.Api.{Host, HostMachine, machine_finalizer}
use kg.Platform.{Error}
use kg.Platform.Client.{Client}
use kg.Platform.Library.{Library}
use kg.Platform.Remote.{Remote}
use kg.Controller.{Outcome}
use kg.Controller.Connection.{connect, pin, connect-IsPinned, IsPinned}
use kg.Controller.Release.{
  Reset, drop_finalizer, forget, release_host, try_reset, release, after_release, after_lookup,
  after_connect, delete_by_ref, reconcile_delete,
}
use kg.Controller.Release.Freed.{Stores, IsFree, FreeAt, release_host-IsFree}

module _ {W K : Type 0} (lib : Library) (client : Client W) (remote : Remote W K) where
  -- The object and the result of a deletion: as it was where there is an error, without its host and
  -- its finalizer where there is none.
  abbrev pub IsForgotten : HostMachine → Outcome HostMachine → Type 0
  IsForgotten machine (m, err e) = m ≡ machine
  IsForgotten machine (m, ok n) =
      (n ≡ 0)
      × (m.status.host_ref ≡ none)
      × (m.meta.finalizers ≡ lib.remove_finalizer machine.meta.finalizers machine_finalizer)

  forget-IsForgotten : (machine : HostMachine) → IsForgotten machine (forget lib machine, ok 0)
  unfolding forget drop_finalizer
  forget-IsForgotten machine = (refl, refl, refl)

  -- The outcome of a step that has one whatever fails.
  abbrev Forgets : HostMachine → Result Error (Outcome HostMachine) → Type 0
  Forgets machine (ok m) = IsForgotten machine m
  Forgets machine (err e) = ⊥

  after_release-Forgets :
      (machine : HostMachine) (r : Result Error (Unit {0})) (w : W)
      → Forgets machine (after_release lib client remote machine r w).0
  after_release-Forgets machine (ok t) w = forget-IsForgotten machine
  after_release-Forgets machine (err e) w = refl

  release-Forgets :
      (machine : HostMachine) (found : Host × Reset) (w : W)
      → Forgets machine (release lib client remote machine found w).0
  unfolding release
  release-Forgets machine (host, reset) w =
      let r = release_host lib client remote host reset w in after_release-Forgets machine r.0 r.1

  -- The host that is released is the one that was found: reaching it changes its status at most.
  abbrev IsSameHost : Host → Result Error (Host × Reset) → Type 0
  IsSameHost host (ok (h, reset)) = h.meta ≡ host.meta
  IsSameHost host (err e) = ⊥

  after_connect-IsSameHost :
      (machine : HostMachine) (host : Host) (r : Result Error (K × Host)) (w : W)
      → IsPinned client remote host r
      → IsSameHost host (after_connect lib client remote machine host r w).0
  unfolding pin
  after_connect-IsSameHost machine host (err e) w pinned = refl
  after_connect-IsSameHost machine host (ok (conn, h)) w pinned = ground arith

  try_reset-IsSameHost :
      (machine : HostMachine) (host : Host) (w : W)
      → IsSameHost host (try_reset lib client remote machine host w).0
  unfolding try_reset
  try_reset-IsSameHost machine host w =
      let r = connect client remote host w in
      after_connect-IsSameHost machine host r.0 r.1 (connect-IsPinned client remote host w)

  -- What becomes of the host that was found, by the machine's reconciliation that follows.
  abbrev found_host : HostMachine → Host → W → Result Error (Outcome HostMachine) × W
  found_host machine host = after_lookup lib client remote machine (ok host)

  found_host-Forgets :
      (machine : HostMachine) (host : Host) (w : W) → Forgets machine (found_host machine host w).0
  found_host-Forgets machine host w =
      elim (Result-cases (try_reset lib client remote machine host w).0) [
        | inl (found, e) ↦
            ground
              (arith, release-Forgets machine found (try_reset lib client remote machine host w).1)
        | inr (x, e) ↦ absurd (ground (arith, try_reset-IsSameHost machine host w))
      ]

  after_lookup-Forgets :
      (machine : HostMachine) (r : Result Error Host) (w : W)
      → Forgets machine (after_lookup lib client remote machine r w).0
  after_lookup-Forgets machine (ok host) w = found_host-Forgets machine host w
  after_lookup-Forgets machine (err e) w = ground (arith, forget-IsForgotten machine)

  delete_by_ref-Forgets :
      (machine : HostMachine) (ref : Option Text) (w : W)
      → machine.status.host_ref ≡ ref
      → Forgets machine (delete_by_ref lib client remote machine ref w).0
  unfolding drop_finalizer
  delete_by_ref-Forgets machine none w same = (refl, same, refl)
  delete_by_ref-Forgets machine (some name) w same =
      let r = client.get_host machine.meta.namespace name w in after_lookup-Forgets machine r.0 r.1

  -- A deletion always has an outcome, whatever the calls to the host and to the API server return.
  -- Where that is an error, the machine still has its host and its finalizer, so that it is tried
  -- again; where it is none, the machine has no host and its finalizer is removed.
  pub reconcile_delete-IsForgotten :
      (machine : HostMachine) (w : W)
      → (m : Outcome HostMachine) × ((reconcile_delete lib client remote machine w).0 ≡ ok m)
        × IsForgotten machine m
  unfolding reconcile_delete
  reconcile_delete-IsForgotten machine w =
      let r = delete_by_ref lib client remote machine machine.status.host_ref w in
      elim (Result-cases r.0) [
        | inl (m, e) ↦
            (m, e, ground (arith, delete_by_ref-Forgets machine machine.status.host_ref w refl))
        | inr (x, e) ↦
            absurd (ground (arith, delete_by_ref-Forgets machine machine.status.host_ref w refl))
      ]

  released-IsFree :
      (s : Stores client) (machine m : HostMachine) (host : Host) (reset : Reset) (w v : W) (n : ℕ)
      → release lib client remote machine (host, reset) w ≡ (ok (m, ok n), v)
      → FreeAt lib client remote s host v
  unfolding release
  released-IsFree s machine m host reset w v n done =
      let r = release_host lib client remote host reset w in
      elim (Result-cases r.0) [
        | inl (t, e) ↦ release_host-IsFree lib client remote s host reset w v t (ground arith)
        | inr (x, e) ↦ absurd (ground arith)
      ]

  -- Where the deletion of a machine with a host that can be read has no error, the host is free or
  -- gone: it has no claim, no label of one, and is to be probed again before it is handed out. That
  -- it could not be reached or reset does not matter.
  pub reconcile_delete-IsFree :
      (s : Stores client) (machine m : HostMachine) (name : Text) (host : Host) (w u v : W) (n : ℕ)
      → machine.status.host_ref ≡ some name
      → client.get_host machine.meta.namespace name w ≡ (ok host, u)
      → reconcile_delete lib client remote machine w ≡ (ok (m, ok n), v)
      → IsFree (s.stored v host.meta.namespace host.meta.name)
  unfolding reconcile_delete
  reconcile_delete-IsFree s machine m name host w u v n ref found done =
      let there : found_host machine host u ≡ (ok (m, ok n), v) = rw (← done, ref, found) refl in
      let r = try_reset lib client remote machine host u in
      elim (Result-cases (try_reset lib client remote machine host u).0) [
        | inl ((h, reset), e) ↦
            let same : h.meta ≡ host.meta = ground (arith, try_reset-IsSameHost machine host u) in
            simp (← same) (released-IsFree s machine m h reset r.1 v n (ground arith))
        | inr (x, e) ↦ absurd (ground (arith, try_reset-IsSameHost machine host u))
      ]
