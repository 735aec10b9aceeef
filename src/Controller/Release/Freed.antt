-- ===== src/Controller/Release/Freed.antt =====
-- What `releaseHost` leaves at the API server.
use kg.Base.{
  true, [], Option, none, some, Result, Result-cases, ok, err, Text, ◌≡◌, Bool-cases, inl, inr,
  refl, arith,
}
use kg.Api.{Host, pending, claimed_by_label, cluster_name_label}
use kg.Api.Maps.{get, remove, get-remove}
use kg.Platform.{Error, is_not_found, >>=-eq-ok, ◌>>=◌, pure, attempt}
use kg.Platform.Client.{Client}
use kg.Platform.Library.{Library}
use kg.Platform.Remote.{Remote}
use kg.Controller.Release.{Reset, unlabelled, free, release_host, refused}

-- What the API server promises of the two updates of a host; `stored w` is the host it holds under a
-- namespace and a name. An update of the status leaves the metadata as they are stored.
pub record Stores {W : Type 0} (client : Client W) : Type 0 where
  pub stored : W → Text → Text → Option Host
  pub update_ok :
      (h h' : Host) (w u : W)
      → client.update_host h w ≡ (ok h', u)
      → (stored u h.meta.namespace h.meta.name ≡ some h')
        × (h'.meta.labels ≡ h.meta.labels)
        × (h'.meta.namespace ≡ h.meta.namespace)
        × (h'.meta.name ≡ h.meta.name)
  pub update_gone :
      (h : Host) (e : Error) (w u : W)
      → client.update_host h w ≡ (err e, u)
      → is_not_found e ≡ true
      → stored u h.meta.namespace h.meta.name ≡ none
  pub status_ok :
      (h h' : Host) (w u : W)
      → client.update_host_status h w ≡ (ok h', u)
      → (old : Host) × (stored w h.meta.namespace h.meta.name ≡ some old)
        × (stored u h.meta.namespace h.meta.name ≡ some h')
        × (h'.status ≡ h.status)
        × (h'.meta.labels ≡ old.meta.labels)
  pub status_gone :
      (h : Host) (e : Error) (w u : W)
      → client.update_host_status h w ≡ (err e, u)
      → is_not_found e ≡ true
      → stored u h.meta.namespace h.meta.name ≡ none

-- A host that a new claim may get once it is probed again.
abbrev pub IsFree : Option Host → Type 0
IsFree none = Unit
IsFree (some h) =
    (h.status.phase ≡ pending)
    × (h.status.claim_ref ≡ none)
    × (get claimed_by_label h.meta.labels ≡ [])
    × (get cluster_name_label h.meta.labels ≡ [])

unlabelled-get :
    (h : Host)
    → (get claimed_by_label (unlabelled h).meta.labels ≡ [])
      × (get cluster_name_label (unlabelled h).meta.labels ≡ [])
unfolding unlabelled
unlabelled-get h = (
  ground (
    arith,
    get-remove claimed_by_label claimed_by_label (remove cluster_name_label h.meta.labels),
  ),
  ground (
    arith,
    get-remove claimed_by_label cluster_name_label (remove cluster_name_label h.meta.labels),
    get-remove cluster_name_label cluster_name_label h.meta.labels,
  ),
)

module _ {W K : Type 0} (lib : Library) (client : Client W) (remote : Remote W K) where
  -- A world in which the host of this name is free or gone.
  abbrev pub FreeAt : Stores client → Host → W → Type 0
  FreeAt s h v = IsFree (s.stored v h.meta.namespace h.meta.name)

  freed-IsFree :
      (s : Stores client) (reset : Reset) (h : Host) (u v : W) (r : Result Error Host)
      → client.update_host_status (free lib reset h) u ≡ (r, v)
      → ((old : Host)
          → s.stored u h.meta.namespace h.meta.name ≡ some old
          → (get claimed_by_label old.meta.labels ≡ [])
            × (get cluster_name_label old.meta.labels ≡ []))
      → (x : Host) (y : W) → refused r h v ≡ (ok x, y)
      → FreeAt s h y
  unfolding free
  freed-IsFree s reset h u v (ok h') saved clean x y done =
      let (old, was, is, status, labels) = s.status_ok (free lib reset h) h' u v saved in
      let moved : v ≡ y = ground arith in
      let (claimed, cluster) = clean old was in
      rw (← moved, is) (rw status refl, rw status refl, rw labels claimed, rw labels cluster)
  freed-IsFree s reset h u v (err e) saved clean x y done = elim (Bool-cases (is_not_found e)) [
    | inl gone ↦
        let moved : v ≡ y = ground arith in
        rw (← moved, s.status_gone (free lib reset h) e u v saved gone) tt
    | inr other ↦ absurd (ground arith)
  ]

  -- The second half of `releaseHost`, from a host that the server has without labels, or not at all.
  release_tail :
      (s : Stores client) (reset : Reset) (h : Host) (u v : W) (t : Unit {0})
      → ((old : Host)
          → s.stored u h.meta.namespace h.meta.name ≡ some old
          → (get claimed_by_label old.meta.labels ≡ [])
            × (get cluster_name_label old.meta.labels ≡ []))
      → (do
        r ← attempt (client.update_host_status (free lib reset h))
        freed ← refused r h
        pure tt)
          u
        ≡ (ok t, v)
      → FreeAt s h v
  release_tail s reset h u v t clean done =
      let saved = client.update_host_status (free lib reset h) u in
      let (x, y, went, same) = >>=-eq-ok (refused saved.0 h) (λ _. pure tt) saved.1 done in
      let moved : y ≡ v = ground arith in
      rw (← moved) (freed-IsFree s reset h u saved.1 saved.0 refl clean x y went)

  pub release_host-IsFree :
      (s : Stores client) (host : Host) (reset : Reset) (w v : W) (t : Unit {0})
      → release_host lib client remote host reset w ≡ (ok t, v)
      → FreeAt s host v
  unfolding release_host unlabelled
  release_host-IsFree s host reset w v t done =
      let h = unlabelled host in
      let saved = client.update_host h w in
      elim (Result-cases saved.0) [
        | inl (h', e) ↦
            let (at, labels, ns, name) = s.update_ok h h' w saved.1 (ground arith) in
            let there : s.stored saved.1 h'.meta.namespace h'.meta.name ≡ some h' =
              simp (ns, name) at in
            let free_there : FreeAt s h' v =
              release_tail s reset h' saved.1 v t
                (λ old was. let same : old ≡ h' = cc in rw (same, labels) (unlabelled-get host))
                (ground arith) in
            rw (← ns, ← name) free_there
        | inr (x, e) ↦ elim (Bool-cases (is_not_found x)) [
          | inl gone ↦
              release_tail s reset h saved.1 v t
                (λ old was.
                  absurd (ground (arith, s.update_gone h x w saved.1 (ground arith) gone)))
                (ground arith)
          | inr other ↦ absurd (ground arith)
        ]
      ]
