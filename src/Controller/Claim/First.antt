-- ===== src/Controller/Claim/First.antt =====
-- Which host the third loop of `claimHost` gives a machine.
use kg.Base.{Bool, true, List, [], ◌∷◌, ◌++◌, none, some, ok, err, ◌≡◌, ◌⊎◌, inl, inr, refl, ap}
use kg.Api.{Labels, Host, HostMachine, Cluster}
use kg.Platform.{Error, is_conflict}
use kg.Platform.Client.{Client}
use kg.Platform.Library.{Library}
use kg.Controller.Claim.{Claim, claim_free}
use kg.Controller.Claim.Requests.{
  IsFree, AsksFor, Records, eligible-IsFree, eligible-not-IsFree, label_claim-AsksFor,
  claimed_status-Records,
}
use kg.Controller.Claim.Choice.{Picks, exhausted, skipped, lost, won, claim_free-Picks}

module _ {W : Type 0} (lib : Library) (client : Client W) (matches : Labels → Bool)
    (cluster : Cluster) (machine : HostMachine) where
  -- Each of the hosts is not free, or it is free and lost to a conflict with another update of it.
  pub data PassedOver : List Host → W → W → Type 0 where
    over : {w u : W} → w ≡ u → PassedOver [] w u
    not_free :
        {h : Host} {hs : List Host} {w u : W}
        → ¬ IsFree matches h
        → PassedOver hs w u
        → PassedOver (h ∷ hs) w u
    conflicted :
        {h : Host} {hs : List Host} {w x u : W} (request : Host) (e : Error)
        → IsFree matches h
        → AsksFor cluster machine h request
        → client.update_host request w ≡ (err e, x)
        → is_conflict e ≡ true
        → PassedOver hs x u
        → PassedOver (h ∷ hs) w u

  -- The machine gets the first host that is not passed over: it is free, it is labelled, and then its
  -- claim is recorded.
  abbrev pub GetsFirst : List Host → W → Claim → W → Type 0
  GetsFirst hs w c v =
      (before : List Host) × (h : Host) × (after : List Host) × (u : W) × (x : W) × (hs
        ≡ before ++ h ∷ after)
      × PassedOver before w u
      × IsFree matches h
      × (request : Host) × (labelled : Host) × (record' : Host) × (recorded : Host) × AsksFor
          cluster machine h request
      × (client.update_host request u ≡ (ok labelled, x))
      × Records machine labelled record'
      × (client.update_host_status record' x ≡ (ok recorded, v))
      × (c.host ≡ some recorded)
      × (c.machine.status.host_ref ≡ some recorded.meta.name)

  -- No host is left to give, and the machine stays as it is.
  abbrev pub GetsNone : List Host → W → Claim → W → Type 0
  GetsNone hs w c v = (c.host ≡ none) × (c.machine ≡ machine) × PassedOver hs w v

  after_one :
      (h : Host) (hs : List Host) (w x v : W) (c : Claim)
      → ((us : List Host) (u : W) → PassedOver us x u → PassedOver (h ∷ us) w u)
      → GetsFirst hs x c v ⊎ GetsNone hs x c v
      → GetsFirst (h ∷ hs) w c v ⊎ GetsNone (h ∷ hs) w c v
  after_one h hs w x v c pass
        (inl (
          before, k, after, u, y, same, passed, free, a, l, s, r, asks, done, records, saved, given,
          refers,
        )) =
      inl (
        h ∷ before,
        k,
        after,
        u,
        y,
        ap (λ us. h ∷ us) same,
        pass before u passed,
        free,
        a,
        l,
        s,
        r,
        asks,
        done,
        records,
        saved,
        given,
        refers,
      )
  after_one h hs w x v c pass (inr (nothing, still, passed)) = inr (nothing, still, pass _ _ passed)

  Picks-GetsFirst :
      {hs : List Host} {w v : W} {c : Claim}
      → Picks lib client matches cluster machine hs w c v
      → GetsFirst hs w c v ⊎ GetsNone hs w c v
  Picks-GetsFirst (exhausted e f) = inr (ap (λ c. c.host) f, ap (λ c. c.machine) f, over e)
  Picks-GetsFirst (skipped busy p) =
      after_one _ _ _ _ _ _ (λ us u. not_free (eligible-not-IsFree matches _ busy))
        (Picks-GetsFirst p)
  Picks-GetsFirst (lost e free refused conflict p) =
      after_one _ _ _ _ _ _
        (λ us u.
          conflicted _ e (eligible-IsFree matches _ free) (label_claim-AsksFor cluster machine _)
            refused conflict)
        (Picks-GetsFirst p)
  Picks-GetsFirst (won labelled recorded free done saved same) = inl (
    [],
    _,
    _,
    _,
    _,
    refl,
    over refl,
    eligible-IsFree matches _ free,
    _,
    labelled,
    _,
    recorded,
    label_claim-AsksFor cluster machine _,
    done,
    claimed_status-Records labelled machine,
    saved,
    ap (λ c. c.host) same,
    ap (λ c. c.machine.status.host_ref) same,
  )

  -- Where the third loop of `claimHost` succeeds, the machine gets the first host, in the order given,
  -- that is free and whose labelling is not lost to a conflict: that host is labelled with the names
  -- of the machine and its cluster, then its claim is recorded in its status, and the machine refers
  -- to it. Or every host is not free or lost to a conflict, and the machine gets none. A host is
  -- free where nothing claims it, it is not unhealthy or being deleted, it is available, and its
  -- labels match.
  pub claim_free-GetsFirst :
      (hs : List Host) (w v : W) (c : Claim)
      → claim_free lib client matches cluster machine hs w ≡ (ok c, v)
      → GetsFirst hs w c v ⊎ GetsNone hs w c v
  claim_free-GetsFirst hs w v c h =
      Picks-GetsFirst (claim_free-Picks lib client matches cluster machine hs w v c h)
