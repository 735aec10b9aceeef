-- ===== src/Controller/Claim/Choice.antt =====
-- The runs of the third loop of `claimHost` that succeed.
use kg.Base.{
  Bool, true, false, List, [], ◌∷◌, none, some, ok, err, ◌≡◌, arith, Bool-cases, Result-cases, inl,
  inr,
}
use kg.Api.{Labels, Host, HostMachine, Cluster}
use kg.Platform.{Error, is_conflict, >>=-eq-ok}
use kg.Platform.Client.{Client}
use kg.Platform.Library.{Library}
use kg.Controller.Claim.{
  Claim, referring, eligible, label_claim, claimed_status, record_claim, claim_free, take, try_host,
}

module _ {W : Type 0} (lib : Library) (client : Client W) (matches : Labels → Bool)
    (cluster : Cluster) (machine : HostMachine) where
  -- The hosts in order, each passed over, lost to another machine, or won.
  pub data Picks : List Host → W → Claim → W → Type 0 where
    exhausted :
        {w v : W} {c : Claim}
        → w ≡ v
        → c ≡ record { host = none; machine = machine }
        → Picks [] w c v
    skipped :
        {h : Host} {hs : List Host} {w v : W} {c : Claim}
        → eligible matches h ≡ false
        → Picks hs w c v
        → Picks (h ∷ hs) w c v
    lost :
        {h : Host} {hs : List Host} {w u v : W} {c : Claim} (e : Error)
        → eligible matches h ≡ true
        → client.update_host (label_claim cluster machine h) w ≡ (err e, u)
        → is_conflict e ≡ true
        → Picks hs u c v
        → Picks (h ∷ hs) w c v
    won :
        {h : Host} {hs : List Host} {w u v : W} {c : Claim} (labelled recorded : Host)
        → eligible matches h ≡ true
        → client.update_host (label_claim cluster machine h) w ≡ (ok labelled, u)
        → client.update_host_status (claimed_status labelled machine) u ≡ (ok recorded, v)
        → c ≡ record { host = some recorded; machine = referring machine (some recorded.meta.name) }
        → Picks (h ∷ hs) w c v

  take_won :
      (labelled : Host) (u v : W) (c : Claim)
      → take lib client machine labelled u ≡ (ok c, v)
      → (recorded : Host) × (client.update_host_status (claimed_status labelled machine) u
          ≡ (ok recorded, v))
        × (c ≡ record {
          host = some recorded;
          machine = referring machine (some recorded.meta.name);
        })
  unfolding record_claim
  take_won labelled u v c h =
      let (recorded, x, done, rest) =
        >>=-eq-ok (client.update_host_status (claimed_status labelled machine)) _ u h in
      (recorded, ground arith, ground arith)

  free-Picks :
      (h : Host) (hs : List Host) (w v : W) (c : Claim)
      → eligible matches h ≡ true
      → try_host lib client cluster machine h (claim_free lib client matches cluster machine hs) w
        ≡ (ok c, v)
      → ((u : W) → claim_free lib client matches cluster machine hs u ≡ (ok c, v) → Picks hs u c v)
      → Picks (h ∷ hs) w c v
  free-Picks h hs w v c free e ih =
      let m = client.update_host (label_claim cluster machine h) w in
      elim (Result-cases m.0) [
        | inl (labelled, done) ↦
            let (recorded, saved, same) = take_won labelled m.1 v c (rw done at e) in
            won labelled recorded free (ground arith) saved same
        | inr (x, refused) ↦ elim (Bool-cases (is_conflict x)) [
          | inl conflict ↦ lost x free (ground arith) conflict (ih m.1 (ground arith))
          | inr other ↦ absurd (ground arith)
        ]
      ]

  pub claim_free-Picks :
      (hs : List Host) (w v : W) (c : Claim)
      → claim_free lib client matches cluster machine hs w ≡ (ok c, v)
      → Picks hs w c v
  unfolding claim_free
  claim_free-Picks [] w v c h = exhausted (ground arith) (ground arith)
  claim_free-Picks (h ∷ hs) w v c e = elim (Bool-cases (eligible matches h)) [
    | inl free ↦ free-Picks h hs w v c free (rw free at e) (λ u. claim_free-Picks hs u v c)
    | inr busy ↦ skipped busy (claim_free-Picks hs w v c (rw busy at e))
  ]

  pub Picks-claim_free :
      {hs : List Host} {w v : W} {c : Claim}
      → Picks hs w c v
      → claim_free lib client matches cluster machine hs w ≡ (ok c, v)
  unfolding claim_free record_claim
  Picks-claim_free (exhausted e f) = ground arith
  Picks-claim_free (skipped busy p) = ground (arith, Picks-claim_free p)
  Picks-claim_free (lost e free refused conflict p) =
      rw free (rw refused (rw conflict (Picks-claim_free p)))
  Picks-claim_free (won labelled recorded free done saved same) =
      rw free (rw done (rw saved (rw same)))
