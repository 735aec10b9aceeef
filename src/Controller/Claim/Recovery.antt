-- ===== src/Controller/Claim/Recovery.antt =====
-- A claim is made once: it is found again after an interruption, and a race for a host has one
-- winner.
use kg.Base.{
  ℕ, Bool, true, false, List, [], ◌∷◌, Option, none, some, ok, Text, ◌==◌, ◌≡◌, ◌≢◌, ◌⊎◌, refl,
  arith, Bool-cases, inl, inr, All, ◌<◌, ◌≤◌,
}
use kg.Api.{Labels, Host, HostMachine, Cluster, claimed_by_label}
use kg.Api.Maps.{get}
use kg.Inventory.{sort_by_name}
use kg.Inventory.Sort.{All-sort, sort-All}
use kg.Platform.{◌>>=◌, pure}
use kg.Platform.Client.{Client}
use kg.Platform.Library.{Library}
use kg.Controller.Claim.{
  Claim, host_name, referring, label_claim, claim_free, claim_from, claim_host, find_claimed,
  find_labelled, has_uid, selector_for, claim_by_ref, claimed_status, record_claim,
}
use kg.Controller.Claim.Requests.{Records, claimed_status-Records}
use kg.Controller.Claim.Choice.{Picks, skipped, lost, won, claim_free-Picks, Picks-claim_free}

-- Some host of the pool says in its status that the machine with this UID holds it.
abbrev pub IsHeld : Text → List Host → Type 0
IsHeld uid hosts = ¬ All (λ h. has_uid uid h.status.claim_ref ≡ false) hosts

-- Some host of the pool says so in its labels, of the machine with this name.
abbrev pub IsLabelled : Text → List Host → Type 0
IsLabelled name hosts = ¬ All (λ h. (get claimed_by_label h.meta.labels == name) ≡ false) hosts

-- The host is one of the pool.
abbrev pub IsListed : Host → List Host → Type 0
IsListed h hosts = ¬ All (λ k. k ≢ h) hosts

find_labelled-IsListed :
    (name : Text) (hosts : List Host) (h : Host)
    → find_labelled name hosts ≡ some h
    → IsListed h hosts
unfolding find_labelled
find_labelled-IsListed name [] h found all = cc
find_labelled-IsListed name (k ∷ ks) h found (other, others) =
    elim (Bool-cases (get claimed_by_label k.meta.labels == name)) [
      | inl mine ↦ other (ground arith)
      | inr theirs ↦ find_labelled-IsListed name ks h (rw theirs at found) others
    ]

find_claimed-IsHeld :
    (uid : Text) (hosts : List Host)
    → ((h : Host) × (find_claimed uid hosts ≡ some h) × (has_uid uid h.status.claim_ref ≡ true))
      ⊎ ((find_claimed uid hosts ≡ none) × All (λ h. has_uid uid h.status.claim_ref ≡ false) hosts)
unfolding find_claimed
find_claimed-IsHeld uid [] = inr (refl, tt)
find_claimed-IsHeld uid (h ∷ hs) = elim (Bool-cases (has_uid uid h.status.claim_ref)) [
  | inl mine ↦ inl (h, rw mine, mine)
  | inr other ↦ elim (find_claimed-IsHeld uid hs) [
    | inl (k, found, mine) ↦ inl (k, rw other found, mine)
    | inr (missing, all) ↦ inr (rw other missing, (other, all))
  ]
]

find_claimed-none :
    (uid : Text) (hosts : List Host)
    → All (λ h. has_uid uid h.status.claim_ref ≡ false) hosts
    → find_claimed uid hosts ≡ none
unfolding find_claimed
find_claimed-none uid [] h = refl
find_claimed-none uid (k ∷ ks) (h, hs) = rw h (find_claimed-none uid ks hs)

find_labelled-IsLabelled :
    (name : Text) (hosts : List Host)
    → ((h : Host) × (find_labelled name hosts ≡ some h)
        × (get claimed_by_label h.meta.labels ≡ name))
      ⊎ ((find_labelled name hosts ≡ none)
          × All (λ h. (get claimed_by_label h.meta.labels == name) ≡ false) hosts)
unfolding find_labelled
find_labelled-IsLabelled name [] = inr (refl, tt)
find_labelled-IsLabelled name (h ∷ hs) =
    elim (Bool-cases (get claimed_by_label h.meta.labels == name)) [
      | inl mine ↦ inl (h, rw mine, ground arith)
      | inr other ↦ elim (find_labelled-IsLabelled name hs) [
        | inl (k, found, mine) ↦ inl (k, rw other found, mine)
        | inr (missing, all) ↦ inr (rw other missing, (other, all))
      ]
    ]

module _ {W : Type 0} (lib : Library) (client : Client W) (cluster : Cluster)
    (machine : HostMachine) where
  module _ (matches : Labels → Bool) (hosts : List Host) (w u : W)
      (forgot : machine.status.host_ref ≡ none)
      (selects : selector_for lib machine.spec.host_selector ≡ ok matches)
      (listed : client.list_hosts machine.meta.namespace w ≡ (ok hosts, u)) where
    by_ref-claim_from :
        (ref : Option Text)
        → ref ≡ none
        → claim_by_ref lib client cluster machine ref w
          ≡ claim_from lib client matches cluster machine (sort_by_name host_name hosts) u
    by_ref-claim_from none h = rw selects (rw listed)
    by_ref-claim_from (some name) h = cc

    claim_host-claim_from :
        claim_host lib client cluster machine w
        ≡ claim_from lib client matches cluster machine (sort_by_name host_name hosts) u
    unfolding claim_host
    claim_host-claim_from = by_ref-claim_from machine.status.host_ref forgot

    -- A machine that has no reference to a host, while the status of some listed host names the
    -- machine, is given a host whose status names it, and no call but the listing is made. Its selector
    -- compiles and the hosts are listed without an error.
    pub claim_host-IsHeld :
        IsHeld machine.meta.uid hosts
        → (h : Host) × (has_uid machine.meta.uid h.status.claim_ref ≡ true)
          × (claim_host lib client cluster machine w
              ≡ (ok (record { host = some h; machine = referring machine (some h.meta.name) }), u))
    unfolding claim_from
    claim_host-IsHeld held =
        elim (find_claimed-IsHeld machine.meta.uid (sort_by_name host_name hosts)) [
          | inl (h, found, mine) ↦ (h, mine, rw (claim_host-claim_from, found))
          | inr (_, all) ↦ absurd (held (All-sort host_name _ hosts all))
        ]

    -- Where only labels are left, as after a move of the cluster, such a machine is given a listed host
    -- whose label names it: the one update is of the status of that host, which records its claim by the
    -- machine, and the machine refers to the host that this returns. Its selector compiles and the
    -- hosts are listed without an error.
    pub claim_host-IsLabelled :
        All (λ h. has_uid machine.meta.uid h.status.claim_ref ≡ false) hosts
        → IsLabelled machine.meta.name hosts
        → (h : Host) × (request : Host) × IsListed h hosts
          × (get claimed_by_label h.meta.labels ≡ machine.meta.name)
          × Records machine h request
          × (claim_host lib client cluster machine w
              ≡ (do
                h' ← client.update_host_status request
                pure (record { host = some h'; machine = referring machine (some h'.meta.name) }))
                  u)
    unfolding claim_from record_claim
    claim_host-IsLabelled free labelled =
        let no_status =
          find_claimed-none machine.meta.uid (sort_by_name host_name hosts)
            (sort-All host_name _ hosts free) in
        elim (find_labelled-IsLabelled machine.meta.name (sort_by_name host_name hosts)) [
          | inl (h, found, mine) ↦ (
            h,
            claimed_status h machine,
            λ all.
                find_labelled-IsListed machine.meta.name (sort_by_name host_name hosts) h found
                  (sort-All host_name _ hosts all),
            mine,
            claimed_status-Records h machine,
            rw (claim_host-claim_from, no_status, found) refl,
          )
          | inr (_, all) ↦ absurd (labelled (All-sort host_name _ hosts all))
        ]

-- What the API server promises of concurrent updates: each successful update of a host raises its
-- version, and one that was made from an older version fails.
pub record Optimistic {W : Type 0} (client : Client W) (Later : W → W → Type 0) : Type 1 where
  pub version : W → Text → Text → ℕ
  pub update_current :
      (h h' : Host) (w u : W)
      → client.update_host h w ≡ (ok h', u)
      → h.meta.resource_version ≡ version w h.meta.namespace h.meta.name
  pub update_raises :
      (h h' : Host) (w u : W)
      → client.update_host h w ≡ (ok h', u)
      → version w h.meta.namespace h.meta.name < version u h.meta.namespace h.meta.name
  pub later_keeps :
      (w u : W) (namespace name : Text)
      → Later w u
      → version w namespace name ≤ version u namespace name

-- A pick whose first host cannot be updated is a pick from the others.
stale-Picks :
    {W : Type 0} (lib : Library) (client : Client W) (matches : Labels → Bool) (cluster : Cluster)
    (machine : HostMachine) {host : Host} {others : List Host} {x v : W} {c : Claim}
    → Picks lib client matches cluster machine (host ∷ others) x c v
    → ((h : Host) (u : W) → client.update_host (label_claim cluster machine host) x ≢ (ok h, u))
    → (y : W) × Picks lib client matches cluster machine others y c v
stale-Picks lib client matches cluster machine (skipped busy p) stale = (_, p)
stale-Picks lib client matches cluster machine (lost e free refused conflict p) stale = (_, p)
stale-Picks lib client matches cluster machine (won labelled recorded free done saved same) stale =
    absurd (stale labelled _ done)

module _ {W : Type 0} (lib : Library) (client : Client W) {Later : W → W → Type 0}
    (optimistic : Optimistic client Later) where
  -- Two machines that read one version of a host do not both get it: where the first has labelled
  -- it, the claim of the second, at any later time, is a claim from the hosts that follow.
  pub claim_free_race :
      (first_cluster second_cluster : Cluster) (first second : HostMachine)
      (matches : Labels → Bool) (host labelled : Host) (others : List Host) (c : Claim)
      (w u x v : W)
      → client.update_host (label_claim first_cluster first host) w ≡ (ok labelled, u)
      → Later u x
      → claim_free lib client matches second_cluster second (host ∷ others) x ≡ (ok c, v)
      → (y : W) × (claim_free lib client matches second_cluster second others y ≡ (ok c, v))
  unfolding label_claim
  claim_free_race first_cluster second_cluster first second matches host labelled others c w u x v
        done later claimed =
      let picked =
        claim_free-Picks lib client matches second_cluster second (host ∷ others) x v c claimed in
      let (y, rest) = stale-Picks lib client matches second_cluster second picked (λ h z again.
        absurd (
          omega (
            arith,
            optimistic.update_current (label_claim first_cluster first host) labelled w u done,
            optimistic.update_raises (label_claim first_cluster first host) labelled w u done,
            optimistic.later_keeps u x host.meta.namespace host.meta.name later,
            optimistic.update_current (label_claim second_cluster second host) h x z again,
          ))) in
      (y, Picks-claim_free lib client matches second_cluster second rest)
