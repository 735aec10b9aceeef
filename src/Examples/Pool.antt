-- ===== src/Examples/Pool.antt =====
-- The theorems on claims and releases at a concrete pool.
use kg.Base.{
  ℕ, Bool, true, [], ◌∷◌, Option, none, some, Result, ok, err, Text, Text-discrete, codes, ◌≡◌, ◌⊎◌,
  refl, arith, ◌≤◌, ◌<◌,
}
use kg.Api.{Labels, Host, HostMachine, claimed_by_label}
use kg.Api.Maps.{get, lookup}
use kg.Inventory.{sort_by_name}
use kg.Provisioner.{reset, clear_command, read_command, id_command, launch_command}
use kg.Controller.Connection.{connect}
use kg.Platform.{◌>>=◌, pure, Error, is_not_found, new_error}
use kg.Controller.{Outcome}
use kg.Controller.Claim.{
  Claim, claim_free, claim_host, label_claim, referring, reference_to, has_uid, claimed_status,
  record_claim, eligible, find_claimed, find_labelled, selector_for,
}
use kg.Controller.Claim.Requests.{Records}
use kg.Controller.Claim.First.{GetsFirst, GetsNone, claim_free-GetsFirst}
use kg.Controller.Claim.Recovery.{
  Optimistic, IsHeld, IsListed, IsLabelled, claim_host-IsHeld, claim_host-IsLabelled,
  claim_free_race,
}
use kg.Controller.Bootstrap.{reconcile_normal}
use kg.Controller.Bootstrap.Report.{host_claimed}
use kg.Controller.Bootstrap.Success.{reconcile_normal-host_ref}
use kg.Controller.Release.{forget, reconcile_delete}
use kg.Controller.Release.Freed.{Stores, IsFree}
use kg.Controller.Release.Pool.{IsForgotten, reconcile_delete-IsForgotten, reconcile_delete-IsFree}
use kg.Examples.World.{World, server, library, machine, raised, update, update_status}
use kg.Examples.Objects.{
  available_host, claimed_host, labelled_host, worker, cluster, owner, with_host, machine_with,
}

version_of : Option Host → ℕ
version_of none = 0
version_of (some h) = h.meta.resource_version

abbrev version : World → Text → Text → ℕ
version w namespace name = version_of w.host

update-current :
    (o : Option Host) (h h' : Host) (w u : World)
    → update o h w ≡ (ok h', u)
    → (h.meta.resource_version ≡ version_of o) × (version_of o < version_of u.host)
unfolding version_of
update-current none h h' w u done = cc
update-current (some old) h h' w u done = ground arith

server-Optimistic :
    Optimistic server
      (λ w u. (namespace name : Text) → version w namespace name ≤ version u namespace name)
server-Optimistic = record {
  version = version;
  update_current = λ h h' w u done. (update-current w.host h h' w u done).0;
  update_raises = λ h h' w u done. (update-current w.host h h' w u done).1;
  later_keeps = λ w u namespace name later. later namespace name;
}

-- The server holds its one host under every name.
abbrev stored : World → Text → Text → Option Host
stored w namespace name = w.host

update-stored :
    (o : Option Host) (h h' : Host) (w u : World)
    → update o h w ≡ (ok h', u)
    → (u.host ≡ some h')
      × (h'.meta.labels ≡ h.meta.labels)
      × (h'.meta.namespace ≡ h.meta.namespace)
      × (h'.meta.name ≡ h.meta.name)
update-stored none h h' w u done = cc
update-stored (some old) h h' w u done = ground arith

update-gone :
    (o : Option Host) (h : Host) (e : Error) (w u : World)
    → o ≡ w.host
    → update o h w ≡ (err e, u)
    → is_not_found e ≡ true
    → u.host ≡ none
update-gone none h e w u same done gone = ground arith
update-gone (some old) h e w u same done gone = ground arith

update_status-stored :
    (o : Option Host) (h h' : Host) (w u : World)
    → update_status o h w ≡ (ok h', u)
    → (old : Host) × (o ≡ some old)
      × (u.host ≡ some h')
      × (h'.status ≡ h.status)
      × (h'.meta.labels ≡ old.meta.labels)
update_status-stored none h h' w u done = cc
update_status-stored (some old) h h' w u done =
    (old, refl, ground arith, ground arith, ground arith)

update_status-gone :
    (o : Option Host) (h : Host) (e : Error) (w u : World)
    → o ≡ w.host
    → update_status o h w ≡ (err e, u)
    → is_not_found e ≡ true
    → u.host ≡ none
update_status-gone none h e w u same done gone = ground arith
update_status-gone (some old) h e w u same done gone = ground arith

server-Stores : Stores server
server-Stores = record {
  stored = stored;
  update_ok = λ h h' w u done. update-stored w.host h h' w u done;
  update_gone = λ h e w u done gone. update-gone w.host h e w u refl done gone;
  status_ok = λ h h' w u done. update_status-stored w.host h h' w u done;
  status_gone = λ h e w u done gone. update_status-gone w.host h e w u refl done gone;
}

abbrev everything : Labels → Bool
everything labels = true

-- The available host as the server stores it once it is labelled, and once its claim is recorded.
abbrev labelled : Host
labelled = raised (label_claim cluster worker available_host) 4

abbrev pub claimed_labelled : Host
claimed_labelled = record (raised labelled 5) { status = (claimed_status labelled worker).status }

abbrev pub claim : Claim
claim = record {
  host = some claimed_labelled;
  machine = referring worker (some claimed_labelled.meta.name);
}

free_claimed :
    claim_free library server everything cluster worker
      (available_host ∷ [])
      (with_host available_host)
    ≡ (ok claim, with_host claimed_labelled)
unfolding claim_free label_claim eligible record_claim
free_claimed = refl

claim_free-GetsFirst_example :
    GetsFirst library server everything cluster worker
      (available_host ∷ [])
      (with_host available_host)
      claim
      (with_host claimed_labelled)
    ⊎ GetsNone library server everything cluster worker
        (available_host ∷ [])
        (with_host available_host)
        claim
        (with_host claimed_labelled)
claim_free-GetsFirst_example =
    claim_free-GetsFirst library server everything cluster worker (available_host ∷ [])
      (with_host available_host) (with_host claimed_labelled) claim free_claimed

any_host : selector_for library worker.spec.host_selector ≡ ok everything
unfolding selector_for
any_host = refl

claimed_host-IsHeld : IsHeld worker.meta.uid (claimed_host ∷ [])
unfolding reference_to Text-discrete
claimed_host-IsHeld (h, _) = absurd (ground arith)

claim_host-IsHeld_example :
    (h : Host) × (has_uid worker.meta.uid h.status.claim_ref ≡ true)
    × (claim_host library server cluster worker (with_host claimed_host) ≡ (
      ok (record { host = some h; machine = referring worker (some h.meta.name) }),
      with_host claimed_host,
    ))
claim_host-IsHeld_example =
    claim_host-IsHeld library server cluster worker everything (claimed_host ∷ [])
      (with_host claimed_host) (with_host claimed_host) refl any_host refl claimed_host-IsHeld

labelled_host-IsLabelled : IsLabelled worker.meta.name (labelled_host ∷ [])
unfolding get Text-discrete
labelled_host-IsLabelled (h, _) = absurd (ground arith)

claim_host-IsLabelled_example :
    (h : Host) × (request : Host) × IsListed h (labelled_host ∷ [])
    × (get claimed_by_label h.meta.labels ≡ worker.meta.name)
    × Records worker h request
    × (claim_host library server cluster worker (with_host labelled_host)
        ≡ (do
          h' ← server.update_host_status request
          pure (record { host = some h'; machine = referring worker (some h'.meta.name) }))
            (with_host labelled_host))
claim_host-IsLabelled_example =
    claim_host-IsLabelled library server cluster worker everything (labelled_host ∷ [])
      (with_host labelled_host) (with_host labelled_host) refl any_host refl (refl, tt)
      labelled_host-IsLabelled

-- Another machine that read the host before it was labelled.
abbrev rival : HostMachine
rival = machine_with (codes "worker-1") none

abbrev nothing : Claim
nothing = record { host = none; machine = rival }

first_labels :
    server.update_host (label_claim cluster worker available_host) (with_host available_host)
    ≡ (ok labelled, with_host labelled)
unfolding label_claim
first_labels = refl

rival_claims :
    claim_free library server everything cluster rival (available_host ∷ []) (with_host labelled)
    ≡ (ok nothing, with_host labelled)
unfolding claim_free label_claim eligible
rival_claims = refl

claim_free_race_example :
    (y : World) × (claim_free library server everything cluster rival [] y
      ≡ (ok nothing, with_host labelled))
claim_free_race_example =
    claim_free_race library server server-Optimistic cluster cluster worker rival everything
      available_host labelled [] nothing (with_host available_host) (with_host labelled)
      (with_host labelled) (with_host labelled) first_labels (λ namespace name. ground arith)
      rival_claims

-- A machine that has the host, and is deleted.
abbrev leaving : HostMachine
leaving = machine_with (codes "worker-0") (some (codes "rack-1"))

reconcile_delete-IsForgotten_example :
    (m : Outcome HostMachine) × ((reconcile_delete library server
        (machine true)
        leaving
        (with_host labelled_host)).0
      ≡ ok m)
    × IsForgotten library server (machine true) leaving m
reconcile_delete-IsForgotten_example =
    reconcile_delete-IsForgotten library server (machine true) leaving (with_host labelled_host)

unfoldable released : Result Error (Outcome HostMachine) × World
released = reconcile_delete library server (machine true) leaving (with_host labelled_host)

released_ok : released.0 ≡ ok (forget library leaving, ok 0)
unfolding released reconcile_delete Text-discrete connect get reset clear_command read_command
    id_command launch_command
released_ok = refl

reconcile_delete-IsFree_example :
    IsFree (server-Stores.stored released.1 (codes "default") (codes "rack-1"))
unfolding released
reconcile_delete-IsFree_example =
    reconcile_delete-IsFree library server (machine true) server-Stores leaving
      (forget library leaving) (codes "rack-1") labelled_host (with_host labelled_host)
      (with_host labelled_host) released.1 0 refl refl (λ i. (released_ok i, released.1))

abbrev render : Text → Text → Text → Result Error Text
render user_data provider_id address = ok user_data

unfoldable normal : Result Error (Outcome HostMachine) × World
normal =
    reconcile_normal library server (machine true) render cluster owner worker
      (with_host available_host)

abbrev no_value : Error
no_value = new_error (codes "bootstrap secret default/bootstrap has no \"value\" key")

abbrev claimed_worker : HostMachine
claimed_worker = host_claimed library claim.machine claimed_labelled

normal_ok : normal.0 ≡ ok (claimed_worker, err no_value)
unfolding normal reconcile_normal Text-discrete claim_host find_claimed sort_by_name find_labelled
    get eligible label_claim lookup
normal_ok = refl

worker_claims :
    claim_host library server cluster worker (with_host available_host)
    ≡ (ok claim, with_host claimed_labelled)
unfolding claim_host find_claimed sort_by_name find_labelled Text-discrete get eligible label_claim
worker_claims = refl

reconcile_normal-host_ref_example : claimed_worker.status.host_ref ≡ some (codes "rack-1")
unfolding normal label_claim
reconcile_normal-host_ref_example =
    reconcile_normal-host_ref library server (machine true) render cluster owner worker
      claimed_worker (codes "bootstrap") claim (err no_value) (with_host available_host)
      (with_host claimed_labelled) normal.1 refl refl worker_claims (λ i. (normal_ok i, normal.1))
