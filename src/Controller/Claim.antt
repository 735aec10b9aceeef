-- ===== src/Controller/Claim.antt =====
-- internal/controller/hostmachine_controller.go: how a machine gets its host, `claimHost` and
-- `recordClaim`.
pub mod Requests
pub mod Choice
pub mod First
pub mod Recovery
use kg.Base.{
  Bool, true, false, not, ◌&&◌, List, [], ◌∷◌, Option, none, some, Result, ok, err, Text, codes,
  ◌==◌, if◌then◌else◌,
}
use kg.Api.{
  Labels, Host, HostMachine, HostPhase, HostSelector, ObjectReference, Cluster, available, claimed,
  claimed_by_label, cluster_name_label,
}
use kg.Api.Maps.{get, put}
use kg.Inventory.{sort_by_name}
use kg.Platform.{Error, is_not_found, is_conflict, Io, ◌>>=◌, pure, fail, attempt}
use kg.Platform.Client.{Client}
use kg.Platform.Library.{Library}

-- What `claimHost` returns, and the machine with the reference that it sets.
pub record Claim : Type 0 where
  pub host : Option Host
  pub machine : HostMachine

abbrev pub host_name : Host → Text
host_name host = host.meta.name

abbrev pub referring : HostMachine → Option Text → HostMachine
referring machine ref = record machine { status = record machine.status { host_ref = ref } }

-- The claim as the status of a host carries it.
unfoldable pub reference_to : HostMachine → ObjectReference
reference_to machine = record {
  api_version = codes "infrastructure.kgenesis.io/v1alpha1";
  kind = codes "HostMachine";
  namespace = machine.meta.namespace;
  name = machine.meta.name;
  uid = machine.meta.uid;
}

abbrev pub claimed_status : Host → HostMachine → Host
claimed_status host machine = record host {
  status = record host.status { claim_ref = some (reference_to machine); phase = claimed };
}

abbrev pub has_uid : Text → Option ObjectReference → Bool
has_uid uid none = false
has_uid uid (some ref) = ref.uid == uid

-- The first loop: a host whose status names this machine.
unfoldable pub find_claimed : Text → List Host → Option Host
find_claimed uid [] = none
find_claimed uid (h ∷ hs) = if has_uid uid h.status.claim_ref then some h else find_claimed uid hs

-- The second loop: a host whose label names this machine.
unfoldable pub find_labelled : Text → List Host → Option Host
find_labelled name [] = none
find_labelled name (h ∷ hs) =
    if get claimed_by_label h.meta.labels == name then some h else find_labelled name hs

abbrev pub is_available : HostPhase → Bool
is_available available = true
is_available _ = false

abbrev pub is_none : Option ObjectReference → Bool
is_none none = true
is_none (some _) = false

-- The tests of the third loop that pass over a host.
unfoldable pub eligible : (Labels → Bool) → Host → Bool
eligible matches h =
    is_none h.status.claim_ref
    && not h.spec.unhealthy
    && not h.meta.deleting
    && is_available h.status.phase
    && matches h.meta.labels

-- The host with the two labels of a claim.
unfoldable pub label_claim : Cluster → HostMachine → Host → Host
label_claim cluster machine h = record h {
  meta = record h.meta {
    labels =
        put cluster_name_label cluster.meta.name
          (put claimed_by_label machine.meta.name h.meta.labels);
  };
}

-- `selectorFor`: no selector matches every host.
unfoldable pub selector_for : Library → Option HostSelector → Result Error (Labels → Bool)
selector_for lib none = ok (λ _. true)
selector_for lib (some selector) = lib.compile_selector selector

module _ {W : Type 0} (lib : Library) (client : Client W) where
  -- `recordClaim`
  unfoldable pub record_claim : Host → HostMachine → Io W Host
  record_claim host machine = client.update_host_status (claimed_status host machine)

  abbrev pub taken : HostMachine → Host → Io W Claim
  taken machine h = pure (record { host = some h; machine = referring machine (some h.meta.name) })

  abbrev pub take : HostMachine → Host → Io W Claim
  take machine h = do h' ← record_claim h machine; taken machine h'

  abbrev pub after_label : HostMachine → Io W Claim → Result Error Host → Io W Claim
  after_label machine next (ok h) = take machine h
  after_label machine next (err e) = if is_conflict e then next else fail e

  abbrev pub try_host : Cluster → HostMachine → Host → Io W Claim → Io W Claim
  try_host cluster machine h next = do
    r ← attempt (client.update_host (label_claim cluster machine h))
    after_label machine next r

  -- The third loop: a free host is labelled first; a lost race moves on to the next.
  unfoldable pub claim_free : (Labels → Bool) → Cluster → HostMachine → List Host → Io W Claim
  claim_free matches cluster machine [] = pure (record { host = none; machine = machine })
  claim_free matches cluster machine (h ∷ hs) =
      let next = claim_free matches cluster machine hs in
      if eligible matches h then try_host cluster machine h next else next

  abbrev pub claim_labelled :
      (Labels → Bool) → Cluster → HostMachine → List Host → Option Host → Io W Claim
  claim_labelled matches cluster machine hosts (some h) = take machine h
  claim_labelled matches cluster machine hosts none = claim_free matches cluster machine hosts

  abbrev pub claim_recovered :
      (Labels → Bool) → Cluster → HostMachine → List Host → Option Host → Io W Claim
  claim_recovered matches cluster machine hosts (some h) = taken machine h
  claim_recovered matches cluster machine hosts none =
      claim_labelled matches cluster machine hosts (find_labelled machine.meta.name hosts)

  -- The loops over the hosts in inventory order.
  unfoldable pub claim_from : (Labels → Bool) → Cluster → HostMachine → List Host → Io W Claim
  unfolding record_claim claim_free
  claim_from matches cluster machine hosts =
      claim_recovered matches cluster machine hosts (find_claimed machine.meta.uid hosts)

  abbrev pub with_selector : Cluster → HostMachine → Result Error (Labels → Bool) → Io W Claim
  with_selector cluster machine (err e) = fail e
  with_selector cluster machine (ok matches) = do
    hosts ← client.list_hosts machine.meta.namespace
    claim_from matches cluster machine (sort_by_name host_name hosts)

  -- A reference that was set: a host that is gone drops it, for another one to be claimed later.
  abbrev pub after_lookup : HostMachine → Result Error Host → Io W Claim
  after_lookup machine (ok h) = pure (record { host = some h; machine = machine })
  after_lookup machine (err e) =
      if is_not_found e
      then pure (record { host = none; machine = referring machine none })
      else fail e

  abbrev pub claim_by_ref : Cluster → HostMachine → Option Text → Io W Claim
  claim_by_ref cluster machine (some name) = do
    r ← attempt (client.get_host machine.meta.namespace name)
    after_lookup machine r
  claim_by_ref cluster machine none =
      with_selector cluster machine (selector_for lib machine.spec.host_selector)

  -- `claimHost`; no host and no error means that the pool has nothing that matches.
  unfoldable pub claim_host : Cluster → HostMachine → Io W Claim
  unfolding claim_from selector_for
  claim_host cluster machine = claim_by_ref cluster machine machine.status.host_ref
