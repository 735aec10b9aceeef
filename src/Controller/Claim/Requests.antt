-- ===== src/Controller/Claim/Requests.antt =====
-- What a claim asks of the API server, and of which hosts it may ask it.
use kg.Base.{
  Bool, true, false, none, some, Text, Text-discrete, ◌≡◌, ◌≢◌, ◌==◌, ==_refl, refl, arith,
}
use kg.Api.{
  Labels, Host, HostMachine, ObjectReference, Cluster, available, claimed, claimed_by_label,
  cluster_name_label,
}
use kg.Api.Maps.{get, put, get-put}
use kg.Controller.Claim.{eligible, label_claim, claimed_status, reference_to}

-- A host that a machine may be given: nothing claims it, it is in use and available, and the
-- selector takes its labels.
abbrev pub IsFree : (Labels → Bool) → Host → Type 0
IsFree matches h =
    (h.status.claim_ref ≡ none)
    × (h.spec.unhealthy ≡ false)
    × (h.meta.deleting ≡ false)
    × (h.status.phase ≡ available)
    × (matches h.meta.labels ≡ true)

-- The request is for the host as it was read, with two labels that name the machine and its cluster.
abbrev pub AsksFor : Cluster → HostMachine → Host → Host → Type 0
AsksFor cluster machine h request =
    (request.spec ≡ h.spec)
    × (request.meta.namespace ≡ h.meta.namespace)
    × (request.meta.name ≡ h.meta.name)
    × (request.meta.resource_version ≡ h.meta.resource_version)
    × (get claimed_by_label request.meta.labels ≡ machine.meta.name)
    × (get cluster_name_label request.meta.labels ≡ cluster.meta.name)
    × ((k : Text)
        → claimed_by_label ≢ k
        → cluster_name_label ≢ k
        → get k request.meta.labels ≡ get k h.meta.labels)

-- The request is for the host in the phase `Claimed`, with a claim that refers to the machine.
abbrev pub Records : HostMachine → Host → Host → Type 0
Records machine h request =
    (request.spec ≡ h.spec)
    × (request.meta ≡ h.meta)
    × (request.status.phase ≡ claimed)
    × (ref : ObjectReference) × (request.status.claim_ref ≡ some ref)
    × (ref.namespace ≡ machine.meta.namespace)
    × (ref.name ≡ machine.meta.name)
    × (ref.uid ≡ machine.meta.uid)

pub eligible-IsFree :
    (matches : Labels → Bool) (h : Host) → eligible matches h ≡ true → IsFree matches h
unfolding eligible
eligible-IsFree matches h e = (ground arith, ground arith, ground arith, ground arith, ground arith)

pub eligible-not-IsFree :
    (matches : Labels → Bool) (h : Host) → eligible matches h ≡ false → ¬ IsFree matches h
unfolding eligible
eligible-not-IsFree matches h e (unclaimed, healthy, live, ready, selected) = ground arith

labels_apart : (cluster_name_label == claimed_by_label) ≡ false
unfolding Text-discrete
labels_apart = refl

pub label_claim-AsksFor :
    (cluster : Cluster) (machine : HostMachine) (h : Host)
    → AsksFor cluster machine h (label_claim cluster machine h)
unfolding label_claim
label_claim-AsksFor cluster machine h =
    let claimed_labels = put claimed_by_label machine.meta.name h.meta.labels in
    let outer = λ (k : Text). get-put cluster_name_label k cluster.meta.name claimed_labels in
    let inner = λ (k : Text). get-put claimed_by_label k machine.meta.name h.meta.labels in
    (
      refl,
      refl,
      refl,
      refl,
      rw (outer claimed_by_label, labels_apart, inner claimed_by_label, ==_refl claimed_by_label)
          refl,
      rw (outer cluster_name_label, ==_refl cluster_name_label) refl,
      λ k not_claimed not_cluster. ground (arith, outer k, inner k),
    )

pub claimed_status-Records :
    (h : Host) (machine : HostMachine) → Records machine h (claimed_status h machine)
unfolding reference_to
claimed_status-Records h machine = (refl, refl, refl, reference_to machine, refl, refl, refl, refl)
