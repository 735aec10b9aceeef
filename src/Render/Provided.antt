-- ===== src/Render/Provided.antt =====
-- Every host that is rendered refers to a secret that is rendered, with its credential.
use kg.Base.{
  List, [], ◌∷◌, some, ok, Text, ◌≡◌, ◌≢◌, ◌⊎◌, inl, inr, refl, sym, ap, ◌∙◌, arith, subst, ◌==◌,
  ==→≡, if◌then◌else◌, Bool-cases, All, Any,
}
use kg.Api.Maps.{Labels, get, put, get-put}
use kg.Compare.{sort_texts, insert_text, is_less, compare_text}
use kg.Config.{Config, HostConfig}
use kg.Inventory.Sort.{HasDistinctNames}
use kg.Platform.Fallible.{>>=-eq-ok}
use kg.Render.{ClusterApi, render_host}
use kg.Render.Objects.{Secret, Host, Objects}
use kg.Render.Secrets.{
  Keys, Credential, Credentials, store, stored, fingerprints, fingerprint, credential, collect,
  ssh_secret_name, secret_data, secrets_of, or_none_set, render_secrets, render_hosts, objects_of,
  render,
}

insert_text-Any :
    (P : Text → Type 0) (s : Text) (ts : List Text) → P s ⊎ Any P ts → Any P (insert_text s ts)
unfolding insert_text
insert_text-Any P s [] h = h
insert_text-Any P s (t ∷ ts) h = elim (Bool-cases (is_less (compare_text t s))) [
  | inr after ↦ rw after h
  | inl before ↦ rw before (elim h [
    | inl p ↦ inr (insert_text-Any P s ts (inl p))
    | inr (inl q) ↦ inl q
    | inr (inr qs) ↦ inr (insert_text-Any P s ts (inr qs))
  ])
]

sort_texts-Any : (P : Text → Type 0) (ts : List Text) → Any P ts → Any P (sort_texts ts)
unfolding sort_texts
sort_texts-Any P [] h = h
sort_texts-Any P (t ∷ ts) (inl p) = insert_text-Any P t (sort_texts ts) (inl p)
sort_texts-Any P (t ∷ ts) (inr ps) =
    insert_text-Any P t (sort_texts ts) (inr (sort_texts-Any P ts ps))

module _ (env : Keys) (api : ClusterApi) where
  stored-store :
      (f g : Text) (c : Credential) (m : Credentials)
      → stored env api f (store g c m) ≡ (if g == f then some c else stored env api f m)
  unfolding stored store
  stored-store f g c [] = refl
  stored-store f g c ((k, d) ∷ m) = ground (arith, stored-store f g c m)

  get_other : (k j v : Text) (m : Labels) → k ≢ j → get j (put k v m) ≡ get j m
  get_other k j v m other = ground (arith, get-put k j v m)

  -- The host has a credential, and its secret is that of a credential with the same fingerprint.
  abbrev IsStored : Credentials → Labels → HostConfig → Type 0
  IsStored creds names h =
      (c : Credential) × (d : Credential) × (credential env api h ≡ ok c)
      × (get h.name names ≡ ssh_secret_name (fingerprint env api c))
      × (stored env api (fingerprint env api c) creds ≡ some d)
      × (fingerprint env api d ≡ fingerprint env api c)

  -- What is stored for a host stays when a host of another name follows.
  next-IsStored :
      (creds : Credentials) (names : Labels) (h k : HostConfig) (e : Credential)
      → h.name ≢ k.name
      → IsStored creds names h
      → IsStored
          (store (fingerprint env api e) e creds)
          (put k.name (ssh_secret_name (fingerprint env api e)) names)
          h
  next-IsStored creds names h k e other (c, d, read_it, named, kept, same) =
      let f = fingerprint env api c in
      let g = fingerprint env api e in
      let named' : get h.name (put k.name (ssh_secret_name g) names) ≡ ssh_secret_name f =
        get_other k.name h.name (ssh_secret_name g) names (λ e'. other (sym e')) ∙ named in
      elim (Bool-cases (g == f)) [
        | inl equal ↦
            (c, e, read_it, named', stored-store f g e creds ∙ rw equal refl, ==→≡ g f equal)
        | inr apart ↦ (c, d, read_it, named', stored-store f g e creds ∙ rw apart kept, same)
      ]

  collect-IsStored :
      (hs : List HostConfig) (creds creds' : Credentials) (names names' : Labels) (h : HostConfig)
      → All (λ k. h.name ≢ k.name) hs
      → IsStored creds names h
      → collect env api hs creds names ≡ ok (creds', names')
      → IsStored creds' names' h
  unfolding collect
  collect-IsStored [] creds creds' names names' h others is_stored done =
      let same_creds : creds ≡ creds' = cc in
      let same_names : names ≡ names' = cc in
      subst (λ n. IsStored creds' n h) same_names
        (subst (λ m. IsStored m names h) same_creds is_stored)
  collect-IsStored (k ∷ hs) creds creds' names names' h (other, others) is_stored done =
      let (e, _, more) = >>=-eq-ok (credential env api k) _ done in
      collect-IsStored hs _ creds' _ names' h others
        (next-IsStored creds names h k e other is_stored) more

  collect-All :
      (hs : List HostConfig) (creds creds' : Credentials) (names names' : Labels)
      → HasDistinctNames (λ (h : HostConfig). h.name) hs
      → collect env api hs creds names ≡ ok (creds', names')
      → All (IsStored creds' names') hs
  unfolding collect
  collect-All [] creds creds' names names' distinct done = tt
  collect-All (k ∷ hs) creds creds' names names' (others, distinct) done =
      let (e, read_it, more) = >>=-eq-ok (credential env api k) _ done in
      let f = fingerprint env api e in
      let now : IsStored (store f e creds) (put k.name (ssh_secret_name f) names) k = (
        e,
        e,
        read_it,
        ground (arith, get-put k.name k.name (ssh_secret_name f) names),
        ground (arith, stored-store f f e creds),
        refl,
      ) in
      (
        collect-IsStored hs _ creds' _ names' k others now more,
        collect-All hs _ creds' _ names' distinct more,
      )

  stored-Any :
      (f : Text) (d : Credential) (creds : Credentials)
      → stored env api f creds ≡ some d
      → Any (λ g. g ≡ f) (fingerprints creds)
  unfolding stored
  stored-Any f d [] h = cc
  stored-Any f d ((g, e) ∷ m) h = elim (Bool-cases (g == f)) [
    | inl same ↦ inl (==→≡ g f same)
    | inr apart ↦ inr (stored-Any f d m (ground arith))
  ]

  -- A secret with a name and a credential.
  abbrev pub Holds : Text → Credential → Secret → Type 0
  Holds name d s = (s.meta.name ≡ name) × (s.data_ ≡ secret_data d)

  secrets_of-Any :
      (cfg : Config) (creds : Credentials) (f : Text) (d : Credential) (fs : List Text)
      → stored env api f creds ≡ some d
      → Any (λ g. g ≡ f) fs
      → Any (Holds (ssh_secret_name f) d) (secrets_of env api cfg creds fs)
  unfolding secrets_of
  secrets_of-Any cfg creds f d (g ∷ fs) kept (inl same) = inl (
    ap ssh_secret_name same,
    ap (λ x. secret_data (or_none_set env api (stored env api x creds))) same
        ∙ ap (λ o. secret_data (or_none_set env api o)) kept,
  )
  secrets_of-Any cfg creds f d (g ∷ fs) kept (inr later) =
      inr (secrets_of-Any cfg creds f d fs kept later)
  secrets_of-Any cfg creds f d [] kept none_left = absurd none_left

  -- What a rendered host is for one of the configuration.
  abbrev pub IsProvided : List Secret → HostConfig → Host → Type 0
  IsProvided secrets h r =
      (r.meta.name ≡ h.name)
      × (r.address ≡ h.address)
      × ((c : Credential) × (d : Credential) × (credential env api h ≡ ok c)
          × (fingerprint env api d ≡ fingerprint env api c)
          × Any (Holds r.ssh_secret d) secrets)

  abbrev pub AreProvided : List Secret → List HostConfig → List Host → Type 0
  AreProvided secrets [] [] = Unit
  AreProvided secrets (h ∷ hs) (r ∷ rs) = IsProvided secrets h r × AreProvided secrets hs rs
  AreProvided secrets _ _ = ⊥

  render_hosts-AreProvided :
      (cfg : Config) (creds : Credentials) (names : Labels) (hs : List HostConfig)
      → All (IsStored creds names) hs
      → AreProvided
          (secrets_of env api cfg creds (sort_texts (fingerprints creds)))
          hs
          (render_hosts env api cfg names hs)
  unfolding render_hosts render_host
  render_hosts-AreProvided cfg creds names [] all = tt
  render_hosts-AreProvided cfg creds names (h ∷ hs) ((c, d, read_it, named, kept, same), all) =
      let f = fingerprint env api c in
      let listed = sort_texts-Any (λ g. g ≡ f) (fingerprints creds) (stored-Any f d creds kept) in
      let held = secrets_of-Any cfg creds f d (sort_texts (fingerprints creds)) kept listed in
      let Held : Text → Type 0 =
        λ n. Any (Holds n d) (secrets_of env api cfg creds (sort_texts (fingerprints creds))) in
      (
        (refl, refl, (c, d, read_it, same, subst Held (sym named) held)),
        render_hosts-AreProvided cfg creds names hs all,
      )

  -- Where the hosts of a configuration have distinct names, `Render` makes one host for each, in
  -- their order, with its name and address, and the secret that this host refers to is among the
  -- secrets: it holds the credential of the host, or one with the same fingerprint.
  pub render-AreProvided :
      (cfg : Config) (objs : Objects)
      → HasDistinctNames (λ (h : HostConfig). h.name) cfg.hosts
      → render env api cfg ≡ ok objs
      → AreProvided objs.secrets cfg.hosts objs.hosts
  unfolding render render_secrets
  render-AreProvided cfg objs distinct h =
      let (r, made, same) = >>=-eq-ok (render_secrets env api cfg) _ h in
      let (cn, collected, whole) = >>=-eq-ok (collect env api cfg.hosts [] []) _ made in
      let parts : (secrets_of env api cfg cn.0 (sort_texts (fingerprints cn.0)), cn.1) ≡ r = cc in
      let rendered : objects_of env api cfg r ≡ objs = cc in
      subst (λ o. AreProvided o.secrets cfg.hosts o.hosts)
        (ap (objects_of env api cfg) parts ∙ rendered)
        (render_hosts-AreProvided cfg cn.0 cn.1 cfg.hosts
          (collect-All cfg.hosts [] cn.0 [] cn.1 distinct collected))
