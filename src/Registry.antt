-- ===== src/Registry.antt =====
-- internal/registry/registry.go: one record per cluster, in one file each.
pub mod Outcome
pub mod Atomic
pub mod Valid
pub mod Sorted
pub mod Roundtrip
use kg.Base.{
  ℕ, Bool, true, false, not, ◌||◌, ◌&&◌, List, [], ◌∷◌, ◌++◌, Option, none, some, Result, ok, err,
  Text, codes, ◌==◌, eqb, if◌then◌else◌,
}
use kg.Base.Int.{ℤ, pos, negsuc}
use kg.Base.Strings.{has_suffix, print_int, go_quote}
use kg.Base.Paths.{is_abs, base_of, dir_path, join_path}
use kg.Compare.{Ordering, is_less, or_else, compare_text}
use kg.Platform.{Error, new_error, is_not_found, Io, ◌>>=◌, ◌>>◌, pure, fail, attempt, with_context}
use kg.Platform.Files.{Files}

-- `Mode`: the three that are known, and any text that a file may hold.
abbrev pub managed : Text
managed = codes "managed"

abbrev pub self_managed : Text
self_managed = codes "self-managed"

abbrev pub released : Text
released = codes "released"

pub record Record : Type 0 where
  pub version : ℤ
  pub name : Text
  pub namespace : Text
  pub mode : Text
  pub endpoint : Text
  pub management_kubeconfig : Text
  pub workload_kubeconfig : Text
  pub updated_at : ℕ

abbrev is_one : ℤ → Bool
is_one (pos n) = eqb n 1
is_one (negsuc n) = false

abbrev unless : Bool → Error → Result Error (Unit {0}) → Result Error (Unit {0})
unless true e rest = rest
unless false e rest = err e

abbrev check_mode : Record → Result Error (Unit {0}) → Result Error (Unit {0})
check_mode r rest =
    if r.mode == managed || r.mode == self_managed
    then unless (is_abs r.management_kubeconfig)
        (new_error (codes "management kubeconfig must be an absolute path")) rest
    else if r.mode == released
    then unless (r.management_kubeconfig == [])
        (new_error (codes "released clusters have no management kubeconfig")) rest
    else err (new_error (codes "unknown management mode " ++ go_quote r.mode))

-- `Validate`
unfoldable pub validate : Record → Result Error (Unit {0})
validate r =
    unless (is_one r.version)
      (new_error (codes "unsupported registry version " ++ print_int r.version))
      (unless (not (r.name == [] || r.namespace == []))
        (new_error (codes "cluster name and namespace are required"))
        (check_mode r (
          unless (is_abs r.workload_kubeconfig)
            (new_error (codes "workload kubeconfig must be an absolute path")) (ok tt))))

-- `sha256.Sum256` with `hex.EncodeToString`, and `encoding/json`.
pub record Encoding : Type 0 where
  pub checksum : Text → Text
  pub encode : Record → Result Error Text
  pub decode : Text → Result Error Record

-- The call of a function that only fails.
abbrev pub given : {W A : Type 0} → Result Error A → Io W A
given r w = (r, w)

-- The order of `List`: by namespace, then by name.
abbrev pub compare_records : Record → Record → Ordering
compare_records a b = or_else (compare_text a.namespace b.namespace) (compare_text a.name b.name)

unfoldable pub insert_record : Record → List Record → List Record
insert_record r [] = r ∷ []
insert_record r (s ∷ ss) =
    if is_less (compare_records s r) then s ∷ insert_record r ss else r ∷ s ∷ ss

unfoldable pub sort_records : List Record → List Record
unfolding insert_record
sort_records [] = []
sort_records (r ∷ rs) = insert_record r (sort_records rs)

abbrev pub pattern : Text
pattern = codes ".record-*"

module _ {W : Type 0} (files : Files W) (encoding : Encoding) where
  -- `Key`
  unfoldable pub key : Text → Text → Text
  key namespace name = encoding.checksum (namespace ++ 0 ∷ name)

  -- `path`, of a store in `dir`.
  unfoldable pub path : Text → Text → Text → Text
  unfolding key
  path dir namespace name =
      join_path (dir ∷ codes "clusters" ∷ (key namespace name ++ codes ".json") ∷ [])

  -- `read`
  unfoldable pub read : Text → Io W Record
  unfolding validate
  read p = do
    data_ ← files.read_file p
    r ← with_context (codes "read registry " ++ p ++ codes ": ") (given (encoding.decode data_))
    with_context (codes "read registry " ++ p ++ codes ": ") (given (validate r))
    pure r

  abbrev pub matching : Text → Text → Record → Io W (Option Record)
  matching namespace name r =
      if not (r.name == name) || not (r.namespace == namespace)
      then fail (new_error (codes "registry identity does not match its filename"))
      else pure (some r)

  abbrev pub found : Text → Text → Result Error Record → Io W (Option Record)
  found namespace name (ok r) = matching namespace name r
  found namespace name (err e) = if is_not_found e then pure none else fail e

  -- `Get`
  unfoldable pub get : Text → Text → Text → Io W (Option Record)
  unfolding read path
  get dir namespace name = do r ← attempt (read (path dir namespace name)); found namespace name r

  abbrev pub named_by : Text → Record → Io W (Unit {0})
  named_by p r =
      if base_of p == key r.namespace r.name ++ codes ".json"
      then pure tt
      else fail (new_error (codes "registry identity does not match " ++ p))

  -- One round of the loop of `List`, before the rounds that are left.
  unfoldable pub read_entry : Text → Io W (List Record) → Io W (List Record)
  unfolding read key
  read_entry p rest = do r ← read p; named_by p r; rs ← rest; pure (r ∷ rs)

  -- The loop of `List`.
  unfoldable pub read_entries : Text → List Text → Io W (List Record)
  unfolding read_entry
  read_entries dir [] = pure []
  read_entries dir (entry ∷ entries) =
      let rest = read_entries dir entries in
      if has_suffix entry (codes ".json")
      then read_entry (join_path (dir ∷ entry ∷ [])) rest
      else rest

  abbrev pub sorted_entries : Text → Result Error (List Text) → Io W (List Record)
  sorted_entries dir (err e) = if is_not_found e then pure [] else fail e
  sorted_entries dir (ok entries) = do rs ← read_entries dir entries; pure (sort_records rs)

  -- `List`
  unfoldable pub list : Text → Io W (List Record)
  unfolding read_entries sort_records
  list dir = do
    entries ← attempt (files.read_dir (join_path (dir ∷ codes "clusters" ∷ [])))
    sorted_entries (join_path (dir ∷ codes "clusters" ∷ [])) entries

  abbrev pub close_after : Text → Result Error (Unit {0}) → Io W (Unit {0})
  close_after t (ok r) = pure r
  close_after t (err e) = do closed ← attempt (files.close t); fail e

  -- `if err := x; err != nil { f.Close(); return err }`
  abbrev pub or_close : Text → Io W (Unit {0}) → Io W (Unit {0})
  or_close t m = do r ← attempt m; close_after t r

  -- The temporary file is written and takes the name of the record's file.
  unfoldable pub publish : Text → Text → Text → Io W (Unit {0})
  publish t p content = do
    or_close t (files.write t content)
    or_close t (files.sync t)
    files.close t
    files.rename t p

  -- `defer os.Remove(f.Name())`
  abbrev pub removing : Text → Io W (Unit {0}) → Io W (Unit {0})
  removing t m = do r ← attempt m; removed ← attempt (files.remove t); given r

  -- The record as `Put` writes it.
  abbrev pub stamped : Record → ℕ → Record
  stamped r now = record r { version = pos 1; updated_at = now }

  unfoldable pub put_stamped : Text → Record → Io W (Unit {0})
  unfolding validate path publish
  put_stamped dir r = do
    given (validate r)
    let p = path dir r.namespace r.name
    files.mkdir_all (dir_path p)
    data_ ← given (encoding.encode r)
    t ← files.create_temp (dir_path p) pattern
    removing t (publish t p (data_ ++ codes "\n"))

  -- `Put`
  unfoldable pub put : Text → Record → Io W (Unit {0})
  unfolding put_stamped
  put dir r w = put_stamped dir (stamped r (files.now w)) w

  abbrev pub unless_missing : Result Error (Unit {0}) → Io W (Unit {0})
  unless_missing (ok r) = pure r
  unless_missing (err e) = if is_not_found e then pure tt else fail e

  -- `Forget`
  unfoldable pub forget : Text → Text → Text → Io W (Unit {0})
  unfolding path
  forget dir namespace name = do
    r ← attempt (files.remove (path dir namespace name))
    unless_missing r
