-- ===== src/Registry/Valid.antt =====
-- A record that is read is valid.
use kg.Base.{
  Bool, true, false, List, [], ◌∷◌, ◌++◌, Result, ok, err, Text, codes, ◌≡◌, refl, ap, subst,
  if◌then◌else◌, All,
}
use kg.Base.Strings.{has_suffix}
use kg.Base.Paths.{join_path}
use kg.Platform.{Error, Io, ◌>>=◌, ◌>>◌, pure, with_context, >>=-eq-ok}
use kg.Platform.Files.{Files}
use kg.Registry.{Record, Encoding, validate, given, read, named_by, read_entry, read_entries}

module _ {W : Type 0} (files : Files W) (encoding : Encoding) where
  valid_then :
      (prefix : Text) (x : Result Error (Unit {0})) (r s : Record) (u v : W)
      → (with_context prefix (given x) >> pure r) u ≡ (ok s, v)
      → (x ≡ ok tt) × (r ≡ s)
  valid_then prefix (ok a) r s u v h = (refl, cc)
  valid_then prefix (err e) r s u v h = cc

  decoded_then :
      (prefix : Text) (x : Result Error Record) (s : Record) (u v : W)
      → (with_context prefix (given x)
            >>= (λ r. with_context prefix (given (validate r)) >> pure r))
          u
        ≡ (ok s, v)
      → (x ≡ ok s) × (validate s ≡ ok tt)
  decoded_then prefix (err e) s u v h = cc
  decoded_then prefix (ok r) s u v h =
      let (valid, same) = valid_then prefix (validate r) r s u v h in
      (ap (λ x. ok x) same, subst (λ x. validate x ≡ ok tt) same valid)

  -- A record that is read is what its file decodes to, and it is valid.
  pub read-ok :
      (p : Text) (r : Record) (w v : W)
      → read files encoding p w ≡ (ok r, v)
      → (t : Text) × (u : W) × (files.read_file p w ≡ (ok t, u))
        × (encoding.decode t ≡ ok r)
        × (validate r ≡ ok tt)
  unfolding read
  read-ok p r w v h =
      let prefix = codes "read registry " ++ p ++ codes ": " in
      let (t, u, found_file, more) = >>=-eq-ok (files.read_file p) _ w h in
      let (decoded, valid) = decoded_then prefix (encoding.decode t) r u v more in
      (t, u, found_file, decoded, valid)

  abbrev pub IsValid : Record → Type 0
  IsValid r = validate r ≡ ok tt

  read_entry-All :
      (p : Text) (rest : Io W (List Record)) (rs : List Record) (w v : W)
      → ((ts : List Record) (u u' : W) → rest u ≡ (ok ts, u') → All IsValid ts)
      → read_entry files encoding p rest w ≡ (ok rs, v)
      → All IsValid rs
  unfolding read_entry
  read_entry-All p rest rs w v later h =
      let (r, u, read_it, more) = >>=-eq-ok (read files encoding p) _ w h in
      let (a, u', named, more') = >>=-eq-ok (named_by files encoding p r) _ u more in
      let (ts, u'', others, same) = >>=-eq-ok rest _ u' more' in
      let (t, _, _, _, valid) = read-ok p r w u read_it in
      let whole : r ∷ ts ≡ rs = cc in subst (All IsValid) whole (valid, later ts u' u'' others)

  either_rest :
      (b : Bool) (p : Text) (rest : Io W (List Record)) (rs : List Record) (w v : W)
      → ((ts : List Record) (u u' : W) → rest u ≡ (ok ts, u') → All IsValid ts)
      → (if b then read_entry files encoding p rest else rest) w ≡ (ok rs, v)
      → All IsValid rs
  either_rest true p rest rs w v later h = read_entry-All p rest rs w v later h
  either_rest false p rest rs w v later h = later rs w v h

  pub read_entries-All :
      (dir : Text) (entries : List Text) (rs : List Record) (w v : W)
      → read_entries files encoding dir entries w ≡ (ok rs, v)
      → All IsValid rs
  unfolding read_entries
  read_entries-All dir [] rs w v h = let same : [] ≡ rs = cc in subst (All IsValid) same tt
  read_entries-All dir (entry ∷ entries) rs w v h =
      either_rest (has_suffix entry (codes ".json")) (join_path (dir ∷ entry ∷ []))
        (read_entries files encoding dir entries) rs w v
        (λ ts u u' k. read_entries-All dir entries ts u u' k) h
