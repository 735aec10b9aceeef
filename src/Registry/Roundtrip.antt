-- ===== src/Registry/Roundtrip.antt =====
-- `Get` returns what `Put` stored, and nothing once `Forget` was called.
use kg.Base.{
  Bool, true, false, Option, none, some, Result, ok, err, Text, ◌≡◌, inl, inr, refl, sym, ap, ◌∙◌,
  ◌==◌, arith, Bool-cases,
}
use kg.Platform.{Error, is_not_found, >>=-eq-ok}
use kg.Platform.Files.{Files, IsFileSystem}
use kg.Registry.{
  Record, Encoding, validate, given, pattern, path, read, matching, found, get, stamped,
  put_stamped, put, unless_missing, forget,
}
use kg.Registry.Outcome.{IsContent, put_outcome}

module _ {W : Type 0} (files : Files W) (encoding : Encoding) (view : W → Text → Option Text)
    (is_temporary : Text → Bool) (fs : IsFileSystem files view is_temporary pattern) where
  read_file_then :
      (p t : Text) (r : Record) (w v : W)
      → files.read_file p w ≡ (ok t, v)
      → encoding.decode t ≡ ok r
      → validate r ≡ ok tt
      → read files encoding p w ≡ (ok r, v)
  unfolding read
  read_file_then p t r w v h decoded valid = rw (h, decoded, valid) refl

  read_file_failed :
      (p : Text) (w v : W) (e : Error)
      → files.read_file p w ≡ (err e, v)
      → read files encoding p w ≡ (err e, v)
  unfolding read
  read_file_failed p w v e h = rw h refl

  matching_only :
      (namespace name : Text) (r : Record) (o : Option Record) (w v : W)
      → matching files encoding namespace name r w ≡ (ok o, v)
      → o ≡ some r
  matching_only namespace name r o w v h =
      ground (arith, Bool-cases (r.name == name), Bool-cases (r.namespace == namespace))

  found_failed :
      (namespace name : Text) (e : Error) (o : Option Record) (w v : W)
      → found files encoding namespace name (err e) w ≡ (ok o, v)
      → (is_not_found e ≡ true) × (o ≡ none)
  found_failed namespace name e o w v h = elim (Bool-cases (is_not_found e)) [
    | inl missing ↦ (missing, ground arith)
    | inr present ↦ absurd (ground arith)
  ]

  get-step :
      (dir namespace name : Text) (w v : W) (x : Result Error Record)
      → read files encoding (path files encoding dir namespace name) w ≡ (x, v)
      → get files encoding dir namespace name w ≡ found files encoding namespace name x v
  unfolding get
  get-step dir namespace name w v x h = rw h refl

  not_both : (o : Option Text) (c : Text) → o ≡ some c → o ≡ none → ⊥
  not_both o c h k = cc

  not_failed : (x : Result Error (Unit {0})) (a : Unit {0}) (e : Error) → x ≡ ok a → x ≡ err e → ⊥
  not_failed x a e h k = cc

  same_content : (t c : Text) (o : Option Text) → o ≡ some t → o ≡ some c → t ≡ c
  same_content t c o h k = ground arith

  get_present :
      (dir namespace name c : Text) (r : Record) (o : Option Record) (w u : W)
      (x : Result Error Text × W)
      → files.read_file (path files encoding dir namespace name) w ≡ x
      → view w (path files encoding dir namespace name) ≡ some c
      → encoding.decode c ≡ ok r
      → validate r ≡ ok tt
      → get files encoding dir namespace name w ≡ (ok o, u)
      → o ≡ some r
  get_present dir namespace name c r o w u (ok t, v) at holds decoded valid h =
      let p = path files encoding dir namespace name in
      let same = same_content t c (view w p) (fs.read_file-view p t w v at) holds in
      let read_it = read_file_then p t r w v at (rw same decoded) valid in
      matching_only namespace name r o v u
        (sym (get-step dir namespace name w v (ok r) read_it) ∙ h)
  get_present dir namespace name c r o w u (err e, v) at holds decoded valid h =
      let p = path files encoding dir namespace name in
      let failed = get-step dir namespace name w v (err e) (read_file_failed p w v e at) in
      let (missing, _) = found_failed namespace name e o v u (sym failed ∙ h) in
      let gone = fs.read_file_missing p c w v e at missing in
      absurd (not_both (view w p) c holds gone)

  -- Once `Put` has stored a record, `Get` of its cluster returns that record, with the version and
  -- the time that `Put` gave it, unless the file cannot be read. This needs that a record is decoded
  -- from its encoding and a line break.
  pub put-get :
      (dir : Text) (r : Record) (w v u : W) (a : Unit {0}) (o : Option Record)
      → is_temporary (path files encoding dir r.namespace r.name) ≡ false
      → ((c : Text)
          → IsContent files encoding view is_temporary fs (stamped files encoding r (files.now w)) c
          → encoding.decode c ≡ ok (stamped files encoding r (files.now w)))
      → put files encoding dir r w ≡ (ok a, v)
      → get files encoding dir r.namespace r.name v ≡ (ok o, u)
      → o ≡ some (stamped files encoding r (files.now w))
  unfolding put put_stamped
  put-get dir r w v u a o apart decodes h k =
      let s = stamped files encoding r (files.now w) in
      let (b, w', valid, _) = >>=-eq-ok (given (validate s)) _ w h in
      elim (put_outcome files encoding view is_temporary fs dir r w apart) [
        | inl (e, failed, _) ↦ absurd (not_failed _ a e (ap (λ y. y.0) h) failed)
        | inr (c, content, holds) ↦
            get_present dir r.namespace r.name c s o v u
              (files.read_file (path files encoding dir r.namespace r.name) v) refl
              (ap (λ y. view y.1 (path files encoding dir r.namespace r.name)) (sym h) ∙ holds)
              (decodes c content) (ap (λ y. y.0) valid) k
      ]

  get_missing :
      (dir namespace name : Text) (o : Option Record) (w u : W) (x : Result Error Text × W)
      → files.read_file (path files encoding dir namespace name) w ≡ x
      → view w (path files encoding dir namespace name) ≡ none
      → get files encoding dir namespace name w ≡ (ok o, u)
      → o ≡ none
  get_missing dir namespace name o w u (ok t, v) at gone h =
      let p = path files encoding dir namespace name in
      absurd (not_both (view w p) t (fs.read_file-view p t w v at) gone)
  get_missing dir namespace name o w u (err e, v) at gone h =
      let p = path files encoding dir namespace name in
      let failed = get-step dir namespace name w v (err e) (read_file_failed p w v e at) in
      let (_, nothing) = found_failed namespace name e o v u (sym failed ∙ h) in nothing

  removed :
      (p : Text) (w v : W) (a : Unit {0}) (x : Result Error (Unit {0}) × W)
      → files.remove p w ≡ x
      → unless_missing files encoding x.0 x.1 ≡ (ok a, v)
      → view v p ≡ none
  removed p w v a (ok r, u) at h = ap (λ y. view y.1 p) (sym h) ∙ fs.remove-ok p w u r at
  removed p w v a (err e, u) at h = elim (Bool-cases (is_not_found e)) [
    | inl missing ↦
        let same : u ≡ v = ground arith in
        ap (λ y. view y p) (sym same) ∙ fs.remove_missing p w u e at missing
    | inr present ↦ absurd (ground arith)
  ]

  -- Once `Forget` has removed a record, `Get` of its cluster returns none, unless the file system
  -- fails.
  pub forget-get :
      (dir namespace name : Text) (w v u : W) (a : Unit {0}) (o : Option Record)
      → forget files encoding dir namespace name w ≡ (ok a, v)
      → get files encoding dir namespace name v ≡ (ok o, u)
      → o ≡ none
  unfolding forget
  forget-get dir namespace name w v u a o h k =
      let p = path files encoding dir namespace name in
      get_missing dir namespace name o v u (files.read_file p v) refl
        (removed p w v a (files.remove p w) refl h) k
