-- ===== src/Registry/Outcome.antt =====
-- How `Put` ends: with an error or with the new record in its file.
use kg.Base.{
  Bool, true, false, [], ◌++◌, Option, some, Result, ok, err, Text, codes, ◌≡◌, ◌≢◌, ◌⊎◌, inl, inr,
  refl, ap, ◌∙◌,
}
use kg.Platform.{Error, Io, bind_result, Keeps}
use kg.Platform.Files.{Files, IsFileSystem}
use kg.Base.Paths.{dir_path}
use kg.Registry.{
  Record, Encoding, validate, given, pattern, path, close_after, or_close, publish, removing,
  stamped, put_stamped, put,
}

module _ {W : Type 0} (files : Files W) (encoding : Encoding) (view : W → Text → Option Text)
    (is_temporary : Text → Bool) (fs : IsFileSystem files view is_temporary pattern) where
  -- An error with the file at `p` as it was, or the file at `p` with a content that is meant.
  abbrev Ends : (Text → Type 0) → Text → Result Error (Unit {0}) × W → W → Type 0
  Ends Meant p y w =
      ((e : Error) × (y.0 ≡ err e) × (view y.1 p ≡ view w p))
      ⊎ ((c : Text) × Meant c × (view y.1 p ≡ some c))

  -- A first call that keeps the file, and what follows where it succeeds.
  first_keeps :
      {A : Type 0} (Meant : Text → Type 0) (p : Text) (x : Result Error A × W)
      (f : A → Io W (Unit {0})) (w : W)
      → view x.1 p ≡ view w p
      → ((a : A) → x.0 ≡ ok a → Ends Meant p (f a x.1) x.1)
      → Ends Meant p (bind_result x f) w
  first_keeps Meant p (err e, u) f w keep rest = inl (e, refl, keep)
  first_keeps Meant p (ok a, u) f w keep rest = elim (rest a refl) [
    | inl (e, failed, same) ↦ inl (e, failed, same ∙ keep)
    | inr done ↦ inr done
  ]

  close_after-Keeps :
      (t q : Text) (r : Result Error (Unit {0}))
      → Keeps (λ w. view w q) (close_after files encoding t r)
  close_after-Keeps t q (ok r) w = refl
  close_after-Keeps t q (err e) w = fs.close-frame t q w

  pub or_close-Keeps :
      (t q : Text) (m : Io W (Unit {0}))
      → Keeps (λ w. view w q) m
      → Keeps (λ w. view w q) (or_close files encoding t m)
  or_close-Keeps t q m keep w = close_after-Keeps t q (m w).0 (m w).1 ∙ keep w

  close_after-ok :
      (t : Text) (r : Result Error (Unit {0})) (w : W) (a : Unit {0})
      → (close_after files encoding t r w).0 ≡ ok a
      → (r ≡ ok a) × ((close_after files encoding t r w).1 ≡ w)
  close_after-ok t (ok r) w a h = (h, refl)
  close_after-ok t (err e) w a h = cc

  -- What was written is what the temporary file holds.
  wrote :
      (t content : Text) (w : W) (a : Unit {0})
      → view w t ≡ some []
      → (or_close files encoding t (files.write t content) w).0 ≡ ok a
      → view (or_close files encoding t (files.write t content) w).1 t ≡ some content
  wrote t content w a new h =
      let m = files.write t content w in
      let (written, same) = close_after-ok t m.0 m.1 a h in
      ap (λ u. view u t) same ∙ fs.write-new t content w m.1 a new (λ i. (written i, m.1))

  renamed :
      (Meant : Text → Type 0) (t p c : Text) (w : W) (r : Result Error (Unit {0})) (v : W)
      → t ≢ p
      → view w t ≡ some c
      → Meant c
      → files.rename t p w ≡ (r, v)
      → Ends Meant p (r, v) w
  renamed Meant t p c w (ok a) v apart holds meant h =
      inr (c, meant, fs.rename-ok t p w v a apart h ∙ holds)
  renamed Meant t p c w (err e) v apart holds meant h = inl (e, refl, fs.rename-err t p p w v e h)

  -- The temporary file `t`, which is empty, is written and put in the place of `p`.
  publish-Ends :
      (Meant : Text → Type 0) (t p c : Text) (w : W)
      → t ≢ p
      → view w t ≡ some []
      → Meant c
      → Ends Meant p (publish files encoding t p c w) w
  unfolding publish
  publish-Ends Meant t p c w apart new meant =
      first_keeps Meant p (or_close files encoding t (files.write t c) w) _ w
        (or_close-Keeps t p (files.write t c) (λ u. fs.write-frame t c p u apart) w)
        (λ a written.
          let u = (or_close files encoding t (files.write t c) w).1 in
          first_keeps Meant p (or_close files encoding t (files.sync t) u) _ u
            (or_close-Keeps t p (files.sync t) (fs.sync-frame t p) u)
            (λ b synced.
              let v = (or_close files encoding t (files.sync t) u).1 in
              let holds =
                or_close-Keeps t t (files.sync t) (fs.sync-frame t t) u
                ∙ wrote t c w a new written in
              first_keeps Meant p (files.close t v) _ v (fs.close-frame t p v) (λ d closed.
                renamed Meant t p c (files.close t v).1 _ _ apart (fs.close-frame t t v ∙ holds)
                  meant refl)))

  removing-Ends :
      (Meant : Text → Type 0) (t p : Text) (m : Io W (Unit {0})) (w : W)
      → t ≢ p
      → Ends Meant p (m w) w
      → Ends Meant p (removing files encoding t m w) w
  removing-Ends Meant t p m w apart (inl (e, failed, same)) =
      inl (e, failed, fs.remove-frame t p (m w).1 apart ∙ same)
  removing-Ends Meant t p m w apart (inr (c, meant, holds)) =
      inr (c, meant, fs.remove-frame t p (m w).1 apart ∙ holds)

  pub not_temporary : (t p : Text) → is_temporary t ≡ true → is_temporary p ≡ false → t ≢ p
  not_temporary t p yes_it_is not_it same = cc

  -- The content that `Put` means to write: the encoded record, and a line break.
  abbrev pub IsContent : Record → Text → Type 0
  IsContent r c = (d : Text) × (encoding.encode r ≡ ok d) × (c ≡ d ++ codes "\n")

  put_stamped-Ends :
      (dir : Text) (r : Record) (w : W)
      → is_temporary (path files encoding dir r.namespace r.name) ≡ false
      → Ends
          (IsContent r)
          (path files encoding dir r.namespace r.name)
          (put_stamped files encoding dir r w)
          w
  unfolding put_stamped
  put_stamped-Ends dir r w apart =
      let p = path files encoding dir r.namespace r.name in
      let Meant = IsContent r in
      first_keeps Meant p (given (validate r) w) _ w refl (λ a valid.
        first_keeps Meant p (files.mkdir_all (dir_path p) w) _ w
          (fs.mkdir_all-frame (dir_path p) p w)
          (λ b made.
            let u = (files.mkdir_all (dir_path p) w).1 in
            first_keeps Meant p (given (encoding.encode r) u) _ u refl (λ d encoded.
              first_keeps Meant p (files.create_temp (dir_path p) pattern u) _ u
                (fs.create_temp-frame (dir_path p) p u apart)
                (λ t created.
                  let v = (files.create_temp (dir_path p) pattern u).1 in
                  let (temporary, new) =
                    fs.create_temp-new (dir_path p) t u v (λ i. (created i, v)) in
                  let other = not_temporary t p temporary apart in
                  removing-Ends Meant t p (publish files encoding t p (d ++ codes "\n")) v other
                    (publish-Ends Meant t p (d ++ codes "\n") v other new (d, encoded, refl))))))

  -- `Put` ends with an error and the file of the record as it was, or with all of the new record.
  pub put_outcome :
      (dir : Text) (r : Record) (w : W)
      → is_temporary (path files encoding dir r.namespace r.name) ≡ false
      → ((e : Error) × ((put files encoding dir r w).0 ≡ err e)
          × (view (put files encoding dir r w).1 (path files encoding dir r.namespace r.name)
              ≡ view w (path files encoding dir r.namespace r.name)))
        ⊎ ((c : Text) × IsContent (stamped files encoding r (files.now w)) c
            × (view (put files encoding dir r w).1 (path files encoding dir r.namespace r.name)
                ≡ some c))
  unfolding put
  put_outcome dir r w apart = put_stamped-Ends dir (stamped files encoding r (files.now w)) w apart
