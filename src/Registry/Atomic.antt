-- ===== src/Registry/Atomic.antt =====
-- `Put` replaces the file of a record as a whole, or not at all, and touches no other.
use kg.Base.{
  Bool, false, ◌++◌, Option, some, Result, ok, err, Text, codes, sym, ◌≡◌, ◌≢◌, ◌⊎◌, inl,
  Text-discrete, subst, inr, refl, ◌∙◌,
}
use kg.Platform.{Error, Io, bind_result, Keeps, >>=-Keeps}
use kg.Platform.Files.{Files, IsFileSystem}
use kg.Base.Paths.{dir_path}
use kg.Registry.{
  Record, Encoding, validate, given, pattern, path, or_close, publish, stamped, put_stamped, put,
}
use kg.Registry.Outcome.{IsContent, put_outcome, or_close-Keeps, not_temporary}

module _ {W : Type 0} (files : Files W) (encoding : Encoding) (view : W → Text → Option Text)
    (is_temporary : Text → Bool) (fs : IsFileSystem files view is_temporary pattern) where
  kept_next :
      {A B : Type 0} (q : Text) (x : Result Error A × W) (f : A → Io W B) (w : W)
      → view x.1 q ≡ view w q
      → ((a : A) → x.0 ≡ ok a → view (f a x.1).1 q ≡ view x.1 q)
      → view (bind_result x f).1 q ≡ view w q
  kept_next q (err e, u) f w keep rest = keep
  kept_next q (ok a, u) f w keep rest = rest a refl ∙ keep

  publish-Keeps :
      (t p c q : Text) → t ≢ q → p ≢ q → Keeps (λ w. view w q) (publish files encoding t p c)
  unfolding publish
  publish-Keeps t p c q apart other =
      >>=-Keeps (λ w. view w q) (or_close files encoding t (files.write t c)) _
        (or_close-Keeps files encoding view is_temporary fs t q (files.write t c)
          (λ u. fs.write-frame t c q u apart))
        (λ _.
          >>=-Keeps (λ w. view w q) (or_close files encoding t (files.sync t)) _
            (or_close-Keeps files encoding view is_temporary fs t q (files.sync t)
              (fs.sync-frame t q))
            (λ _.
              >>=-Keeps (λ w. view w q) (files.close t) _ (fs.close-frame t q)
                (λ _ u. fs.rename-frame t p q u apart other)))

  put_stamped-frame :
      (dir : Text) (r : Record) (q : Text) (w : W)
      → is_temporary q ≡ false
      → path files encoding dir r.namespace r.name ≢ q
      → view (put_stamped files encoding dir r w).1 q ≡ view w q
  unfolding put_stamped
  put_stamped-frame dir r q w kept other =
      let p = path files encoding dir r.namespace r.name in
      kept_next q (given (validate r) w) _ w refl (λ a valid.
        kept_next q (files.mkdir_all (dir_path p) w) _ w (fs.mkdir_all-frame (dir_path p) q w)
          (λ b made.
            let u = (files.mkdir_all (dir_path p) w).1 in
            kept_next q (given (encoding.encode r) u) _ u refl (λ d encoded.
              kept_next q (files.create_temp (dir_path p) pattern u) _ u
                (fs.create_temp-frame (dir_path p) q u kept)
                (λ t created.
                  let v = (files.create_temp (dir_path p) pattern u).1 in
                  let (temporary, new) =
                    fs.create_temp-new (dir_path p) t u v (λ i. (created i, v)) in
                  let apart =
                    not_temporary files encoding view is_temporary fs t q temporary kept in
                  fs.remove-frame t q (publish files encoding t p (d ++ codes "\n") v).1 apart
                  ∙ publish-Keeps t p (d ++ codes "\n") q apart other v))))

  put-frame :
      (dir : Text) (r : Record) (q : Text) (w : W)
      → is_temporary q ≡ false
      → path files encoding dir r.namespace r.name ≢ q
      → view (put files encoding dir r w).1 q ≡ view w q
  unfolding put
  put-frame dir r q w kept other =
      put_stamped-frame dir (stamped files encoding r (files.now w)) q w kept other

  -- `Put` leaves every file but that of its record as it was, whichever of its calls fails; and the
  -- file of the record holds what it held before, where `Put` fails, or else all of the new record:
  -- it is never missing or partly written. Temporary files are left aside.
  pub put-IsAtomic :
      (dir : Text) (r : Record) (q : Text) (w : W)
      → is_temporary q ≡ false
      → ((path files encoding dir r.namespace r.name ≢ q)
          × (view (put files encoding dir r w).1 q ≡ view w q))
        ⊎ ((e : Error) × ((put files encoding dir r w).0 ≡ err e)
            × (view (put files encoding dir r w).1 q ≡ view w q))
        ⊎ ((c : Text) × (path files encoding dir r.namespace r.name ≡ q)
            × IsContent files encoding view is_temporary fs
                (stamped files encoding r (files.now w))
                c
            × (view (put files encoding dir r w).1 q ≡ some c))
  put-IsAtomic dir r q w kept =
      let p = path files encoding dir r.namespace r.name in
      elim (Text-discrete p q) [
        | no other ↦ inl (other, put-frame dir r q w kept other)
        | yes same ↦
            elim (put_outcome files encoding view is_temporary fs dir r w
              (subst (λ x. is_temporary x ≡ false) (sym same) kept)) [
                | inl (e, failed, stays) ↦ inr (
                    inl (
                      e,
                      failed,
                      subst (λ x. view (put files encoding dir r w).1 x ≡ view w x) same stays,
                    ))
                | inr (c, meant, holds) ↦ inr (
                    inr (
                      c,
                      same,
                      meant,
                      subst (λ x. view (put files encoding dir r w).1 x ≡ some c) same holds,
                    ))
              ]
      ]
