-- ===== src/Registry/Sorted.antt =====
-- `List` returns the records in order, by namespace and name.
use kg.Base.{
  true, false, List, [], ◌∷◌, ◌≡◌, inl, inr, arith, Result, ok, err, Text, All, subst, Bool-cases,
}
use kg.Compare.{flip, is_less, IsOrder}
use kg.Compare.Laws.{compare_text-IsOrder, or_else-IsOrder, preimage-IsOrder}
use kg.Platform.{Error, is_not_found, >>=-eq-ok}
use kg.Platform.Files.{Files}
use kg.Registry.{
  Record, Encoding, validate, compare_records, insert_record, sort_records, read_entries,
  sorted_entries, list,
}
use kg.Registry.Valid.{IsValid, read_entries-All}

compare_records-IsOrder : IsOrder (λ (r : Record). Unit {0}) compare_records
compare_records-IsOrder =
    or_else-IsOrder (preimage-IsOrder (λ (r : Record). r.namespace) compare_text-IsOrder)
      (preimage-IsOrder (λ (r : Record). r.name) compare_text-IsOrder)

compare_records-swap : (a b : Record) → compare_records b a ≡ flip (compare_records a b)
compare_records-swap a b = compare_records-IsOrder.swap a b tt tt

-- A list whose first record is not before `r`.
abbrev pub IsAbove : Record → List Record → Type 0
IsAbove r [] = Unit
IsAbove r (s ∷ ss) = is_less (compare_records s r) ≡ false

-- No record is before the one that it follows.
abbrev pub IsOrdered : List Record → Type 0
IsOrdered [] = Unit
IsOrdered (r ∷ rs) = IsAbove r rs × IsOrdered rs

not_less :
    (r s : Record) → is_less (compare_records s r) ≡ true → is_less (compare_records r s) ≡ false
not_less r s h = ground (arith, compare_records-swap s r)

insert_record-IsAbove :
    (r s : Record) (ss : List Record)
    → is_less (compare_records r s) ≡ false
    → IsAbove s ss
    → IsAbove s (insert_record r ss)
unfolding insert_record
insert_record-IsAbove r s [] h above = h
insert_record-IsAbove r s (t ∷ ss) h above = elim (Bool-cases (is_less (compare_records t r))) [
  | inl before ↦ rw before above
  | inr after ↦ rw after h
]

insert_record-IsOrdered :
    (r : Record) (rs : List Record) → IsOrdered rs → IsOrdered (insert_record r rs)
unfolding insert_record
insert_record-IsOrdered r [] ordered = (tt, tt)
insert_record-IsOrdered r (s ∷ ss) (above, ordered) =
    elim (Bool-cases (is_less (compare_records s r))) [
      | inl before ↦ rw before (
        insert_record-IsAbove r s ss (not_less r s before) above,
        insert_record-IsOrdered r ss ordered,
      )
      | inr after ↦ rw after (after, (above, ordered))
    ]

sort_records-IsOrdered : (rs : List Record) → IsOrdered (sort_records rs)
unfolding sort_records
sort_records-IsOrdered [] = tt
sort_records-IsOrdered (r ∷ rs) =
    insert_record-IsOrdered r (sort_records rs) (sort_records-IsOrdered rs)

insert_record-All :
    (P : Record → Type 0) (r : Record) (rs : List Record)
    → P r
    → All P rs
    → All P (insert_record r rs)
unfolding insert_record
insert_record-All P r [] p ps = (p, tt)
insert_record-All P r (s ∷ ss) p (q, qs) = elim (Bool-cases (is_less (compare_records s r))) [
  | inl before ↦ rw before (q, insert_record-All P r ss p qs)
  | inr after ↦ rw after (p, (q, qs))
]

sort_records-All : (P : Record → Type 0) (rs : List Record) → All P rs → All P (sort_records rs)
unfolding sort_records
sort_records-All P [] ps = tt
sort_records-All P (r ∷ rs) (p, ps) =
    insert_record-All P r (sort_records rs) p (sort_records-All P rs ps)

module _ {W : Type 0} (files : Files W) (encoding : Encoding) where
  Listed : List Record → Type 0
  Listed rs = IsOrdered rs × All (IsValid files encoding) rs

  sorted_entries-Listed :
      (dir : Text) (x : Result Error (List Text)) (rs : List Record) (w v : W)
      → sorted_entries files encoding dir x w ≡ (ok rs, v)
      → Listed rs
  unfolding Listed
  sorted_entries-Listed dir (ok entries) rs w v h =
      let (ts, u, read_them, same) = >>=-eq-ok (read_entries files encoding dir entries) _ w h in
      let whole : sort_records ts ≡ rs = cc in
      subst Listed whole (
        sort_records-IsOrdered ts,
        sort_records-All _ ts (read_entries-All files encoding dir entries ts w u read_them),
      )
  sorted_entries-Listed dir (err e) rs w v h = elim (Bool-cases (is_not_found e)) [
    | inl missing ↦ let whole : [] ≡ rs = ground arith in subst Listed whole (tt, tt)
    | inr present ↦ absurd (ground arith)
  ]

  -- The records that `List` returns are valid, and each is in order, by namespace and then by name,
  -- with the one that it follows.
  pub list-IsOrdered :
      (dir : Text) (rs : List Record) (w v : W)
      → list files encoding dir w ≡ (ok rs, v)
      → IsOrdered rs × All (λ r. validate r ≡ ok tt) rs
  unfolding list Listed
  list-IsOrdered dir rs w v h = sorted_entries-Listed _ _ rs _ v h
