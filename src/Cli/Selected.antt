-- ===== src/Cli/Selected.antt =====
-- `selectRecord` finds the one record that a selector names, or fails.
use kg.Base.{
  true, false, List, [], ◌∷◌, ◌++◌, none, some, ok, Text, ◌≡◌, inl, inr, ap, arith, subst,
  Bool-cases, All,
}
use kg.Registry.{Record}
use kg.Cli.{Options, Surroundings, is_selected, select_from}

module _ {W : Type 0} (around : Surroundings W) (o : Options) (selector : Text) where
  abbrev pub IsOther : Record → Type 0
  IsOther r = is_selected around o selector r ≡ false

  -- `r` is the one record of the list that the selector names.
  abbrev pub IsOnly : Record → List Record → Type 0
  IsOnly r rs =
      (before : List Record) × (after : List Record) × (rs ≡ before ++ r ∷ after)
      × (is_selected around o selector r ≡ true)
      × All IsOther before
      × All IsOther after

  select_from-some :
      (f r : Record) (rs : List Record)
      → select_from around o selector (some f) rs ≡ ok (some r)
      → (f ≡ r) × All IsOther rs
  unfolding select_from
  select_from-some f r [] h = (cc, tt)
  select_from-some f r (s ∷ rs) h = elim (Bool-cases (is_selected around o selector s)) [
    | inl again ↦ absurd (ground arith)
    | inr other ↦
        let (same, others) = select_from-some f r rs (ground arith) in (same, (other, others))
  ]

  -- Where the loop of `selectRecord` finds a record, the selector names that one of the records and
  -- no other.
  pub select_from-IsOnly :
      (r : Record) (rs : List Record)
      → select_from around o selector none rs ≡ ok (some r)
      → IsOnly r rs
  unfolding select_from
  select_from-IsOnly r [] h = cc
  select_from-IsOnly r (s ∷ rs) h = elim (Bool-cases (is_selected around o selector s)) [
    | inl named ↦
        let (same, others) = select_from-some s r rs (ground arith) in
        (
          [],
          rs,
          ap (λ x. x ∷ rs) same,
          subst (λ x. is_selected around o selector x ≡ true) same named,
          tt,
          others,
        )
    | inr other ↦
        let (before, after, whole, named, earlier, later) =
          select_from-IsOnly r rs (ground arith) in
        (s ∷ before, after, ap (λ x. s ∷ x) whole, named, (other, earlier), later)
  ]
