-- ===== src/Platform/Fallible.antt =====
-- Go functions that return a value or an error and call nothing outside, composed by `do`.
use kg.Base.{Result, ok, err, Text, ◌≡◌, refl}
use kg.Platform.{Error, wrap}

abbrev pub Fallible {ℓ} : Type ℓ → Type ℓ
Fallible A = Result Error A

abbrev pub pure {ℓ} : {A : Type ℓ} → A → Fallible A
pure a = ok a

abbrev pub fail {ℓ} : {A : Type ℓ} → Error → Fallible A
fail e = err e

-- `if err != nil { return err }`
infixl 5 ◌>>=◌
abbrev pub ◌>>=◌ {κ ℓ} : {X : Type κ} {Y : Type ℓ} → Fallible X → (X → Fallible Y) → Fallible Y
err failure >>= next = err failure
ok x >>= next = next x

-- `if err != nil { return fmt.Errorf(prefix + ": %w", err) }`
abbrev pub with_context {ℓ} : {A : Type ℓ} → Text → Fallible A → Fallible A
with_context prefix (ok a) = ok a
with_context prefix (err e) = err (wrap prefix e)

-- Inversion of a sequence that succeeds.
pub >>=-eq-ok {κ ℓ} :
    {X : Type κ} {Y : Type ℓ} (first : Fallible X) (next : X → Fallible Y) {y : Y}
    → (first >>= next) ≡ ok y
    → (x : X) × (first ≡ ok x) × (next x ≡ ok y)
>>=-eq-ok (err failure) next h = cc
>>=-eq-ok (ok x) next h = (x, refl, h)

pub with_context-ok {ℓ} :
    {A : Type ℓ} (prefix : Text) (m : Fallible A) {a : A} → with_context prefix m ≡ ok a → m ≡ ok a
with_context-ok prefix (ok a) h = h
with_context-ok prefix (err e) h = cc
