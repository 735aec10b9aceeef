-- ===== src/Platform.antt =====
-- The ground that the program stands on: Go errors, calls that act on the outside world, and the
-- interfaces of the Kubernetes API client, of SSH and of the libraries that the controllers call.
pub mod Client
pub mod Library
pub mod Fallible
pub mod Codec
pub mod Remote
pub mod Files
use kg.Base.{Bool, Result, ok, err, Text, ◌++◌, ◌≡◌, ◌≢◌, refl, ◌∙◌, ◌⊎◌, inl, inr, arith}

-- What `errors.Is` and the `apierrors` predicates tell apart.
pub data ErrorKind : Type 0 where
  not_found conflict host_key_mismatch exit_status other : ErrorKind

-- `message` is what `err.Error()` returns.
pub record Error : Type 0 where
  pub kind : ErrorKind
  pub message : Text

-- `fmt.Errorf("...: %w", err)` keeps what `errors.Is` finds.
abbrev pub wrap : Text → Error → Error
wrap prefix e = record e { message = prefix ++ e.message }

-- `errors.New`, and `fmt.Errorf` with no wrapped error.
abbrev pub new_error : Text → Error
new_error message = record { kind = other; message = message }

abbrev pub is_not_found : Error → Bool
is_not_found e = elim e.kind [ not_found ↦ Bool.true | _ ↦ Bool.false ]

abbrev pub is_conflict : Error → Bool
is_conflict e = elim e.kind [ conflict ↦ Bool.true | _ ↦ Bool.false ]

abbrev pub is_key_mismatch : Error → Bool
is_key_mismatch e = elim e.kind [ host_key_mismatch ↦ Bool.true | _ ↦ Bool.false ]

abbrev pub is_exit_status : Error → Bool
is_exit_status e = elim e.kind [ exit_status ↦ Bool.true | _ ↦ Bool.false ]

-- A call acts on a world, which stays changed also where the call fails.
abbrev pub Io : Type 0 → Type 0 → Type 0
Io W A = W → Result Error A × W

abbrev pub bind_result : {W A B : Type 0} → Result Error A × W → (A → Io W B) → Result Error B × W
bind_result (ok a, w) f = f a w
bind_result (err e, w) f = (err e, w)

infixl 5 ◌>>=◌ ◌>>◌
abbrev pub ◌>>=◌ : {W A B : Type 0} → Io W A → (A → Io W B) → Io W B
◌>>=◌ m f w = bind_result (m w) f

abbrev pub ◌>>◌ : {W B : Type 0} → Io W (Unit {0}) → Io W B → Io W B
◌>>◌ m k w = bind_result (m w) (λ _. k)

abbrev pub pure : {W A : Type 0} → A → Io W A
pure a w = (ok a, w)

abbrev pub fail : {W A : Type 0} → Error → Io W A
fail e w = (err e, w)

-- The call with its error as a value: what `if err != nil` looks at.
abbrev pub attempt : {W A : Type 0} → Io W A → Io W (Result Error A)
attempt m w = let (r, w') = m w in (ok r, w')

bind_result-eq-ok :
    {W A B : Type 0} (r : Result Error A × W) (f : A → Io W B) {b : B} {w' : W}
    → bind_result r f ≡ (ok b, w')
    → (a : A) × (v : W) × (r ≡ (ok a, v)) × (f a v ≡ (ok b, w'))
bind_result-eq-ok (ok a, v) f h = (a, v, refl, h)
bind_result-eq-ok (err e, v) f h = cc

-- Inversion of a call that succeeds.
pub >>=-eq-ok :
    {W A B : Type 0} (m : Io W A) (f : A → Io W B) (w : W) {b : B} {w' : W}
    → (m >>= f) w ≡ (ok b, w')
    → (a : A) × (v : W) × (m w ≡ (ok a, v)) × (f a v ≡ (ok b, w'))
>>=-eq-ok m f w h = bind_result-eq-ok (m w) f h

bind_result-cases :
    {W A B : Type 0} (m : Result Error A × W) (f : A → Io W B) {r : Result Error B} {v : W}
    → bind_result m f ≡ (r, v)
    → ((e : Error) × (m ≡ (err e, v)) × (r ≡ err e))
      ⊎ ((a : A) × (u : W) × (m ≡ (ok a, u)) × (f a u ≡ (r, v)))
bind_result-cases (ok a, u) f h = inr (a, u, refl, h)
bind_result-cases (err e, u) f h = inl (e, ground arith, ground arith)

-- A sequence ends where its first call fails, or goes on from where that call succeeded.
pub >>=-cases :
    {W A B : Type 0} (m : Io W A) (f : A → Io W B) (w : W) {r : Result Error B} {v : W}
    → (m >>= f) w ≡ (r, v)
    → ((e : Error) × (m w ≡ (err e, v)) × (r ≡ err e))
      ⊎ ((a : A) × (u : W) × (m w ≡ (ok a, u)) × (f a u ≡ (r, v)))
>>=-cases m f w h = bind_result-cases (m w) f h

bind_result-ne :
    {W A B : Type 0} (m : Result Error A × W) (f g : A → Io W B)
    → bind_result m f ≢ bind_result m g
    → (a : A) × (u : W) × (m ≡ (ok a, u)) × (f a u ≢ g a u)
bind_result-ne (ok a, u) f g h = (a, u, refl, h)
bind_result-ne (err e, u) f g h = absurd (h refl)

-- Sequences with one first call that end differently: the call succeeds, and what follows differs.
pub >>=-ne :
    {W A B : Type 0} (m : Io W A) (f g : A → Io W B) (w : W)
    → (m >>= f) w ≢ (m >>= g) w
    → (a : A) × (u : W) × (m w ≡ (ok a, u)) × (f a u ≢ g a u)
>>=-ne m f g w h = bind_result-ne (m w) f g h

abbrev pub wrap_result : {W A : Type 0} → Text → Result Error A × W → Result Error A × W
wrap_result prefix (ok a, w) = (ok a, w)
wrap_result prefix (err e, w) = (err (wrap prefix e), w)

-- `if err != nil { return fmt.Errorf(prefix + ": %w", err) }`
abbrev pub with_context : {W A : Type 0} → Text → Io W A → Io W A
with_context prefix m w = wrap_result prefix (m w)

-- What each call of a sequence keeps the sequence keeps, whether it fails or not.
module _ {W V : Type 0} (look : W → V) where
  abbrev pub Keeps : {A : Type 0} → Io W A → Type 0
  Keeps m = (w : W) → look (m w).1 ≡ look w

  bind_result-Keeps :
      {A B : Type 0} (m : Result Error A × W) (f : A → Io W B)
      → ((a : A) → Keeps (f a))
      → look (bind_result m f).1 ≡ look m.1
  bind_result-Keeps (ok a, u) f h = h a u
  bind_result-Keeps (err e, u) f h = refl

  pub >>=-Keeps :
      {A B : Type 0} (m : Io W A) (f : A → Io W B)
      → Keeps m
      → ((a : A) → Keeps (f a))
      → Keeps (m >>= f)
  >>=-Keeps m f k h w = bind_result-Keeps (m w) f h ∙ k w

  wrap_result-Keeps :
      {A : Type 0} (prefix : Text) (m : Result Error A × W)
      → look (wrap_result prefix m).1 ≡ look m.1
  wrap_result-Keeps prefix (ok a, u) = refl
  wrap_result-Keeps prefix (err e, u) = refl

  pub with_context-Keeps :
      {A : Type 0} (prefix : Text) (m : Io W A) → Keeps m → Keeps (with_context prefix m)
  with_context-Keeps prefix m k w = wrap_result-Keeps prefix (m w) ∙ k w

wrap_result-ok :
    {W A : Type 0} (prefix : Text) (m : Result Error A × W) {a : A} {u : W}
    → wrap_result prefix m ≡ (ok a, u)
    → m ≡ (ok a, u)
wrap_result-ok prefix (ok a, u) h = h
wrap_result-ok prefix (err e, u) h = cc

wrap_result-err :
    {W A : Type 0} (prefix : Text) (m : Result Error A × W) {e : Error} {u : W}
    → wrap_result prefix m ≡ (err e, u)
    → (d : Error) × (m ≡ (err d, u))
wrap_result-err prefix (ok a, u) h = cc
wrap_result-err prefix (err e, u) h = (e, ground arith)

pub with_context-ok :
    {W A : Type 0} (prefix : Text) (m : Io W A) (w : W) {a : A} {u : W}
    → with_context prefix m w ≡ (ok a, u)
    → m w ≡ (ok a, u)
with_context-ok prefix m w = wrap_result-ok prefix (m w)

pub with_context-err :
    {W A : Type 0} (prefix : Text) (m : Io W A) (w : W) {e : Error} {u : W}
    → with_context prefix m w ≡ (err e, u)
    → (d : Error) × (m w ≡ (err d, u))
with_context-err prefix m w = wrap_result-err prefix (m w)
