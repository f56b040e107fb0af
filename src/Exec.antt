-- ===== src/Exec.antt =====
-- How a run of C code ends: with a value, by leaving the program (a failed assertion or `exit`), or
-- in undefined behaviour. Arrays are lists, and a write outside of one is undefined.
use wrensong_http_server.Prelude.{
  ℕ, zero, suc, ◌≤◌, ◌<◌, ◌≡◌, refl, Bool, true, false, if◌then◌else◌, List, [], ◌∷◌, ◌++◌, arith,
  length, append_assoc, length-append,
}
use mathlib.Core.Path.{subst}

pub data Exec {ℓ} (A : Type ℓ) : Type ℓ where
  done : A → Exec A
  quit : Exec A
  fault : Exec A

infixl 5 ◌>>=◌
abbrev pub ◌>>=◌ {ℓ κ} : {A : Type ℓ} {B : Type κ} → Exec A → (A → Exec B) → Exec B
done a >>= f = f a
quit >>= f = quit
fault >>= f = fault

-- What holds of the value, if the run ends with one
abbrev pub Ends {ℓ κ} : {A : Type ℓ} → (A → Type κ) → Exec A → Type κ
Ends P (done a) = P a
Ends P quit = Unit
Ends P fault = Unit

pub Ends-bind {ℓ κ ℓ' κ'} :
    {A : Type ℓ} {B : Type κ} {P : A → Type ℓ'} (Q : B → Type κ') (m : Exec A) (f : A → Exec B)
    → Ends P m
    → ((a : A) → P a → Ends Q (f a))
    → Ends Q (m >>= f)
Ends-bind Q (done a) f h g = g a h
Ends-bind Q quit f h g = tt
Ends-bind Q fault f h g = tt

pub Ends-if {ℓ κ} :
    {A : Type ℓ} (P : A → Type κ) (b : Bool) (x y : Exec A)
    → Ends P x
    → Ends P y
    → Ends P (if b then x else y)
Ends-if P true x y h k = h
Ends-if P false x y h k = k

pub anything {ℓ} : {A : Type ℓ} (m : Exec A) → Ends (λ _. Unit {0}) m
anything (done a) = tt
anything quit = tt
anything fault = tt

pub Ends-any {ℓ κ κ'} :
    {A : Type ℓ} {B : Type κ} (Q : B → Type κ') (m : Exec A) (f : A → Exec B)
    → ((a : A) → Ends Q (f a))
    → Ends Q (m >>= f)
Ends-any Q m f g = Ends-bind Q m f (anything m) (λ a _. g a)

pub Ends-done {ℓ κ} :
    {A : Type ℓ} (P : A → Type κ) (m : Exec A) {a : A} → Ends P m → m ≡ done a → P a
Ends-done P m h e = subst (Ends P) e h

-- The run has no undefined behaviour, leaves the program only where it may, and what holds of the value if
-- it ends with one
abbrev pub Safely {ℓ} : {A : Type ℓ} → Bool → (A → Type 0) → Exec A → Type 0
Safely may P (done a) = P a
Safely may P quit = may ≡ true
Safely may P fault = ⊥

pub Safely-bind {ℓ κ} :
    {A : Type ℓ} {B : Type κ} (may : Bool) {P : A → Type 0} (Q : B → Type 0) (m : Exec A)
    (f : A → Exec B)
    → Safely may P m
    → ((a : A) → P a → Safely may Q (f a))
    → Safely may Q (m >>= f)
Safely-bind may Q (done a) f h g = g a h
Safely-bind may Q quit f h g = h
Safely-bind may Q fault f h g = absurd h

pub Safely-if {ℓ} :
    {A : Type ℓ} (may : Bool) (P : A → Type 0) (b : Bool) (x y : Exec A)
    → (b ≡ true → Safely may P x)
    → (b ≡ false → Safely may P y)
    → Safely may P (if b then x else y)
Safely-if may P true x y h k = h refl
Safely-if may P false x y h k = k refl

pub Safely-mono {ℓ} :
    {A : Type ℓ} (may : Bool) (P Q : A → Type 0) (m : Exec A)
    → ((a : A) → P a → Q a)
    → Safely may P m
    → Safely may Q m
Safely-mono may P Q (done a) f h = f a h
Safely-mono may P Q quit f h = h
Safely-mono may P Q fault f h = h

module _ {ℓ} {A : Type ℓ} where
  -- `p[i] = v` on an array
  unfoldable pub write_at : List A → ℕ → A → Exec (List A)
  write_at [] i v = fault
  write_at (x ∷ xs) zero v = done (v ∷ xs)
  write_at (x ∷ xs) (suc i) v = do ys ← write_at xs i v; done (x ∷ ys)

  -- `memcpy(&p[i], src, n)`, byte by byte
  unfoldable pub memcpy : List A → ℕ → List A → Exec (List A)
  memcpy xs i [] = done xs
  memcpy xs i (v ∷ vs) = do ys ← write_at xs i v; memcpy ys (suc i) vs

  -- A write at the end of a known prefix.
  pub write_at-append :
      (pre : List A) (old v : A) (post : List A)
      → write_at (pre ++ (old ∷ post)) (length pre) v ≡ done (pre ++ (v ∷ post))
  unfolding write_at
  write_at-append [] old v post = refl
  write_at-append (x ∷ pre) old v post = rw (write_at-append pre old v post)

  pub write_at_outside : (xs : List A) (i : ℕ) (v : A) → length xs ≤ i → write_at xs i v ≡ fault
  unfolding write_at
  write_at_outside [] i v h = refl
  write_at_outside (x ∷ xs) zero v h = absurd (omega arith)
  write_at_outside (x ∷ xs) (suc i) v h = rw (write_at_outside xs i v (omega arith))

  -- A write inside of a known prefix
  pub write_at_front :
      (xs zs : List A) (i : ℕ) (v : A)
      → i < length xs
      → (ys : List A) × (write_at (xs ++ zs) i v ≡ done (ys ++ zs)) × (length ys ≡ length xs)
  unfolding write_at
  write_at_front [] zs i v h = absurd (omega arith)
  write_at_front (x ∷ xs) zs zero v h = (v ∷ xs, refl, refl)
  write_at_front (x ∷ xs) zs (suc i) v h =
      let (ys, e, same) = write_at_front xs zs i v (omega arith) in
      (x ∷ ys, rw e, omega (arith, same))

  length-snoc : (xs : List A) (v : A) → length (xs ++ (v ∷ [])) ≡ suc (length xs)
  length-snoc xs v = omega (arith, length-append xs (v ∷ []))

  -- Copying over as many old elements as there are new ones.
  pub memcpy-append :
      (pre old vs post : List A)
      → length old ≡ length vs
      → memcpy (pre ++ (old ++ post)) (length pre) vs ≡ done (pre ++ (vs ++ post))
  unfolding memcpy
  memcpy-append pre [] [] post h = refl
  memcpy-append pre [] (v ∷ vs) post h = absurd (omega arith)
  memcpy-append pre (o ∷ old) [] post h = absurd (omega arith)
  memcpy-append pre (o ∷ old) (v ∷ vs) post h = rw (write_at-append pre o v (old ++ post)) (
      rw
        (
          append_assoc pre (v ∷ []) (old ++ post),
          append_assoc pre (v ∷ []) (vs ++ post),
          length-snoc pre v,
        )
        at (memcpy-append (pre ++ (v ∷ [])) old vs post (omega arith)))
