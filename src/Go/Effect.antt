-- ===== src/Go/Effect.antt =====
-- A call that may fail, on a state that is passed along: what it wrote stays written after an
-- error. The state is the one behind the clients that the program holds.
use fluffy_dollop.Base.{◌≡◌, refl, ◌⊎◌, inl, inr, arith}
use fluffy_dollop.Go.Errors.{Error, Site, wrap}

pub data Result (A : Type 0) : Type 0 where
  ok : A → Result A
  err : Error → Result A

pub ok-injective : {A : Type 0} {a b : A} → ok a ≡ ok b → a ≡ b
ok-injective h = ground arith

pub Result-cases :
    {A : Type 0} (r : Result A) → ((a : A) × (r ≡ ok a)) ⊎ ((e : Error) × (r ≡ err e))
Result-cases (ok a) = inl (a, refl)
Result-cases (err e) = inr (e, refl)

abbrev pub Io : Type 0 → Type 0 → Type 0
Io S A = S → Result A × S

module _ {S : Type 0} where
  abbrev pub pure : {A : Type 0} → A → Io S A
  pure a s = (ok a, s)

  abbrev pub fail : {A : Type 0} → Error → Io S A
  fail e s = (err e, s)

  infixl 5 ◌>>=◌ ◌>>◌
  -- `x, err := m; if err != nil { return err }; f x`
  abbrev pub ◌>>=◌ : {A B : Type 0} → Io S A → (A → Io S B) → Io S B
  ◌>>=◌ m f s = let (r, s') = m s in elim r [ ok a ↦ f a s' | err e ↦ (err e, s') ]

  abbrev pub ◌>>◌ : {A B : Type 0} → Io S A → Io S B → Io S B
  m >> k = m >>= λ _. k

  -- The result as a value, for code that looks at the error itself.
  abbrev pub attempt : {A : Type 0} → Io S A → Io S (Result A)
  attempt m s = let (r, s') = m s in (ok r, s')

  -- `fmt.Errorf("<site>: %w", err)` on the error path.
  abbrev pub wrapping : {A : Type 0} → Site → Io S A → Io S A
  wrapping site m s =
      let (r, s') = m s in elim r [ ok a ↦ (ok a, s') | err e ↦ (err (wrap site e), s') ]

  abbrev pub lift_result : {A : Type 0} → Result A → Io S A
  lift_result r s = (r, s)

  -- The second call is made exactly if the first returns no error.
  pub then_ok :
      {A B : Type 0} (m : Io S A) (k : Io S B) (s : S) (a : A)
      → (m s).0 ≡ ok a
      → (m >> k) s ≡ k (m s).1
  then_ok m k s a h = ground arith

  pub then_err :
      {A B : Type 0} (m : Io S A) (k : Io S B) (s : S) (e : Error)
      → (m s).0 ≡ err e
      → (m >> k) s ≡ (err e, (m s).1)
  then_err m k s e h = ground arith

  pub wrapping_ok :
      {A : Type 0} (site : Site) (m : Io S A) (s : S) (a : A)
      → (wrapping site m s).0 ≡ ok a
      → (m s).0 ≡ ok a
  wrapping_ok site m s a h = ground arith

  pub wrapping_state :
      {A : Type 0} (site : Site) (m : Io S A) (s : S) → (wrapping site m s).1 ≡ (m s).1
  wrapping_state site m s = elim (Result-cases (m s).0) [
    | inl (a, good) ↦ ground arith
    | inr (e, bad) ↦ ground arith
  ]
