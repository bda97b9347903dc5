-- ===== src/Common/Stateful.antt =====
-- Code on a state that may raise: what it wrote stays written until a transaction rolls it back.
use mathlib.Core.Bool.{Bool, true, false}
use mathlib.Core.List.{List, [], ◌∷◌, ◌++◌}
use mathlib.Core.Option.{Option, none, some}
use daemon_supply_chain.Common.Results.{Error, Result, ok, err}

abbrev pub Stateful : Type 0 → Type 0 → Type 0
Stateful S A = S → Result A × S

module _ {S : Type 0} where
  abbrev pub pure : {A : Type 0} → A → Stateful S A
  pure a s = (ok a, s)

  abbrev pub raise : {A : Type 0} → Error → Stateful S A
  raise e s = (err e, s)

  abbrev pub gets : {A : Type 0} → (S → A) → Stateful S A
  gets f s = (ok (f s), s)

  abbrev pub change : (S → S) → Stateful S (Unit {0})
  change f s = (ok tt, f s)

  abbrev pub lift : {A : Type 0} → Result A → Stateful S A
  lift r s = (r, s)

  abbrev pub continue : {A B : Type 0} → (A → Stateful S B) → Result A → Stateful S B
  continue f (ok a) s = f a s
  continue f (err e) s = (err e, s)

  abbrev pub settle : {A : Type 0} → S → Result A × S → Result A × S
  settle s (ok a, s') = (ok a, s')
  settle s (err e, s') = (err e, s)

  -- `with Database() as db`: an exception rolls back.
  unfoldable pub transaction : {A : Type 0} → Stateful S A → Stateful S A
  transaction m s = settle s (m s)

  -- A row that a query may not find.
  abbrev pub or_raise : {A : Type 0} → Error → Option A → Stateful S A
  or_raise e none = raise e
  or_raise e (some a) = pure a

  -- `if …: raise …`
  abbrev pub raise_if : Bool → Error → Stateful S (Unit {0})
  raise_if true e = raise e
  raise_if false e = pure tt

infixl 5 ◌>>=◌ ◌>>◌
unfoldable pub ◌>>=◌ : {S A B : Type 0} → Stateful S A → (A → Stateful S B) → Stateful S B
◌>>=◌ m f s = continue f (m s).0 (m s).1

unfoldable pub ◌>>◌ : {S A B : Type 0} → Stateful S A → Stateful S B → Stateful S B
m >> k = m >>= λ a. k

-- A loop over a list that gathers what its rounds give.
unfoldable pub each : {S A B : Type 0} → (A → Stateful S (List B)) → List A → Stateful S (List B)
each f [] = pure []
each f (x ∷ xs) = f x >>= λ ys. each f xs >>= λ rest. pure (ys ++ rest)

-- What holds between the state before, the value and the state after, where a value is returned.
abbrev pub Holds {ℓ} : {S A : Type 0} → (S → A → S → Type ℓ) → S → Result A × S → Type ℓ
Holds R s (ok a, s') = R s a s'
Holds R s (err e, s') = Unit

pub Holds-mono {ℓ κ} :
    {S A : Type 0} (R : S → A → S → Type ℓ) (T : S → A → S → Type κ) (s s' : S) (o : Result A × S)
    → ((a : A) (t : S) → R s a t → T s' a t)
    → Holds R s o
    → Holds T s' o
Holds-mono R T s s' (ok a, t) f h = f a t h
Holds-mono R T s s' (err e, t) f h = tt

-- A last piece of code that may raise, and a value behind it.
pub Holds-then_pure {ℓ} :
    {S A B : Type 0} (R : S → B → S → Type ℓ) (s t : S) (r : Result A) (b : B)
    → R s b t
    → Holds R s (continue (λ a. pure b) r t)
Holds-then_pure R s t (ok a) b h = h
Holds-then_pure R s t (err e) b h = tt

pub record Does {ℓ} {S A : Type 0} (R : S → A → S → Type ℓ) (m : Stateful S A) : Type ℓ where
  pub at : (s : S) → Holds R s (m s)

module _ {ℓ κ μ} {S A B : Type 0} (R : S → A → S → Type ℓ) (Q : A → S → B → S → Type κ)
    (T : S → B → S → Type μ) where
  pub Holds-continue :
      (s : S) (r : Result A) (t : S) (f : A → Stateful S B)
      → Holds R s (r, t)
      → ((a : A) → Does (Q a) (f a))
      → ((a : A) (b : B) (u : S) → R s a t → Q a t b u → T s b u)
      → Holds T s (continue f r t)
  Holds-continue s (ok a) t f h k j = follow (f a t) ((k a).at t)
    where
      follow : (o : Result B × S) → Holds (Q a) t o → Holds T s o
      follow (ok b, u) q = j a b u h q
      follow (err e, u) q = tt
  Holds-continue s (err e) t f h k j = tt

  -- One piece of code behind another.
  pub Does-bind :
      (m : Stateful S A) (f : A → Stateful S B)
      → Does R m
      → ((a : A) → Does (Q a) (f a))
      → ((s : S) (a : A) (t : S) (b : B) (u : S) → R s a t → Q a t b u → T s b u)
      → Does T (m >>= f)
  unfolding ◌>>=◌
  Does-bind m f h k j = record {
    at = λ s. Holds-continue s (m s).0 (m s).1 f (h.at s) k (λ a b u. j s a (m s).1 b u);
  }

module _ {S : Type 0} where
  module _ {ℓ} (P : S → Type ℓ) where
    -- Code that leaves a state with the property where it finds one, unless it raises.
    pub record Keeps {A : Type 0} (m : Stateful S A) : Type ℓ where
      pub at : (s : S) → P s → Holds (λ s a t. P t) s (m s)

  module _ {ℓ} (P : S → Type ℓ) where
    pub Keeps-continue :
        {A B : Type 0} (r : Result A) (s t : S) (f : A → Stateful S B)
        → Holds (λ s a t. P t) s (r, t)
        → ((a : A) → Keeps P (f a))
        → Holds (λ s a t. P t) s (continue f r t)
    Keeps-continue (ok a) s t f h k = restate (f a t) ((k a).at t h)
      where
        restate :
            {B : Type 0} (o : Result B × S) → Holds (λ s a t. P t) t o → Holds (λ s a t. P t) s o
        restate (ok b, u) q = q
        restate (err e, u) q = tt
    Keeps-continue (err e) s t f h k = tt

    pub Keeps-bind :
        {A B : Type 0} (m : Stateful S A) (f : A → Stateful S B)
        → Keeps P m
        → ((a : A) → Keeps P (f a))
        → Keeps P (m >>= f)
    unfolding ◌>>=◌
    Keeps-bind m f h k = record { at = λ s p. Keeps-continue (m s).0 s (m s).1 f (h.at s p) k }

    pub Keeps-pure : {A : Type 0} (a : A) → Keeps P (pure a)
    Keeps-pure a = record { at = λ s p. p }

    pub Keeps-gets : {A : Type 0} (f : S → A) → Keeps P (gets f)
    Keeps-gets f = record { at = λ s p. p }

    pub Keeps-raise : {A : Type 0} (e : Error) → Keeps P (raise {A = A} e)
    Keeps-raise e = record { at = λ s p. tt }

    pub Keeps-raise_if : (b : Bool) (e : Error) → Keeps P (raise_if b e)
    Keeps-raise_if true e = Keeps-raise e
    Keeps-raise_if false e = Keeps-pure tt

    pub Keeps-or_raise : {A : Type 0} (e : Error) (o : Option A) → Keeps P (or_raise e o)
    Keeps-or_raise e none = Keeps-raise e
    Keeps-or_raise e (some a) = Keeps-pure a

    pub Keeps-each :
        {A B : Type 0} (f : A → Stateful S (List B)) (xs : List A)
        → ((x : A) → Keeps P (f x))
        → Keeps P (each f xs)
    unfolding each
    Keeps-each f [] h = Keeps-pure []
    Keeps-each f (x ∷ xs) h =
        Keeps-bind _ _ (h x)
          λ ys. Keeps-bind _ _ (Keeps-each f xs h) λ rest. Keeps-pure (ys ++ rest)

    -- A transaction keeps it also where it raises.
    pub transaction-keeps :
        {A : Type 0} (m : Stateful S A) → Keeps P m → (s : S) → P s → P (transaction m s).1
    unfolding transaction
    transaction-keeps m h s p = after (m s) (h.at s p)
      where
        after : {A : Type 0} (o : Result A × S) → Holds (λ s a t. P t) s o → P (settle s o).1
        after (ok a, t) q = q
        after (err e, t) q = p

module _ {ℓ} {S A : Type 0} (R : S → A → S → Type ℓ) where
  pub Holds-settle : (s : S) (o : Result A × S) → Holds R s o → Holds R s (settle s o)
  Holds-settle s (ok a, t) h = h
  Holds-settle s (err e, t) h = tt

  pub Does-transaction : (m : Stateful S A) → Does R m → Does R (transaction m)
  unfolding transaction
  Does-transaction m h = record { at = λ s. Holds-settle s (m s) (h.at s) }
