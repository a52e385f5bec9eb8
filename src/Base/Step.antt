-- ===== src/Base/Step.antt =====
-- Stateful code: an action reads and changes a state. `none` is undefined behaviour or an
-- exception that nothing catches: what the process does then is not described.
use mathlib.Core.Option.{Option, none, some}
use mathlib.Core.List.{List, [], ◌∷◌}
use mathlib.Core.Path.{◌≡◌, refl, sym, ap, ◌∙◌}
use native.Mathlib.Omega.{arith}

abbrev pub M : Type 0 → Type 0 → Type 0
M S A = S → Option (A × S)

module _ {S : Type 0} where
  unfoldable pub pure : {A : Type 0} → A → M S A
  pure a s = some (a, s)

  unfoldable pub fault : {A : Type 0} → M S A
  fault s = none

  infixl 5 ◌>>=◌ ◌>>◌
  unfoldable pub ◌>>=◌ : {A B : Type 0} → M S A → (A → M S B) → M S B
  ◌>>=◌ m f s = elim (m s) [ none ↦ none | some (a, s') ↦ f a s' ]

  abbrev pub ◌>>◌ : {A B : Type 0} → M S A → M S B → M S B
  m >> k = m >>= λ _. k

  abbrev pub skip : M S (Unit {0})
  skip = pure tt

  -- for(x : xs) body(x)
  unfoldable pub for_each : {A : Type 0} → List A → (A → M S (Unit {0})) → M S (Unit {0})
  for_each [] body = skip
  for_each (x ∷ xs) body = body x >> for_each xs body

-- The action comes to an end, with a result and a state that satisfy `Q`.
pub record Returns {S A : Type 0} (m : M S A) (s : S) (Q : A → S → Type 0) : Type 0 where
  pub result : A
  pub state : S
  pub runs : m s ≡ some (result, state)
  pub holds : Q result state

module _ {S A B : Type 0} (m : M S A) (f : A → M S B) where
  abbrev continue : Option (A × S) → Option (B × S)
  continue none = none
  continue (some (a, s)) = f a s

  bind-continue : (s : S) → (m >>= f) s ≡ continue (m s)
  unfolding ◌>>=◌
  bind-continue s = ground arith

  -- One step of a `do` block, whose outcome is known.
  pub bind_step :
      {s : S} {Q : B → S → Type 0} (a : A) (s' : S)
      → m s ≡ some (a, s')
      → Returns (f a) s' Q
      → Returns (m >>= f) s Q
  bind_step {s} a s' e h = record {
    result = h.result;
    state = h.state;
    runs = bind-continue s ∙ ap continue e ∙ h.runs;
    holds = h.holds;
  }

  pub then_step : {s : S} {a : A} {s' : S} → m s ≡ some (a, s') → (m >>= f) s ≡ f a s'
  then_step {s} e = bind-continue s ∙ ap continue e

  -- A step with which, or after which, the action is undefined.
  pub fault_step :
      {s : S} (a : A) (s' : S) → m s ≡ some (a, s') → f a s' ≡ none → (m >>= f) s ≡ none
  fault_step {s} a s' e h = bind-continue s ∙ ap continue e ∙ h

  pub fault_here : {s : S} → m s ≡ none → (m >>= f) s ≡ none
  fault_here {s} e = bind-continue s ∙ ap continue e

  -- One step of which a fact is known.
  pub bind_after :
      {s : S} {Q : B → S → Type 0} (P : A → S → Type 0)
      → Returns m s P
      → ((a : A) (s' : S) → P a s' → Returns (f a) s' Q)
      → Returns (m >>= f) s Q
  bind_after P h k = bind_step h.result h.state h.runs (k h.result h.state h.holds)

module _ {S A B : Type 0} where
  pub bind_pure :
      (a : A) (f : A → M S B) {s : S} {Q : B → S → Type 0}
      → Returns (f a) s Q
      → Returns (pure a >>= f) s Q
  unfolding pure
  bind_pure a f h = bind_step (pure a) f a _ refl h

module _ {S A B C : Type 0} where
  assoc :
      (m : M S A) (g : A → M S B) (f : B → M S C) (s : S)
      → ((m >>= g) >>= f) s ≡ (m >>= λ a. g a >>= f) s
  unfolding ◌>>=◌
  assoc m g f s = ground arith

  -- A `do` block within another.
  pub bind_bind :
      (m : M S A) (g : A → M S B) (f : B → M S C) {s : S} {Q : C → S → Type 0}
      → Returns (m >>= λ a. g a >>= f) s Q
      → Returns ((m >>= g) >>= f) s Q
  bind_bind m g f {s} h = record {
    result = h.result;
    state = h.state;
    runs = assoc m g f s ∙ h.runs;
    holds = h.holds;
  }

module _ {S A : Type 0} where
  pub pure_step : (a : A) {s : S} {Q : A → S → Type 0} → Q a s → Returns (pure a) s Q
  unfolding pure
  pure_step a {s} h = record { result = a; state = s; runs = refl; holds = h }

  pub done :
      {m : M S A} {s : S} {Q : A → S → Type 0} (a : A) (s' : S)
      → m s ≡ some (a, s')
      → Q a s'
      → Returns m s Q
  done a s' e h = record { result = a; state = s'; runs = e; holds = h }

  pub Returns-mono :
      {m : M S A} {s : S} {P Q : A → S → Type 0}
      → Returns m s P
      → ((a : A) (s' : S) → P a s' → Q a s')
      → Returns m s Q
  Returns-mono h k = record {
    result = h.result;
    state = h.state;
    runs = h.runs;
    holds = k h.result h.state h.holds;
  }

module _ {S A : Type 0} where
  -- The rule of `for_each`: an invariant of the state that every round keeps.
  pub for_each_keeps :
      (P : S → Type 0) (body : A → M S (Unit {0})) (xs : List A)
      → ((x : A) (s : S) → P s → Returns (body x) s (λ _ s'. P s'))
      → (s : S) → P s
      → Returns (for_each xs body) s (λ _ s'. P s')
  unfolding for_each
  for_each_keeps P body [] keep s h = pure_step tt h
  for_each_keeps P body (x ∷ xs) keep s h =
      bind_after (body x) (λ _. for_each xs body) (λ _ s'. P s') (keep x s h)
        (λ _ s' h'. for_each_keeps P body xs keep s' h')

module _ {S A B : Type 0} where
  abbrev Run : (A → M S B) → Option (A × S) → B → S → Type 0
  Run f o b s2 = (a : A) × (s1 : S) × (o ≡ some (a, s1)) × (f a s1 ≡ some (b, s2))

  invert :
      (m : M S A) (f : A → M S B) (o : Option (A × S)) {b : B} {s2 : S}
      → continue m f o ≡ some (b, s2)
      → Run f o b s2
  invert m f none h = absurd (cc)
  invert m f (some (a, s1)) h = (a, s1, refl, h)

  -- What a `do` block that came to an end has done.
  pub bind_inv :
      (m : M S A) (f : A → M S B) (s : S) {b : B} {s2 : S}
      → (m >>= f) s ≡ some (b, s2)
      → (a : A) × (s1 : S) × (m s ≡ some (a, s1)) × (f a s1 ≡ some (b, s2))
  bind_inv m f s h = invert m f (m s) (sym (bind-continue m f s) ∙ h)
