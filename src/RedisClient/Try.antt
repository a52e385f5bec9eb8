-- ===== src/RedisClient/Try.antt =====
-- The body of a `try` block: a command may throw sw::redis::Error, which ends the block. `none` is
-- undefined behaviour inside the block.
use chatroom.Base.{Option, none, some, M}
use chatroom.Redis.{Reply, ok, error}

abbrev pub Try : Type 0 → Type 0 → Type 0
Try Db A = Db → Option (Reply A × Db)

module _ {Db : Type 0} where
  infixl 5 ◌>>=◌ ◌>>◌
  abbrev pub ◌>>=◌ : {A B : Type 0} → Try Db A → (A → Try Db B) → Try Db B
  ◌>>=◌ m f d = elim (m d) [
    | none ↦ none
    | some (ok a, d') ↦ f a d'
    | some (error, d') ↦ some (error, d')
  ]

  abbrev pub ◌>>◌ : {A B : Type 0} → Try Db A → Try Db B → Try Db B
  m >> k = m >>= λ _. k

  abbrev pub return : {A : Type 0} → A → Try Db A
  return a d = some (ok a, d)

  abbrev pub run : {A : Type 0} → (Db → Reply A × Db) → Try Db A
  run command d = some (command d)

  -- *val, which is undefined where there is none
  abbrev pub deref : {A : Type 0} → Option A → Try Db A
  deref none d = none
  deref (some a) d = some (ok a, d)

  -- catch(const sw::redis::Error&) { ...; return fallback; }
  abbrev pub catch : {A : Type 0} → Try Db A → A → M Db A
  catch m fallback d = elim (m d) [
    | none ↦ none
    | some (ok a, d') ↦ some (a, d')
    | some (error, d') ↦ some (fallback, d')
  ]
