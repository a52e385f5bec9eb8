-- ===== src/RedisClient/Outcomes.antt =====
-- What the methods of RedisClient return, whatever Redis answers: the answer to one command, or the
-- value of the `catch` block.
use chatroom.Base.{◌≡◌, refl, Text, false, some, M}
use chatroom.Redis.{Redis, Reply, ok, error}
use chatroom.RedisClient.Try.{◌>>=◌, return, run, catch}
use chatroom.RedisClient.Keys.{online_key}
use chatroom.RedisClient.Users.{is_positive, add_user_to_online_lists, remove_user_to_online_lists}

-- The value of a `try` block with one command.
abbrev pub answer {ℓ} : {A : Type 0} {B : Type ℓ} → (A → B) → B → Reply A → B
answer f fallback (ok a) = f a
answer f fallback error = fallback

module _ {Db A B : Type 0} (f : A → B) (fallback : B) where
  abbrev attempt : Reply A × Db → M Db B
  attempt result d = catch {Db = Db} ((λ _. some result) >>= λ a. return (f a)) fallback d

  attempt-answer :
      (result : Reply A × Db) (d : Db)
      → attempt result d ≡ some (answer f fallback result.0, result.1)
  attempt-answer (ok a, d') d = refl
  attempt-answer (error, d') d = refl

  pub catch-run :
      (command : Db → Reply A × Db) (d : Db)
      → catch (run command >>= λ a. return (f a)) fallback d
        ≡ some (answer f fallback (command d).0, (command d).1)
  catch-run command d = attempt-answer (command d) d

module _ {Db A : Type 0} (fallback : A) where
  plain-answer :
      (result : Reply A × Db) (d : Db)
      → catch {Db = Db} (λ _. some result) fallback d
        ≡ some (answer (λ a. a) fallback result.0, result.1)
  plain-answer (ok a, d') d = refl
  plain-answer (error, d') d = refl

  -- The value of a `try` block that is one command.
  pub catch-plain :
      (command : Db → Reply A × Db) (d : Db)
      → catch (run command) fallback d
        ≡ some (answer (λ a. a) fallback (command d).0, (command d).1)
  catch-plain command d = plain-answer (command d) d

module _ {Db : Type 0} ⦃r : Redis Db⦄ (u : Text) (d : Db) where
  pub add_user_to_online_lists_lem :
      add_user_to_online_lists u d
      ≡ some (answer is_positive false (r.sadd online_key u d).0, (r.sadd online_key u d).1)
  unfolding add_user_to_online_lists
  add_user_to_online_lists_lem = catch-run is_positive false (r.sadd online_key u) d

  pub remove_user_to_online_lists_lem :
      remove_user_to_online_lists u d
      ≡ some (answer is_positive false (r.srem online_key u d).0, (r.srem online_key u d).1)
  unfolding remove_user_to_online_lists
  remove_user_to_online_lists_lem = catch-run is_positive false (r.srem online_key u) d
