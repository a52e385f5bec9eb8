-- ===== src/RedisClient/Accounts.antt =====
-- RedisClient.cc: what the methods that keep accounts do to the database.
use chatroom.Base.{
  ◌≡◌, refl, ap, ◌∙◌, Text, text, eq_text, Bool, true, false, not, List, none, some, ◌==◌, done,
  arith,
}
use chatroom.Redis.{Redis, ok}
use chatroom.Redis.Documented.{
  Documented, Kind, hashes, sets, texts, one_if, with_value, with_fields, with_member, created,
}
use chatroom.RedisClient.Keys.{user_key, online_key}
use chatroom.RedisClient.Users.{
  is_positive, save_user, delete_hash_key, user_field_exists, get_user_field,
  add_user_to_online_lists,
}
use chatroom.RedisClient.Outcomes.{answer, catch-plain}
use chatroom.RedisClient.Kinded.{
  Kinded, Does, Does-run, Does-cast, if_true, fits_at, after_read, after_del, hset-Does, sadd-Does,
}

kinds_apart : eq_text (text "none") (text "hash") ≡ false
unfolding eq_text text
kinds_apart = refl

one_removed : (b : Bool) → (one_if b == 1) ≡ b
one_removed true = refl
one_removed false = refl

module _ {Db : Type 0} ⦃r : Redis Db⦄ (doc : Documented r) {kind_of : Text → Kind} {d : Db}
    (h : Kinded doc kind_of d) where
  open doc use {view}

  -- A name that is taken is refused.
  pub save_user_taken :
      (username : Text) (info : List (Text × Text))
      → doc.live d (user_key username) ≡ true
      → Does doc kind_of (save_user username info) d false (view d)
  unfolding save_user
  save_user_taken username info taken =
      let key = user_key username in
      Does-run _ false doc (r.exists key) (doc.exists_reply key d ∙ ap ok taken) (
        done false _ refl
          (refl, doc.exists_view key d, after_read doc h key (doc.exists_fits key d)))

  pub delete_hash_key-Does :
      (username : Text)
      → Does doc kind_of
          (delete_hash_key username)
          d
          (doc.live d (user_key username))
          (with_value (user_key username) none (view d))
  unfolding delete_hash_key
  delete_hash_key-Does username =
      let key = user_key username in
      Does-run _ false doc (r.del key) (doc.del_reply key d)
        (done _ _ refl (one_removed (doc.live d key), doc.del_view key d, after_del doc h key))

  -- The verification code that is kept for a user.
  pub user_field_exists_lem :
      (username : Text)
      → kind_of username ≡ texts
      → user_field_exists username d ≡ some ((view d).value username, (r.get username d).1)
  unfolding user_field_exists
  user_field_exists_lem username e =
      catch-plain none (r.get username) d
      ∙ ap (λ reply. some (answer (λ a. a) none reply, (r.get username d).1))
          (doc.get_reply username d ∙ if_true _ (fits_at doc h username e))

  pub add_user_to_online_lists-Does :
      (username : Text)
      → kind_of online_key ≡ sets
      → Does doc kind_of
          (add_user_to_online_lists username)
          d
          (not ((view d).member online_key username))
          (with_member online_key username true (view d))
  unfolding add_user_to_online_lists
  add_user_to_online_lists-Does username e = sadd-Does doc h online_key username e

  pub get_user_field-Does :
      (username f value : Text)
      → kind_of (user_key username) ≡ hashes
      → (view d).field (user_key username) f ≡ some value
      → Does doc kind_of (get_user_field username f) d value (view d)
  unfolding get_user_field
  get_user_field-Does username f value e there =
      let key = user_key username in
      let reply = doc.hget_reply key f d ∙ if_true _ (fits_at doc h key e) ∙ ap ok there in
      done value (r.hget key f d).1 (ground arith)
        (refl, doc.hget_view key f d, after_read doc h key (doc.hget_fits key f d))

  -- A name that is free gets its fields.
  pub save_user_free :
      (username : Text) (info : List (Text × Text))
      → kind_of (user_key username) ≡ hashes
      → doc.live d (user_key username) ≡ false
      → Does doc kind_of
          (save_user username info)
          d
          (is_positive (created info ((view d).field (user_key username))))
          (with_fields (user_key username) info (view d))
  unfolding save_user
  save_user_free username info e free =
      let key = user_key username in
      Does-run _ false doc (r.exists key) (doc.exists_reply key d ∙ ap ok free) (
        let h1 = after_read doc h key (doc.exists_fits key d) in
        let free1 = ap (λ l. l key) (doc.exists_live key d) ∙ free in
        let h2 = after_read doc h1 key (doc.type_of_fits key (r.exists key d).1) in
        let seen = doc.type_of_view key (r.exists key d).1 ∙ doc.exists_view key d in
        Does-run _ false doc (r.type_of key) (doc.type_of_absent key _ free1) (
          rw kinds_apart (
            Does-cast doc (ap (λ v. is_positive (created info (v.field key))) seen)
              (ap (with_fields key info) seen) (hset-Does doc h2 key info e))))
