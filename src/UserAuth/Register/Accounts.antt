-- ===== src/UserAuth/Register/Accounts.antt =====
-- What registering in User_auth_s.cc does to the accounts.
use chatroom.Base.{
  ◌≡◌, refl, ap, ◌∙◌, ℕ, Text, text, eq_text_refl, true, false, [], ◌∷◌, ◌++◌, none, some, Returns,
  bind_step, bind_pure, bind_bind, done, pure_step,
}
use chatroom.Redis.Documented.{Documented, Kind, hashes, texts, with_value, with_fields}
use chatroom.RedisClient.Kinded.{Kinded, after_read}
use chatroom.RedisClient.Keys.{user_key}
use chatroom.RedisClient.Accounts.{
  save_user_taken, save_user_free, delete_hash_key-Does, user_field_exists_lem,
}
use chatroom.UserAuth.State.{
  RegisterRequest, RegisterVer, AuthServer, AuthServices, auth_redis, send, get_now_text,
}
use chatroom.UserAuth.Rules.{bind_redis, on_redis_lem}
use chatroom.UserAuth.Register.{
  account_fields, ser_r, register_r, r_check, set_user_info, get_user_info,
}

module _ {Db : Type 0} ⦃s : AuthServices Db⦄ (doc : Documented s.redis) (kind_of : Text → Kind)
    (w : AuthServer Db) (cli : ℕ) (kinded : Kinded doc kind_of w.db) where
  open doc use {view}

  -- Under a name that is taken, Register_R comes to an end, answers a failure, mails nothing and
  -- keeps the fields that were sent, and whatever the account's key held is gone from the
  -- database.
  pub register_r_taken :
      (req : RegisterRequest)
      → doc.live w.db (user_key req.username) ≡ true
      → Returns (register_r cli req) w (λ _ w'.
        (view w'.db ≡ with_value (user_key req.username) none (view w.db))
        × (w'.sent ≡ w.sent ++ (cli, ser_r s false (text "Fail!")) ∷ [])
        × (w'.user_info ≡ account_fields req)
        × (w'.mailed ≡ w.mailed))
  unfolding register_r set_user_info send
  register_r_taken req taken = bind_step (set_user_info (account_fields req)) _ _ _ refl (
      bind_redis doc _ _ (save_user_taken doc kinded req.username (account_fields req) taken)
        (λ d1 v1 k1. bind_redis doc _ _ (delete_hash_key-Does doc k1 req.username) (λ d2 v2 k2.
          bind_step (send cli _) _ _ _ refl (
            pure_step tt
              (v2 ∙ ap (with_value (user_key req.username) none) v1, refl, refl, refl)))))

  -- Where the given code is the kept one, the name is free, and the keys hold their kinds of
  -- value, R_check comes to an end and the account of the name gets the fields that the server
  -- has kept since the last registration on any connection; the database reads the same
  -- otherwise.
  pub r_check_saved :
      (m : RegisterVer)
      → kind_of m.username ≡ texts
      → kind_of (user_key m.username) ≡ hashes
      → (view w.db).value m.username ≡ some m.email_msg
      → doc.live w.db (user_key m.username) ≡ false
      → Returns
          (r_check cli m)
          w
          (λ _ w'. view w'.db ≡ with_fields (user_key m.username) w.user_info (view w.db))
  unfolding r_check get_user_info send get_now_text
  r_check_saved m e e' code free = bind_step get_now_text _ _ _ refl (
      bind_step _ _ _ _ (on_redis_lem _ _ (user_field_exists_lem doc kinded m.username e)) (
        rw (code, eq_text_refl m.email_msg)
          (bind_bind _ _ _ (
            bind_step get_user_info _ _ _ refl (
              bind_bind _ _ _ (
                bind_redis doc _ _
                  (save_user_free doc
                    (after_read doc kinded m.username (doc.get_fits m.username w.db)) m.username
                    w.user_info e'
                    (ap (λ l. l (user_key m.username)) (doc.get_live m.username w.db) ∙ free))
                  (λ d2 v2 k2. bind_pure _ _ (
                    done _ _ refl (
                      v2
                      ∙ ap (with_fields (user_key m.username) w.user_info)
                          (doc.get_view m.username w.db))))))))))
