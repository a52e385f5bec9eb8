-- ===== src/UserAuth/Login/Password.antt =====
-- What a login by password in User_auth_s.cc answers.
use chatroom.Base.{
  ◌≡◌, refl, ap, ◌∙◌, ℕ, Text, text, eq_text, true, [], ◌∷◌, ◌++◌, Option, none, some,
  if◌then◌else◌, Returns, bind_pure, bind_bind, done, Option-cases, inl, inr, Bool-cases,
}
use chatroom.Redis.Documented.{Documented, Kind, hashes, sets, View, with_member}
use chatroom.RedisClient.Kinded.{Kinded}
use chatroom.RedisClient.Keys.{user_key, online_key}
use chatroom.RedisClient.Effects.{user_field_hexists-Does}
use chatroom.RedisClient.Accounts.{get_user_field-Does, add_user_to_online_lists-Does}
use chatroom.UserAuth.State.{Select, LogInRequest, AuthServer, AuthServices, auth_redis, send}
use chatroom.UserAuth.Rules.{bind_redis}
use chatroom.UserAuth.Login.{ser_l, log_in, log_in_by, by_password, check_password}

-- The code of the answer to a password, from the one that is kept.
abbrev pub outcome : Option Text → Text → ℕ
outcome none given = 0
outcome (some kept) given = if eq_text kept given then 1 else 2

-- Only the right password enters the user in the list of those who are online.
abbrev pub entered : Option Text → Text → Text → View → View
entered none given username v = v
entered (some kept) given username v =
    if eq_text kept given then with_member online_key username true v else v

module _ {Db : Type 0} ⦃s : AuthServices Db⦄ (doc : Documented s.redis) (kind_of : Text → Kind)
    (w : AuthServer Db) (cli : ℕ) (loq : LogInRequest) (kinded : Kinded doc kind_of w.db)
    (user_kind : kind_of (user_key loq.username) ≡ hashes)
    (online_kind : kind_of online_key ≡ sets) where
  open doc use {view}

  abbrev kept : Option Text
  unfolding text
  kept = (view w.db).field (user_key loq.username) (text "password")

  -- On a login by password, where the keys hold their kinds of value, LogIn comes to an end. It
  -- sends the code 0 where no password is kept for the name, 1 where the kept one is the given
  -- one, and 2 where it is another; and only with 1 the user enters the set of those who are
  -- online, and the database reads the same otherwise.
  pub log_in_password :
      loq.select ≡ Select.password
      → Returns (log_in cli loq) w (λ _ w'.
        (w'.sent
          ≡ w.sent
            ++ (
              cli,
              ser_l s (
                  outcome
                    ((view w.db).field (user_key loq.username) (text "password"))
                    loq.password),
            )
              ∷ [])
        × (view w'.db
            ≡ entered
                ((view w.db).field (user_key loq.username) (text "password"))
                loq.password
                loq.username
                (view w.db)))
  unfolding log_in log_in_by by_password check_password send
  log_in_password chosen = rw chosen (
      bind_bind _ _ _ (
        bind_redis doc _ _
          (user_field_hexists-Does doc kinded loq.username (text "password") user_kind)
          (λ d1 v1 k1.
            elim (Option-cases ((view w.db).field (user_key loq.username) (text "password"))) [
              | inl unknown ↦ rw unknown (bind_pure _ _ (done _ _ refl (refl, v1)))
              | inr (password, known) ↦ rw known (
                  bind_bind _ _ _ (
                    bind_redis doc _ _
                      (get_user_field-Does doc k1 loq.username (text "password") password user_kind
                        (ap (λ v. v.field (user_key loq.username) (text "password")) v1 ∙ known))
                      (λ d2 v2 k2. elim (Bool-cases (eq_text password loq.password)) [
                        | inl same ↦ rw same (
                            bind_bind _ _ _ (
                              bind_redis doc _ _
                                (add_user_to_online_lists-Does doc k2 loq.username online_kind)
                                (λ d3 v3 k3. bind_pure _ _ (
                                  done _ _ refl (
                                    refl,
                                    v3 ∙ ap (with_member online_key loq.username true) (v2 ∙ v1),
                                  )))))
                        | inr other ↦ rw other (bind_pure _ _ (done _ _ refl (refl, v2 ∙ v1)))
                      ])))
            ])))
