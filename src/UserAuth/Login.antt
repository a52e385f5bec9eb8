-- ===== src/UserAuth/Login.antt =====
-- User_auth_s.cc: LogIn, Ser_L and L_check.
pub mod Password
use chatroom.Base.{
  ℕ, Text, text, eq_text, Bool, true, false, [], Option, none, some, if◌then◌else◌, ◌>>=◌, ◌>>◌,
  pure,
}
use chatroom.RedisClient.Users.{
  user_field_hexists, get_user_field, add_user_to_online_lists, user_field_exists,
}
use chatroom.UserAuth.State.{
  Action, Select, Auth, LogInRequest, LoginVer, empty_auth, Serve, AuthServices, auth_redis,
  on_redis, send, get_now_text,
}
use chatroom.UserAuth.Codes.{send_verify}

-- An optional text compared with a text.
abbrev pub holds : Option Text → Text → Bool
holds none t = false
holds (some u) t = eq_text u t

-- The message is serialized, parsed and serialized once more.
unfoldable pub ser_l : {Db : Type 0} → AuthServices Db → ℕ → Text
ser_l s b =
    s.serialize
      (s.parse
        (s.serialize (record empty_auth { action = Action.login; los = record { decide = b } }))).1

module _ {Db : Type 0} ⦃s : AuthServices Db⦄ where
  -- 0: no such user, 1: logged in, 2: another password
  check_password : LogInRequest → Serve Db ℕ
  check_password loq = do
    known ← on_redis (user_field_hexists loq.username (text "password"))
    if known
        then (do
          u_pass ← on_redis (get_user_field loq.username (text "password"))
          if eq_text u_pass loq.password
              then (do on_redis (add_user_to_online_lists loq.username); pure 1)
              else pure 2)
        else pure 0

  by_password : ℕ → LogInRequest → Serve Db (Unit {0})
  unfolding check_password
  by_password cli loq = do b ← check_password loq; send cli (ser_l s b)

  -- By mail nothing is asked of the name and the address, and nothing is answered.
  log_in_by : ℕ → LogInRequest → Select → Serve Db (Unit {0})
  unfolding by_password
  log_in_by cli loq Select.password = by_password cli loq
  log_in_by cli loq _ = send_verify loq.username loq.email

  unfoldable pub log_in : ℕ → LogInRequest → Serve Db (Unit {0})
  unfolding log_in_by
  log_in cli loq = log_in_by cli loq loq.select

  unfoldable pub l_check : ℕ → LoginVer → Serve Db (Unit {0})
  l_check cli m = do
    time ← get_now_text
    code ← on_redis (user_field_exists m.username)
    let decide = holds code m.email_msg
    if decide then (do on_redis (add_user_to_online_lists m.username); pure tt) else pure tt
    send cli (
        s.serialize (record empty_auth {
          action = Action.lverify;
          l_ver = record { decide = decide; email_msg = []; time = time; username = [] };
        }))
