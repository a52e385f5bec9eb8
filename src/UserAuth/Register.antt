-- ===== src/UserAuth/Register.antt =====
-- User_auth_s.cc: Register_R, Ser_R and R_check. `user_info` is a field of the server, not of the
-- connection.
pub mod Accounts
use chatroom.Base.{
  ℕ, Text, text, Bool, true, false, List, [], ◌∷◌, some, if◌then◌else◌, ◌>>=◌, ◌>>◌, pure,
}
use chatroom.RedisClient.Users.{save_user, delete_hash_key, user_field_exists}
use chatroom.UserAuth.State.{
  Action, Auth, RegisterRequest, RegisterVer, empty_auth, Serve, AuthServer, AuthServices,
  auth_redis, on_redis, send, get_now_text,
}
use chatroom.UserAuth.Codes.{send_verify}
use chatroom.UserAuth.Login.{holds}

unfoldable pub account_fields : RegisterRequest → List (Text × Text)
account_fields req =
    (text "password", req.password) ∷ (text "email", req.email) ∷ (text "phone", req.phone) ∷ []

unfoldable pub ser_r : {Db : Type 0} → AuthServices Db → Bool → Text → Text
ser_r s a msg =
    s.serialize
      (record empty_auth { action = Action.register; res = record { decide = a; msg = msg } })

module _ {Db : Type 0} where
  set_user_info : List (Text × Text) → Serve Db (Unit {0})
  set_user_info info w = some (tt, record w { user_info = info })

  get_user_info : Serve Db (List (Text × Text))
  get_user_info w = some (w.user_info, w)

module _ {Db : Type 0} ⦃s : AuthServices Db⦄ where
  -- The account is saved to see whether it can be, and deleted again, also where it could not.
  unfoldable pub register_r : ℕ → RegisterRequest → Serve Db (Unit {0})
  unfolding set_user_info
  register_r cli req = do
    set_user_info (account_fields req)
    a ← on_redis (save_user req.username (account_fields req))
    on_redis (delete_hash_key req.username)
    send cli (ser_r s a (if a then text "Success!" else text "Fail!"))
    if a then send_verify req.username req.email else pure tt

  unfoldable pub r_check : ℕ → RegisterVer → Serve Db (Unit {0})
  unfolding get_user_info
  r_check cli m = do
    time ← get_now_text
    code ← on_redis (user_field_exists m.username)
    let decide = holds code m.email_msg
    if decide
        then (do info ← get_user_info; on_redis (save_user m.username info); pure tt)
        else pure tt
    send cli (
        s.serialize (record empty_auth {
          action = Action.rverify;
          r_ver = record { email_msg = []; decide = decide; time = time; username = [] };
        }))
