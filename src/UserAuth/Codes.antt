-- ===== src/UserAuth/Codes.antt =====
-- User_auth_s.cc: generate_Ver and Send_verify.
pub mod Digits
use chatroom.Base.{
  ℕ, zero, suc, ◌+◌, Text, text, true, List, [], ◌∷◌, ◌++◌, some, ◌>>=◌, ◌>>◌, pure,
}
use chatroom.RedisClient.Users.{set_key_expire}
use chatroom.UserAuth.State.{Serve, AuthServer, AuthServices, auth_redis, on_redis, draw_digit}

module _ {Db : Type 0} where
  -- sendMail: whether it succeeded is only logged.
  send_mail : Text → Text → Serve Db (Unit {0})
  send_mail to content w = some (tt, record w { mailed = w.mailed ++ (to, content) ∷ [] })

module _ {Db : Type 0} ⦃s : AuthServices Db⦄ where
  -- for(int i = 0; i < 6; i++) code += std::to_string(dis(gen)), for numbers of one digit
  code_rounds : ℕ → Text → Serve Db Text
  code_rounds zero code = pure code
  code_rounds (suc left) code = do d ← draw_digit; code_rounds left (code ++ (b'0' + d) ∷ [])

  unfoldable pub generate_ver : Serve Db Text
  unfolding code_rounds
  generate_ver = code_rounds 6 []

  unfoldable pub send_verify : Text → Text → Serve Db (Unit {0})
  unfolding send_mail
  send_verify username email = do
    code ← generate_ver
    send_mail email (text "Your verification code is " ++ code)
    on_redis (set_key_expire username code 300)
    pure tt
