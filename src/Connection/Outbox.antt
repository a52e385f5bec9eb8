-- ===== src/Connection/Outbox.antt =====
-- The steps that the handlers of connection.cc share.
use chatroom.Base.{ℕ, Text, text, Bool, [], ◌∷◌, ◌==◌, if◌then◌else◌, ◌>>=◌, ◌>>◌, pure}
use chatroom.Chat.{Chat}
use chatroom.World.{Act, Services, services_redis, on_redis, users_at}
use chatroom.RedisClient.Users.{set_res_key}
use chatroom.MessageCenter.{dispatch}
use chatroom.Protocol.{pack}

-- chat.SerializeToString(&n); n = Protocol::pack(n);
unfoldable pub packed : {Db : Type 0} → Services Db → Chat → Text
packed s chat = pack (s.serialize chat)

module _ {Db : Type 0} ⦃s : Services Db⦄ where
  unfoldable pub post : ℕ → ℕ → Chat → Act Db (Unit {0})
  unfolding packed
  post from_fd to_fd chat = dispatch from_fd to_fd (packed s chat)

  -- The notice that a user finds at the next login: _redis.setResKey("Response", name, {{a, time}})
  unfoldable pub leave_notice : Text → Text → Text → Act Db Bool
  unfolding text
  leave_notice name a time = on_redis (set_res_key (text "Response") name ((a, time) ∷ []))

  -- int fd = users[name]; if(fd == 0) { leave a notice } else { send the message }
  unfoldable pub tell : ℕ → Text → Text → Text → Chat → Act Db (Unit {0})
  tell from_fd name notice time chat = do
    to_fd ← users_at name
    if to_fd == 0 then (do leave_notice name notice time; pure tt) else post from_fd to_fd chat
