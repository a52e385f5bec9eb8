-- ===== src/Connection/Friends.antt =====
-- connection.cc: requests, answers and lists of friends, and blocking.
use chatroom.Base.{
  ℕ, ◌==◌, Text, text, gt_text, Bool, false, List, [], ◌∷◌, ◌++◌, not, if◌then◌else◌, ◌>>=◌, ◌>>◌,
  pure, skip, none, some, lookup, assign, nat_eq, text_eq,
}
use chatroom.Chat.{Actions, Part, Chat, with_action}
use chatroom.Chat.Friends.{
  AddFriendRequest, AddFriendResponse, DeleteFriendRequest, FriendLists, UserRequest, BlockFriend,
  empty_friend_lists, empty_user_request, empty_delete_friend_response,
}
use chatroom.World.{Act, Services, services_redis, on_redis, fds_at, users_at, get_now_text}
use chatroom.RedisClient.Users.{user_field_hexists, set_res_key, get_hash, delete_hash_member}
use chatroom.RedisClient.Lists.{delete_chat_list}
use chatroom.UserManager.{add_friend as make_friends, delete_friend, get_friend}
use chatroom.Connection.Outbox.{post, leave_notice, tell}

-- The name under which the history of a deleted friend is looked for, with no colon.
unfoldable pub joined_name : Text → Text → Text
joined_name a b = if gt_text a b then a ++ b else b ++ a

-- What a friend who is away is left when he is blocked, and when he is unblocked.
unfoldable pub block_notice : Text → Text
unfolding text
block_notice username = username ++ text "\u{1b}[31m已将您屏蔽❌\u{1b}[0m"

unfoldable pub unblock_notice : Text → Text
unfolding text
unblock_notice username = username ++ text "\u{1b}[32m已将您解除屏蔽\u{1b}[0m"

module _ {Db : Type 0} ⦃s : Services Db⦄ where
  -- Seriafdreq and Seriafdres: the sender is the one who is logged in on the socket.
  unfoldable pub seria_fdreq : ℕ → Text → Act Db Chat
  seria_fdreq fd to_name = do
    from_name ← (λ w. some (elim (lookup fd w.fds) [ none ↦ [] | some name ↦ name ], w))
    time ← get_now_text
    pure (
        with_action Actions.addfdreq (
          Part.friend_req
            (record { from_username = from_name; to_username = to_name; time = time })))

  unfoldable pub seria_fdres : ℕ → Text → Text → Text → Bool → Act Db Chat
  seria_fdres fd to_name msg time decide = do
    from_name ← fds_at fd
    pure (
        with_action Actions.addfdres (
          Part.friend_res (record {
            decide = decide;
            from_name = from_name;
            to_name = to_name;
            msg = msg;
            time = time;
          })))

  -- The answer to a request. It is sent to the number 0 too, where the other is not logged in.
  unfoldable pub add_friend : ℕ → AddFriendResponse → Act Db (Unit {0})
  add_friend fd m = do
    time ← get_now_text
    if m.decide then (do make_friends m.from_name m.to_name; pure tt) else skip
    let msg =
        if m.decide
        then m.from_name ++ (text "\u{1b}[36m" ++ text " 同意了您的好友申请！\u{1b}[0m")
        else m.from_name ++ text "\u{1b}[31m 拒绝了您的好友申请...\u{1b}[0m"
    to_fd ← users_at m.to_name
    if to_fd == 0 then (do leave_notice m.to_name msg time; pure tt) else skip
    str ← seria_fdres fd m.to_name msg time m.decide
    post fd to_fd str

  -- A request to a user who does not exist is refused, and then entered all the same.
  unfoldable pub send_add_friend : ℕ → AddFriendRequest → Act Db (Unit {0})
  send_add_friend fd m = do
    known ← on_redis (user_field_hexists m.to_username (text "password"))
    if not known
        then (do
          msg ← seria_fdres fd m.from_username (text "\u{1b}[31m 用户不存在...\u{1b}[0m") m.time false
          post fd fd msg)
        else skip
    let message = (m.from_username, m.time) ∷ []
    to_fd ← users_at m.to_username
    if to_fd == 0
        then (do
          leave_notice m.to_username
              (text "\u{1b}[1;32m"
                ++ (m.from_username ++ text "\u{1b}[0m\u{1b}[33m请求添加你为好友\u{1b}[0m"))
              m.time
          on_redis (set_res_key (text "Friend") m.to_username message)
          pure tt)
        else do
          on_redis (set_res_key (text "Friend") m.to_username message)
          chat ← seria_fdreq fd m.to_username
          post fd to_fd chat

  -- Telling a friend that the friendship is over; the reason differs.
  unfoldable pub tell_deleted : ℕ → Text → Text → Text → Text → Act Db (Unit {0})
  tell_deleted fd from_name to_name reason time = tell fd to_name (from_name ++ reason) time (
      with_action Actions.delfdreq
        (Part.friend_del_req (record { from_name = from_name; to_name = to_name; time = time })))

  unfoldable pub send_delete_friend : ℕ → DeleteFriendRequest → Act Db (Unit {0})
  unfolding tell_deleted
  send_delete_friend fd m = do
    time ← get_now_text
    done ← delete_friend m.from_name m.to_name
    if done
        then (do
          on_redis (delete_chat_list (text "Friend") (joined_name m.from_name m.to_name))
          tell_deleted fd m.from_name m.to_name (text "\u{1b}[31m 已将您删除好友！\u{1b}[0m") time)
        else skip
    post fd fd (
        with_action Actions.delfdres
          (Part.friend_del_res (record empty_delete_friend_response { result = done })))

  -- friends[it] = whether it is logged in
  unfoldable pub online_table : List Text → List (Text × Bool) → Act Db (List (Text × Bool))
  online_table [] table = pure table
  online_table (it ∷ rest) table = do
    user ← users_at it
    online_table rest (assign it (not (user == 0)) table)

  unfoldable pub send_list : ℕ → FriendLists → Act Db (Unit {0})
  unfolding online_table
  send_list fd m = do
    friends ← get_friend m.name
    table ← online_table friends []
    post fd fd
        (with_action Actions.fdlist (Part.friends (record empty_friend_lists { friends = table })))

  unfoldable pub delete_notify : ℕ → UserRequest → Act Db (Unit {0})
  delete_notify fd m = do
    from_name ← fds_at fd
    on_redis (delete_hash_member (text "Friend") from_name m.username)
    pure tt

  unfoldable pub send_user_notify : ℕ → UserRequest → Act Db (Unit {0})
  send_user_notify fd m = do
    result ← on_redis (get_hash (text "Friend") m.username)
    post fd fd
        (with_action Actions.userntf (Part.req (record empty_user_request { result = result })))

  -- The time is read only where a notice is left.
  tell_block : ℕ → Text → Text → Chat → Act Db (Unit {0})
  tell_block fd name notice chat = do
    to_fd ← users_at name
    if to_fd == 0
        then (do time ← get_now_text; leave_notice name notice time; pure tt)
        else post fd to_fd chat

  unfoldable pub block : ℕ → BlockFriend → Act Db (Unit {0})
  unfolding tell_block
  block fd m = do
    username ← fds_at fd
    tell_block fd m.name (block_notice username)
        (with_action Actions.blockfriend (Part.block_friend (record { name = username })))

  unfoldable pub unblock : ℕ → BlockFriend → Act Db (Unit {0})
  unfolding tell_block
  unblock fd m = do
    username ← fds_at fd
    tell_block fd m.name (unblock_notice username)
        (with_action Actions.unblockfriend (Part.block_friend (record { name = username })))
