-- ===== src/Connection/Accounts.antt =====
-- connection.cc: adduser and del_account.
use chatroom.Base.{
  ℕ, ◌==◌, Text, text, eq_text, not, [], ◌∷◌, if◌then◌else◌, ◌>>=◌, ◌>>◌, pure, skip, for_each,
}
use chatroom.Chat.{Actions, Group, Part, with_action}
use chatroom.Chat.Friends.{DelAccount, empty_friend_lists, empty_login_response}
use chatroom.Chat.Groups.{empty_group_list}
use chatroom.World.{
  Act, Services, services_redis, on_redis, fds_at, users_at, get_now_text, get_now_time,
}
use chatroom.RedisClient.Users.{get_hash, delete_hash, delete_hash_members, delete_hash_key}
use chatroom.RedisClient.Groups.{
  get_group_list, get_group_manager, remove_group_member, remove_group_manager,
}
use chatroom.RedisClient.Lists.{delete_chat_list}
use chatroom.UserManager.{add_user, get_friend, get_group_uuid, delete_friend}
use chatroom.Connection.Outbox.{post}
use chatroom.Connection.Heart.{set_heart_time}
use chatroom.Connection.Friends.{online_table, joined_name, tell_deleted}
use chatroom.Connection.Groups.{with_role, owner_role, member_role, disband_froup}

module _ {Db : Type 0} ⦃s : Services Db⦄ where
  -- Where the user is logged in already, the new connection is sent UNLOGIN, and then goes on.
  warn_relogin : ℕ → Text → Act Db (Unit {0})
  warn_relogin fd username = do
    old ← users_at username
    if not (old == 0)
        then post fd fd
            (record { action = Actions.unlogin; group = Group.group_quit; heart = []; parts = [] })
        else skip

  -- The lists of friends and groups.
  greet : ℕ → Text → Act Db (Unit {0})
  greet fd username = do
    friends ← get_friend username
    table ← online_table friends []
    groups ← on_redis (get_group_list username)
    post fd fd (record {
      action = Actions.loginlist;
      group = Group.group_quit;
      heart = [];
      parts =
          Part.friends (record empty_friend_lists { friends = table })
          ∷ Part.group_list (record empty_group_list { groups = groups })
          ∷ [];
    })

  unfoldable pub add_user_handler : ℕ → Text → Act Db (Unit {0})
  unfolding warn_relogin greet
  add_user_handler fd username = do
    warn_relogin fd username
    add_user fd username
    greet fd username
    result ← on_redis (get_hash (text "Response") username)
    post fd fd (
        with_action Actions.response
          (Part.response (record empty_login_response { result = result })))
    on_redis (delete_hash (text "Response") username)
    now ← get_now_time
    set_heart_time fd now

  -- One round of the loop over the groups: the owner's are disbanded, the others are left.
  quit_group : ℕ → Text → Text × Text → Act Db (Unit {0})
  quit_group fd username (g_name, u_name) = do
    uuid ← get_group_uuid u_name g_name
    status ← on_redis (get_group_manager uuid username)
    if eq_text status owner_role then disband_froup fd g_name u_name else do
      on_redis (remove_group_member uuid (with_role username member_role))
      on_redis (remove_group_manager uuid username)
      pure tt

  -- One round of the loop over the friends.
  part_from : ℕ → Text → Text → Act Db (Unit {0})
  part_from fd username friend_name = do
    time ← get_now_text
    delete_friend username friend_name
    on_redis (delete_chat_list (text "Friend") (joined_name username friend_name))
    tell_deleted fd username friend_name (text "\u{1b}[31m 已注销，你们不再是好友了！\u{1b}[0m") time

  unfoldable pub del_account : ℕ → DelAccount → Act Db (Unit {0})
  unfolding quit_group part_from
  del_account fd m = do
    username ← fds_at fd
    for_each m.group_name (quit_group fd username)
    for_each m.friends (part_from fd username)
    on_redis (delete_hash_members (text "Friend") username)
    on_redis (delete_hash_key username)
    pure tt
