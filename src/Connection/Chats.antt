-- ===== src/Connection/Chats.antt =====
-- connection.cc: messages to friends and to groups, and their histories.
pub mod Names
pub mod Sending
use chatroom.Base.{
  ℕ, ◌==◌, Text, text, eq_text, gt_text, Bool, true, false, List, [], ◌∷◌, ◌++◌, not, if◌then◌else◌,
  ◌>>=◌, ◌>>◌, pure, skip, none, some, for_each, lookup, nat_eq,
}
use chatroom.Chat.{Actions, Group, Part, Chat, with_action, with_group}
use chatroom.Chat.Friends.{
  FriendChatMessage, OfflineMsg, empty_offline_msg, empty_friend_chat_message,
}
use chatroom.Chat.Groups.{GroupChat, GroupChatList, empty_group_chat_list}
use chatroom.World.{Act, Services, services_redis, on_redis, fds_at, users_at, get_now_text}
use chatroom.RedisClient.Users.{user_hash_hexists}
use chatroom.RedisClient.Groups.{get_group_member, group_title}
use chatroom.RedisClient.Lists.{before_colon, set_chat_list, get_chat_list, get_chat_online_list}
use chatroom.UserManager.{get_group_uuid}
use chatroom.Connection.Outbox.{post, leave_notice, tell}

-- The name of the history of two friends, the greater name first.
unfoldable pub pair_name : Text → Text → Text
unfolding text
pair_name a b = if gt_text a b then a ++ (text ":" ++ b) else b ++ (text ":" ++ a)

module _ {Db : Type 0} ⦃s : Services Db⦄ where
  -- Seriamsg: the sender is the one who is logged in on the socket, if anybody is.
  unfoldable pub seria_msg : ℕ → Text → Text → Text → Act Db Chat
  seria_msg fd to_name msg time w = some (
    with_action Actions.friendmsg (
        Part.chat_fd (record empty_friend_chat_message {
          from_name = elim (lookup fd w.fds) [ none ↦ [] | some name ↦ name ];
          to_name = to_name;
          message = msg;
          time = time;
        })),
    w,
  )

  -- The notice of an unread message is left out where the field was found in the hash of a user
  -- called "message".
  notice_unread : FriendChatMessage → Act Db (Unit {0})
  notice_unread m = do
    seen ← on_redis (user_hash_hexists (text "Response") (text "message") m.from_name)
    if not seen
        then (do
          leave_notice m.to_name
              (text "\u{1b}[1;32m您有新的未读消息, 来自:" ++ (m.from_name ++ text "\u{1b}[0m")) m.time
          pure tt)
        else pure tt

  unfoldable pub send_msg : ℕ → FriendChatMessage → Act Db (Unit {0})
  unfolding notice_unread
  send_msg fd m = do
    let msg = m.from_name ++ (text ":" ++ m.message)
    on_redis (set_chat_list (text "Friend") (pair_name m.from_name m.to_name) msg)
    to_fd ← users_at m.to_name
    if to_fd == 0
        then notice_unread m
        else do chat ← seria_msg fd m.to_name msg m.time; post fd to_fd chat

  -- The whole history that is kept, and its last ten entries.
  unfoldable pub send_offline_msg : ℕ → OfflineMsg → Act Db (Unit {0})
  send_offline_msg fd m = do
    off_lines ← on_redis (get_chat_list (text "Friend") (pair_name m.name m.username))
    post fd fd (
        with_action Actions.offlinemsg
          (Part.off_msg (record empty_offline_msg { msg = off_lines })))

  unfoldable pub send_online_msg : ℕ → OfflineMsg → Act Db (Unit {0})
  send_online_msg fd m = do
    off_lines ← on_redis (get_chat_online_list (text "Friend") (pair_name m.name m.username))
    post fd fd (
        with_action Actions.onlinemsg (Part.off_msg (record empty_offline_msg { msg = off_lines })))

  -- One round of the loop over the members: all but the sender are told.
  pass_on : ℕ → GroupChat → Text → Text → Text → Text → Act Db (Unit {0})
  pass_on fd m username msg time member = do
    let user = before_colon member
    if eq_text user username
        then skip
        else tell fd user
            (text "\u{1b}[33m您有新的未读群消息 ,来自 \u{1b}[1;32m"
              ++ (username
                  ++ (text "\u{1b}[33m群聊:\u{1b}[1;32m"
                      ++ (group_title m.g_name m.u_name ++ text "\u{1b}[0m"))))
            time
            (with_group Group.groupmsg (
              Part.group_chat
                (record { u_name = m.u_name; g_name = m.g_name; username = username; msg = msg })))

  -- Whether the sender is a member is not asked.
  unfoldable pub group_chat : ℕ → GroupChat → Act Db (Unit {0})
  unfolding pass_on
  group_chat fd m = do
    time ← get_now_text
    uuid ← get_group_uuid m.u_name m.g_name
    username ← fds_at fd
    let msg = username ++ (text ":" ++ m.msg)
    on_redis (set_chat_list (text "group") uuid msg)
    members ← on_redis (get_group_member uuid)
    for_each members (pass_on fd m username msg time)

  unfoldable pub group_chat_list : ℕ → GroupChatList → Act Db (Unit {0})
  group_chat_list fd m = do
    uuid ← get_group_uuid m.u_name m.g_name
    username ← fds_at fd
    messages ← on_redis (get_chat_list (text "group") uuid)
    post fd fd (
        with_group Group.chatgrouplist
          (Part.chat_list (record empty_group_chat_list { msg = messages })))

  unfoldable pub group_online_chat_list : ℕ → GroupChatList → Act Db (Unit {0})
  group_online_chat_list fd m = do
    uuid ← get_group_uuid m.u_name m.g_name
    username ← fds_at fd
    messages ← on_redis (get_chat_online_list (text "group") uuid)
    post fd fd (
        with_group Group.onlinechatmsg
          (Part.chat_list (record empty_group_chat_list { msg = messages })))
