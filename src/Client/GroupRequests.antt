-- ===== src/Client/GroupRequests.antt =====
-- send_groups.cc: the commands about groups. A loop that reads lines takes fuel, a round for each.
use chatroom.Base.{ℕ, Text, text, Bool, not, if◌then◌else◌, ◌==◌, ◌>>=◌, ◌>>◌, skip, pure}
use chatroom.Redis.Documented.{contains}
use chatroom.RedisClient.Groups.{group_title}
use chatroom.Chat.{Group, Part, with_group}
use chatroom.Connection.Receive.{fresh_chat}
use chatroom.Chat.Groups.{
  empty_add_group, empty_join_group, empty_join_group_response, empty_group_list,
  empty_choice_group, empty_group_members, empty_group_chat_list,
}
use chatroom.Client.State.{Ui, ClientServices, say, ask, ask_number, get, send, now}

-- "群主"
unfoldable pub owner_statue : Text
unfolding text
owner_statue = text "群主"

-- What a chosen number says, and whether it leaves the answer's flag set.
abbrev agrees : ℕ → Bool
agrees decide = decide == 1

module _ ⦃s : ClientServices⦄ where
  unfoldable pub send_add_group : Ui (Unit {0})
  unfolding text
  send_add_group = do
    say (text "\u{1b}[34m👋请输入群聊的名字吧:\u{1b}[0m")
    g_name ← ask
    username ← get (λ u. u.username)
    time ← now
    send (
        with_group Group.addgroup (
          Part.add_group
            (record empty_add_group { username = username; group_name = g_name; time = time })))

  -- The user types a group's name and its owner's.
  unfoldable pub ask_names : Text → Ui (Text × Text)
  unfolding text
  ask_names owner = do g_name ← ask; say owner; username ← ask; pure (g_name, username)

  unfoldable pub join_group : Ui (Unit {0})
  unfolding text ask_names
  join_group = do
    say (text "\u{1b}[34m请输入群聊的名字吧👉:\u{1b}[0m")
    (g_name, username) ← ask_names (text "\u{1b}[34m请输入群主的名字吧👉:\u{1b}[0m")
    user_groups ← get (λ u. u.user_groups)
    if contains (group_title g_name username) user_groups
        then (do
          say (text "\u{1b}[31m您已经加入该群聊了! \u{1b}[0m")
          say (text "\u{1b}[34m正在为您退出...\u{1b}[0m"))
        else do
          name ← get (λ u. u.username)
          send (
              with_group Group.joingroup (
                Part.join_group (record empty_join_group {
                  u_name = username;
                  g_name = g_name;
                  username = name;
                })))

  unfoldable pub group_list : Ui (Unit {0})
  group_list = do
    username ← get (λ u. u.username)
    send (
        with_group Group.grouplist
          (Part.group_list (record empty_group_list { username = username })))

  unfoldable pub group_request : Ui (Unit {0})
  group_request = send (record fresh_chat { group = Group.findreq })

  unfoldable pub deny_group : Ui (Unit {0})
  unfolding text
  deny_group = do
    say (text "\u{1b}[31m您未加入该群聊! \u{1b}[0m")
    say (text "\u{1b}[34m正在为您退出...\u{1b}[0m")

  -- Any number but 3 is answered; only 1 agrees.
  unfoldable pub deicde_group_request : Ui (Unit {0})
  unfolding text ask_names deny_group
  deicde_group_request = do
    say (text "\u{1b}[34m请输入群聊的名字吧👉:\u{1b}[0m")
    (g_name, username) ← ask_names (text "\u{1b}[34m请输入群主的名字吧👉:\u{1b}[0m")
    user_groups ← get (λ u. u.user_groups)
    if not (contains (group_title g_name username) user_groups) then deny_group else (do
      say (text "\u{1b}[34m请输入你要处理的名字吧👉:\u{1b}[0m")
      user ← ask
      say (text "\u{1b}[1;37m请选择你的操作: 同意[1] 拒绝[2] 忽视[3]\u{1b}[0m")
      decide ← ask_number
      if decide == 3 then skip else (do
        time ← now
        send (
            with_group Group.joingroupresponse (
              Part.join_res (record empty_join_group_response {
                g_name = g_name;
                u_name = username;
                username = user;
                decide = agrees decide;
                time = time;
              })))))

  -- Up to the menu of the group: whether it is entered.
  unfoldable pub choice_groups : Ui Bool
  unfolding text ask_names deny_group group_list
  choice_groups = do
    group_list
    say (text "\u{1b}[1;37m请输入您要进入的群聊名称:\u{1b}[0m")
    (g_name, username) ← ask_names (text "\u{1b}[34m请输入群主的名称👉:\u{1b}[0m")
    user_groups ← get (λ u. u.user_groups)
    if not (contains (group_title g_name username) user_groups)
        then (do deny_group; pure Bool.false)
        else do
          send (
              with_group Group.choicegroup (
                Part.group_choice
                  (record empty_choice_group { u_name = username; g_name = g_name })))
          pure Bool.true

  unfoldable pub send_group_member : Ui (Unit {0})
  send_group_member = do
    user_name ← get (λ u. u.user_name)
    group_name ← get (λ u. u.group_name)
    send (
        with_group Group.groupmembers (
          Part.group_members
            (record empty_group_members { u_name = user_name; g_name = group_name })))

  -- The request for the history, when the group's chat is entered
  unfoldable pub open_group_chat : Ui (Unit {0})
  open_group_chat = do
    user_name ← get (λ u. u.user_name)
    group_name ← get (λ u. u.group_name)
    send (
        with_group Group.onlinechatmsg (
          Part.chat_list
            (record empty_group_chat_list { u_name = user_name; g_name = group_name })))

  unfoldable pub chat_group_list : Ui (Unit {0})
  chat_group_list = do
    user_name ← get (λ u. u.user_name)
    group_name ← get (λ u. u.group_name)
    send (
        with_group Group.chatgrouplist (
          Part.chat_list
            (record empty_group_chat_list { u_name = user_name; g_name = group_name })))
