-- ===== src/Client/Groups.antt =====
-- recv_groups.cc: what the client does with the messages about groups.
use chatroom.Base.{Text, text, false, List, [], ◌∷◌, ◌++◌, if◌then◌else◌, ◌>>◌, skip, for_each}
use chatroom.Chat.{Chat}
use chatroom.Chat.Fields.{get_join_group}
use chatroom.Chat.Groups.{
  AddGroup, JoinGroupResponse, GroupList, FindRequest, ChoiceGroup, GroupMembers, GroupChat,
  GroupChatList, LeaveGroup, AddMember, AddMemberResponse, DelMember, DelMemberResponse,
  DisbandGroup, AddManager, DelManager, SendFileGroup, LookFileRequestGroup,
}
use chatroom.RedisClient.Groups.{group_title}
use chatroom.Protocol.{unpack}
use chatroom.Client.State.{Ui, ClientServices, insert, remove, push, say, change}
use chatroom.Client.Friends.{is_empty}

unfoldable pub enter_group : Text → Ui (Unit {0})
enter_group name = change (λ u. record u { user_groups = insert name u.user_groups })

-- user_groups.erase(name); group_exixt = false;
unfoldable pub lose_group : Text → Ui (Unit {0})
lose_group name =
    change (λ u. record u { user_groups = remove name u.user_groups; group_exists = false })

unfoldable pub recv_add_group : AddGroup → Ui (Unit {0})
unfolding enter_group
recv_add_group m = do
  say m.msg
  if m.success then enter_group (group_title m.group_name m.username) else skip

unfoldable pub print_join_group : JoinGroupResponse → Ui (Unit {0})
unfolding text enter_group
print_join_group m =
    if m.decide
    then (do
      say (text "\u{1b}[1;32m您已加入群聊" ++ ((group_title m.g_name m.u_name) ++ text "\u{1b}[0m"))
      enter_group (group_title m.g_name m.u_name))
    else (do say (text "\u{1b}[1;31m❌加入群聊失败\u{1b}[0m"); say m.msg)

unfoldable pub decide_join_group : Ui (Unit {0})
unfolding text
decide_join_group = say (text "\u{1b}[33m您收到一条加群申请,可前往申请界面查看并处理\u{1b}[0m")

unfoldable pub print_group_list : GroupList → Ui (Unit {0})
unfolding text enter_group
print_group_list m =
    if is_empty m.groups
    then say (text "\u{1b}[35m您还没有加入群聊,快去添加吧!\u{1b}[0m")
    else for_each m.groups
        (λ group. do say (text "\u{1b}[1;36m" ++ (group ++ text "\u{1b}[0m")); enter_group group)

unfoldable pub recv_choice_groups : ChoiceGroup → Ui (Unit {0})
unfolding text
recv_choice_groups m = do
  change (λ u. record u {
    name = group_title m.g_name m.u_name;
    statue = m.statue;
    user_name = m.u_name;
    group_name = m.g_name;
  })
  say (text "\u{1b}[1;32m您已进入群聊!\u{1b}[0m")

unfoldable pub print_group_members : GroupMembers → Ui (Unit {0})
unfolding text
print_group_members m = do
  if is_empty m.members then say (text "\u{1b}[34m群聊里没有成员\u{1b}[0m") else skip
  for_each m.members
      (λ entry. say (entry.0 ++ (text "---\u{1b}[1;37m" ++ (entry.1 ++ text "\u{1b}[0m"))))
  say (text "\u{1b}[34m输入 13 安全退出...\u{1b}[0m")

unfoldable pub print_chat_group_list : GroupChatList → Ui (Unit {0})
unfolding text
print_chat_group_list m = do for_each m.msg say; say (text "\u{1b}[34m输入 13 安全退出...\u{1b}[0m")

unfoldable pub print_group_msg : GroupChat → Ui (Unit {0})
unfolding text
print_group_msg m = do
  say (text "\u{1b}[1;33m您收到一条新的未读群消息,来自 \u{1b}[1;32m" ++ (m.username ++ text "\u{1b}[0m"))
  say (text "\u{1b}[1;33m属于群: " ++ ((group_title m.g_name m.u_name) ++ text "\u{1b}[0m"))

unfoldable pub print_leave_group : LeaveGroup → Ui (Unit {0})
unfolding text
print_leave_group m =
    if m.decide
    then (do
      say (text "\u{1b}[32m已成功退出群聊---\u{1b}[0m")
      change (λ u. record u { user_groups = remove u.name u.user_groups }))
    else say (text "\u{1b}[31m退出群聊失败\u{1b}[0m")

unfoldable pub print_add_member : AddMember → Ui (Unit {0})
unfolding text
print_add_member m =
    if m.decide
    then say (text "\u{1b}[32m" ++ (m.username ++ text "已成功进群!\u{1b}[0m"))
    else say m.msg

unfoldable pub print_add_res : AddMemberResponse → Ui (Unit {0})
unfolding text enter_group
print_add_res m = do
  say (
      text "\u{1b}[34m您已被 "
      ++ (m.username ++ (text "拉入群 " ++ ((group_title m.g_name m.u_name) ++ text "\u{1b}[0m"))))
  enter_group (group_title m.g_name m.u_name)

-- The name that is printed is that of another field of the message, which is not set.
unfoldable pub print_del_member : DelMember → AddMember → Ui (Unit {0})
unfolding text
print_del_member m added =
    if m.decide
    then say (text "\u{1b}[32m已成功踢出成员 " ++ (added.username ++ text " !\u{1b}[0m"))
    else say m.msg

unfoldable pub print_del_res : DelMemberResponse → Ui (Unit {0})
unfolding text lose_group
print_del_res m = do
  say (
      text "\u{1b}[34m您已被 "
      ++ (m.username ++ (text "踢出群聊 " ++ ((group_title m.g_name m.u_name) ++ text "\u{1b}[0m"))))
  lose_group (group_title m.g_name m.u_name)

unfoldable pub print_disband_group : DisbandGroup → Ui (Unit {0})
unfolding text lose_group
print_disband_group m = do
  say (text "\u{1b}[34m群聊 " ++ ((group_title m.g_name m.u_name) ++ text " 已被解散\u{1b}[0m"))
  lose_group (group_title m.g_name m.u_name)

unfoldable pub print_add_manager : AddManager → Ui (Unit {0})
unfolding text
print_add_manager m =
    if m.decide
    then say (text "\u{1b}[32m已成功将 " ++ (m.username ++ text " 设为管理员!\u{1b}[0m"))
    else say m.msg

unfoldable pub print_add_manager_res : AddManager → Ui (Unit {0})
unfolding text
print_add_manager_res m = do
  say (text "\u{1b}[34m您已被设为群聊 " ++ ((group_title m.g_name m.u_name) ++ text " 的管理员!\u{1b}[0m"))
  change (λ u. record u { group_exists = false })

unfoldable pub print_del_manager : DelManager → Ui (Unit {0})
unfolding text
print_del_manager m =
    if m.decide
    then say (text "\u{1b}[32m已成功将 " ++ (m.username ++ text " 移除管理员!\u{1b}[0m"))
    else say m.msg

unfoldable pub print_del_manager_res : DelManager → Ui (Unit {0})
unfolding text
print_del_manager_res m = do
  say (text "\u{1b}[34m您已被移除群聊 " ++ ((group_title m.g_name m.u_name) ++ text " 的管理员身份!\u{1b}[0m"))
  change (λ u. record u { group_exists = false })

unfoldable pub print_send_group_file : SendFileGroup → Ui (Unit {0})
unfolding text
print_send_group_file m = do
  say (
      text "\u{1b}[1;33m您有一个未读群文件, 来自群 \u{1b}[1;32m"
      ++ ((group_title m.g_name m.u_name)
          ++ (text " \u{1b}[1;33m的 \u{1b}[1;32m" ++ (m.name ++ text "\u{1b}[0m"))))
  say (text "\u{1b}[34m时间是:" ++ (m.time ++ text "\u{1b}[0m"))

-- One file that a member has sent.
unfoldable pub print_group_file : Text → Text → Ui (Unit {0})
unfolding text
print_group_file friend_name file = do
  say (friend_name ++ (text "   \u{1b}[36m" ++ (file ++ text "\u{1b}[0m")))
  change (λ u. record u { group_files = push friend_name file u.group_files })

unfoldable pub print_look_group_file : LookFileRequestGroup → Ui (Unit {0})
unfolding text print_group_file
print_look_group_file m =
    if is_empty m.result then say (text "\u{1b}[1;33m没有群友发送文件---\u{1b}[0m") else do
      for_each m.result (λ entry. for_each entry.1 (print_group_file entry.0))
      say (text "\u{1b}[1;34m若要处理,请输入 7;\u{1b}[0m")
      say (text "\u{1b}[1;34m若不处理,请输入 13 进行安全退出;\u{1b}[0m")

unfoldable pub print_online_group_msg : GroupChatList → Ui (Unit {0})
unfolding text
print_online_group_msg m = do
  say (text "on")
  for_each m.msg say
  if is_empty m.msg then skip else say (text "\u{1b}[1;34m=======以上是历史消息=======\u{1b}[0m")

module _ ⦃s : ClientServices⦄ where
  -- The loop over the requests to join: each is a packed message, and a failure to unpack one ends
  -- the loop. The message is kept from one round to the next.
  unfoldable pub print_requests : List (Text × Text) → Chat → Ui (Unit {0})
  unfolding text
  print_requests [] chat_group = skip
  print_requests ((user, value) ∷ rest) chat_group =
      let (unpacked, left, chat) = unpack s.parse value chat_group in
      let join_group = get_join_group chat in
      let on = (do
        say (
            text "\u{1b}[1;32m"
            ++ (user
                ++ (text "\u{1b}[34m   "
                    ++ ((group_title join_group.g_name join_group.u_name) ++ text "\u{1b}[0m"))))
        say (text "\u{1b}[34m时间: " ++ (join_group.time ++ text "\u{1b}[0m"))
        print_requests rest chat) in
      if unpacked then on else skip

  unfoldable pub print_group_notify : FindRequest → Chat → Ui (Unit {0})
  unfolding text print_requests
  print_group_notify m fresh =
      if is_empty m.response
      then (do
        say (text "\u{1b}[34m还没有任何加群申请...\u{1b}[0m")
        say (text "\u{1b}[34m已为您安全退出...\u{1b}[0m"))
      else do
        print_requests m.response fresh
        say (text "\u{1b}[34m如果要处理申请,输入 6;\u{1b}[0m")
        say (text "\u{1b}[34m如果不处理申请,输入 13 安全退出;\u{1b}[0m")
