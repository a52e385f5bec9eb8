-- ===== src/Client/Receive.antt =====
-- User_chat.cc, send_friends.cc and send_groups.cc: the loops that receive messages, in the menus, in
-- a chat with a friend, and in a group's chat.
use chatroom.Base.{ℕ, zero, suc, Text, text, eq_text, ◌++◌, if◌then◌else◌, ◌>>=◌, ◌>>◌, skip, fault}
use chatroom.Chat.{Actions, Group, Chat}
use chatroom.Chat.Fields
use chatroom.Chat.Answers
use chatroom.RedisClient.Groups.{group_title}
use chatroom.Protocol.{unpack}
use chatroom.Connection.Receive.{fresh_chat}
use chatroom.Client.State.{Ui, ClientServices, say, get, change}
use chatroom.Client.Friends.{
  is_empty, save_friends, print_msg, recv_add_friend, print_add_friend, print_notify, print_friends,
  print_delete, printf_delete_req, print_response, print_offline_msg, print_cancel, print_block,
  print_unblock, print_send_file, print_look_file, print_online_msg,
}
use chatroom.Client.Groups.{
  recv_add_group, decide_join_group, print_join_group, print_group_list, print_group_notify,
  recv_choice_groups, print_group_members, print_group_msg, print_chat_group_list,
  print_leave_group, print_add_member, print_add_res, print_del_member, print_del_res,
  print_disband_group, print_add_manager, print_add_manager_res, print_del_manager,
  print_del_manager_res, print_send_group_file, print_look_group_file, print_online_group_msg,
}

module _ ⦃s : ClientServices⦄ where
  -- switch(chat_msg.action())
  unfoldable pub show_action : Chat → Actions → Ui (Unit {0})
  show_action chat Actions.loginlist =
      save_friends (Fields.get_friends chat) (Fields.get_group_list chat)
  show_action chat Actions.friendmsg = print_msg (Fields.get_chat_fd chat)
  show_action chat Actions.addfdreq = recv_add_friend (Fields.get_friend_req chat)
  show_action chat Actions.addfdres = print_add_friend (Fields.get_friend_res chat)
  show_action chat Actions.userntf = print_notify (Fields.get_req chat)
  show_action chat Actions.fdlist = print_friends (Fields.get_friends chat)
  show_action chat Actions.delfdres = print_delete (Answers.get_friend_del_res chat)
  show_action chat Actions.delfdreq = printf_delete_req (Fields.get_friend_del_req chat)
  show_action chat Actions.response = print_response (Answers.get_response chat)
  show_action chat Actions.offlinemsg = print_offline_msg (Fields.get_off_msg chat)
  show_action chat Actions.unlogin = print_cancel
  show_action chat Actions.blockfriend = print_block (Fields.get_block_friend chat).name
  show_action chat Actions.unblockfriend = print_unblock (Fields.get_block_friend chat).name
  show_action chat Actions.sendfile = print_send_file (Fields.get_send_file chat)
  show_action chat Actions.lookfile = print_look_file (Answers.get_file_req chat)
  show_action chat Actions.onlinemsg = print_online_msg (Fields.get_off_msg chat)
  show_action chat _ = skip

  -- switch(chat_msg.group())
  unfoldable pub show_group : Chat → Group → Ui (Unit {0})
  show_group chat Group.addgroup = recv_add_group (Fields.get_add_group chat)
  show_group chat Group.joingroup = decide_join_group
  show_group chat Group.joingroupresponse = print_join_group (Fields.get_join_res chat)
  show_group chat Group.grouplist = print_group_list (Fields.get_group_list chat)
  show_group chat Group.findreq = print_group_notify (Answers.get_group_notify chat) fresh_chat
  show_group chat Group.choicegroup = recv_choice_groups (Fields.get_group_choice chat)
  show_group chat Group.groupmembers = print_group_members (Fields.get_group_members chat)
  show_group chat Group.groupmsg = print_group_msg (Fields.get_group_chat chat)
  show_group chat Group.chatgrouplist = print_chat_group_list (Fields.get_chat_list chat)
  show_group chat Group.leavegroup = print_leave_group (Fields.get_leave_group chat)
  show_group chat Group.addmember = print_add_member (Fields.get_add_member chat)
  show_group chat Group.addmemberres = print_add_res (Answers.get_add_member_res chat)
  show_group chat Group.delmember =
      print_del_member (Fields.get_del_member chat) (Fields.get_add_member chat)
  show_group chat Group.delmemberres = print_del_res (Answers.get_del_member_res chat)
  show_group chat Group.disbandgroup = print_disband_group (Fields.get_disband_group chat)
  show_group chat Group.addmanager = print_add_manager (Fields.get_add_manager chat)
  show_group chat Group.addmanagerres = print_add_manager_res (Fields.get_add_manager chat)
  show_group chat Group.delmanager = print_del_manager (Fields.get_del_manager chat)
  show_group chat Group.delmanagerres = print_del_manager_res (Fields.get_del_manager chat)
  show_group chat Group.sendfilegroup = print_send_group_file (Fields.get_send_file_group chat)
  show_group chat Group.lookfilegroup = print_look_group_file (Fields.get_look_file_req_group chat)
  show_group chat Group.onlinechatmsg = print_online_group_msg (Fields.get_chat_list chat)
  show_group chat _ = skip

  -- runRecive: what is done with one message
  unfoldable pub show_message : Chat → Ui (Unit {0})
  unfolding show_action show_group
  show_message chat = do show_action chat chat.action; show_group chat chat.group

  -- recive_msg, in a chat with `to_name`: its switch has no case for a message of a friend, and none
  -- for the history of a group.
  unfoldable pub show_in_chat : Text → Chat → Ui (Unit {0})
  unfolding text show_action show_group
  show_in_chat to_name chat = do
    elim chat.action [ Actions.friendmsg ↦ skip | a ↦ show_action chat a ]
    elim chat.group [ Group.onlinechatmsg ↦ skip | g ↦ show_group chat g ]
    let m = Fields.get_chat_fd chat
    if eq_text m.from_name to_name
        then say (text "\u{1b}[36m" ++ (m.message ++ text "\u{1b}[0m"))
        else say (text "\u{1b}[1;32m您收到一条新的未读消息,来自 " ++ (m.from_name ++ text "\u{1b}[0m"))

  -- recv_group_msg: the name is never empty, so every message ends in one of the two branches.
  unfoldable pub show_in_group : Chat → Ui (Unit {0})
  unfolding text show_action show_group
  show_in_group chat = do
    elim chat.action [ Actions.onlinemsg ↦ skip | a ↦ show_action chat a ]
    elim chat.group [ Group.groupmsg ↦ skip | g ↦ show_group chat g ]
    let m = Fields.get_group_chat chat
    let name = group_title m.g_name m.u_name
    current ← get (λ u. u.name)
    if eq_text name current
        then say (text "\u{1b}[36m" ++ (m.msg ++ text "\u{1b}[0m"))
        else if is_empty name
        then skip
        else do
          say (text "\u{1b}[1;33m您收到一条新的未读群消息,来自 \u{1b}[1;32m" ++ (m.username ++ text "\u{1b}[0m"))
          say (text "\u{1b}[1;33m属于群: " ++ (name ++ text "\u{1b}[0m"))

  -- The loop over unpack; the message is kept from one round to the next.
  unfoldable pub take_frames : (Chat → Ui (Unit {0})) → ℕ → Chat → Ui (Unit {0})
  take_frames show zero chat_msg = fault
  take_frames show (suc fuel) chat_msg = do
    msg ← get (λ u. u.msg)
    if is_empty msg then skip else (do
      let (unpacked, rest, chat) = unpack s.parse msg chat_msg
      if unpacked
          then (do change (λ u. record u { msg = rest }); show chat; take_frames show fuel chat)
          else skip)

  -- One call of recv that brought bytes, in runRecive.
  unfoldable pub receive : ℕ → Text → Ui (Unit {0})
  unfolding take_frames show_message
  receive fuel bytes = do
    change (λ u. record u { msg = u.msg ++ bytes })
    take_frames show_message fuel fresh_chat
