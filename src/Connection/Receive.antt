-- ===== src/Connection/Receive.antt =====
-- connection.cc: readMessage, from the bytes that were read to the handlers.
pub mod Chunks
use chatroom.Base.{
  ℕ, zero, suc, Text, text, Bool, true, false, List, [], ◌∷◌, ◌++◌, none, some, if◌then◌else◌,
  ◌>>=◌, ◌>>◌, pure, skip, fault, lookup, assign, nat_eq,
}
use chatroom.Chat.{Actions, Group, Part, Chat}
use chatroom.Chat.Fields
use chatroom.World.{Act, Services}
use chatroom.Protocol.{unpack}
use chatroom.Connection.Heart.{check_heart}
use chatroom.Connection.Groups.{add_group, disband_froup}
use chatroom.Connection.Managers.{add_manager, del_manager}
use chatroom.Connection.Members.{add_member, del_member, leave_group}
use chatroom.Connection.Joining.{
  join_group, group_decide, group_notify, group_list, group_choice, group_members,
}
use chatroom.Connection.Chats.{
  send_msg, send_offline_msg, send_online_msg, group_chat, group_chat_list, group_online_chat_list,
}
use chatroom.Connection.Friends.{
  add_friend, send_add_friend, send_delete_friend, send_list, delete_notify, send_user_notify,
  block, unblock,
}
use chatroom.Connection.Files.{
  recv_file, send_file, send_file_req, recv_file_group, send_file_group, send_file_req_group,
}
use chatroom.Connection.Accounts.{add_user_handler, del_account}

abbrev pub fresh_chat : Chat
fresh_chat = record {
  action = Actions.action_quit;
  group = Group.group_quit;
  heart = [];
  parts = [];
}

module _ {Db : Type 0} where
  unfoldable pub buffer_of : ℕ → Act Db Text
  buffer_of fd w = elim (lookup fd w.connections) [ none ↦ none | some c ↦ some (c.buffer, w) ]

  unfoldable pub set_buffer : ℕ → Text → Act Db (Unit {0})
  set_buffer fd buffer w = elim (lookup fd w.connections) [
    | none ↦ none
    | some c ↦
        some (tt, record w { connections = assign fd (record c { buffer = buffer }) w.connections })
  ]

module _ {Db : Type 0} ⦃s : Services Db⦄ where
  -- switch(chat.action())
  unfoldable pub on_action : ℕ → Chat → Actions → Act Db (Unit {0})
  on_action fd chat Actions.login = add_user_handler fd (Fields.get_log chat).username
  on_action fd chat Actions.delaccount = del_account fd (Fields.get_del_account chat)
  on_action fd chat Actions.addfdreq = send_add_friend fd (Fields.get_friend_req chat)
  on_action fd chat Actions.addfdres = add_friend fd (Fields.get_friend_res chat)
  on_action fd chat Actions.userntf = send_user_notify fd (Fields.get_req chat)
  on_action fd chat Actions.fdlist = send_list fd (Fields.get_friends chat)
  on_action fd chat Actions.friendmsg = send_msg fd (Fields.get_chat_fd chat)
  on_action fd chat Actions.unuserntf = delete_notify fd (Fields.get_req chat)
  on_action fd chat Actions.delfdreq = send_delete_friend fd (Fields.get_friend_del_req chat)
  on_action fd chat Actions.offlinemsg = send_offline_msg fd (Fields.get_off_msg chat)
  on_action fd chat Actions.heart = do check_heart fd chat.heart; pure tt
  on_action fd chat Actions.blockfriend = block fd (Fields.get_block_friend chat)
  on_action fd chat Actions.unblockfriend = unblock fd (Fields.get_block_friend chat)
  on_action fd chat Actions.sendfile = send_file fd (Fields.get_send_file chat)
  on_action fd chat Actions.recvfile = recv_file fd (Fields.get_recv_file chat)
  on_action fd chat Actions.lookfile = send_file_req fd
  on_action fd chat Actions.onlinemsg = send_online_msg fd (Fields.get_off_msg chat)
  on_action fd chat _ = skip

  -- switch(chat.group())
  unfoldable pub on_group : ℕ → Chat → Group → Act Db (Unit {0})
  on_group fd chat Group.addgroup = add_group fd (Fields.get_add_group chat)
  on_group fd chat Group.joingroup = join_group fd (Fields.get_join_group chat)
  on_group fd chat Group.grouplist = group_list fd (Fields.get_group_list chat)
  on_group fd chat Group.findreq = group_notify fd
  on_group fd chat Group.joingroupresponse = group_decide fd (Fields.get_join_res chat)
  on_group fd chat Group.choicegroup = group_choice fd (Fields.get_group_choice chat)
  on_group fd chat Group.groupmsg = group_chat fd (Fields.get_group_chat chat)
  on_group fd chat Group.groupmembers = group_members fd (Fields.get_group_members chat)
  on_group fd chat Group.chatgrouplist = group_chat_list fd (Fields.get_chat_list chat)
  on_group fd chat Group.onlinechatmsg = group_online_chat_list fd (Fields.get_chat_list chat)
  on_group fd chat Group.leavegroup = leave_group fd (Fields.get_leave_group chat)
  on_group fd chat Group.addmember = add_member fd (Fields.get_add_member chat)
  on_group fd chat Group.delmember = del_member fd (Fields.get_del_member chat)
  on_group fd chat Group.disbandgroup =
      disband_froup fd (Fields.get_disband_group chat).g_name (Fields.get_disband_group chat).u_name
  on_group fd chat Group.addmanager = add_manager fd (Fields.get_add_manager chat)
  on_group fd chat Group.delmanager = del_manager fd (Fields.get_del_manager chat)
  on_group fd chat Group.sendfilegroup = send_file_group fd (Fields.get_send_file_group chat)
  on_group fd chat Group.recvfilegroup = recv_file_group fd (Fields.get_recv_file_group chat)
  on_group fd chat Group.lookfilegroup =
      send_file_req_group fd (Fields.get_look_file_req_group chat)
  on_group fd chat _ = skip

  -- What one message makes the server do. The result of the heartbeat check is not looked at.
  unfoldable pub handle_chat : ℕ → Chat → Act Db (Unit {0})
  handle_chat fd chat = do
    check_heart fd (text "ping")
    on_action fd chat chat.action
    on_group fd chat chat.group

  -- The second loop of readMessage, with fuel: more rounds than that are not described.
  unfoldable pub read_frames : ℕ → ℕ → Act Db (Unit {0})
  read_frames zero fd = fault
  read_frames (suc fuel) fd = do
    buffer ← buffer_of fd
    let (more, rest, chat) = unpack s.parse buffer fresh_chat
    set_buffer fd rest
    elim more [ true ↦ (do handle_chat fd chat; read_frames fuel fd) | false ↦ skip ]

-- How the first loop of readMessage ended: read() gave 0, or it failed with EAGAIN, or otherwise.
pub data ReadEnd : Type 0 where
  end_of_file would_block read_error : ReadEnd

module _ {Db : Type 0} ⦃s : Services Db⦄ where
  append_chunks : ℕ → List Text → Act Db (Unit {0})
  append_chunks fd [] = skip
  append_chunks fd (chunk ∷ rest) = do
    buffer ← buffer_of fd
    set_buffer fd (buffer ++ chunk)
    append_chunks fd rest

  -- The messages are handled only where the peer has not closed the connection.
  unfoldable pub read_message : ℕ → ℕ → List Text → ReadEnd → Act Db Bool
  unfolding append_chunks
  read_message fuel fd chunks end_of_file = do append_chunks fd chunks; pure false
  read_message fuel fd chunks read_error = do append_chunks fd chunks; pure false
  read_message fuel fd chunks would_block = do
    append_chunks fd chunks
    read_frames fuel fd
    pure true
