-- ===== src/Chat.antt =====
-- Proto/user_chat.proto: the message `Chat`, of which the generated accessors are used. A message is
-- its two enumerations, its heartbeat text and the other fields that are set, each with its value.
pub mod Friends
pub mod Groups
pub mod Fields
pub mod Answers
use chatroom.Base.{ℕ, Text, List, [], ◌∷◌, Option, none, some}
use Friends.{
  FriendChatMessage, AddFriendRequest, AddFriendResponse, FriendLists, UserRequest, Login,
  DeleteFriendRequest, DeleteFriendResponse, LoginResponse, OfflineMsg, BlockFriend, SendFile,
  RecvFile, LookFileRequest, DelAccount,
}
use Groups.{
  AddGroup, JoinGroup, JoinGroupResponse, GroupList, FindRequest, ChoiceGroup, GroupMembers,
  GroupChat, GroupChatList, LeaveGroup, AddMember, DelMember, AddMemberResponse, DelMemberResponse,
  DisbandGroup, AddManager, DelManager, RecvFileGroup, SendFileGroup, LookFileRequestGroup,
}

-- An enumeration of proto3 is open: a number with no name is kept.
pub data Actions : Type 0 where
  action_quit login unlogin addfdreq addfdres heart fdlist friendmsg userntf unuserntf delfdreq
        delfdres response offlinemsg onlinemsg loginlist blockfriend unblockfriend sendfile recvfile
        lookfile delaccount :
      Actions
  other : ℕ → Actions

pub data Group : Type 0 where
  group_quit grouplist addgroup joingroup joingroupresponse findreq choicegroup groupmembers
        groupmsg chatgrouplist onlinechatmsg leavegroup addmember delmember addmemberres
        delmemberres disbandgroup addmanager addmanagerres delmanager delmanagerres sendfilegroup
        recvfilegroup lookfilegroup :
      Group
  other : ℕ → Group

pub data Part : Type 0 where
  chat_fd : FriendChatMessage → Part
  friend_req : AddFriendRequest → Part
  friend_res : AddFriendResponse → Part
  friends : FriendLists → Part
  req : UserRequest → Part
  log : Login → Part
  friend_del_req : DeleteFriendRequest → Part
  friend_del_res : DeleteFriendResponse → Part
  response : LoginResponse → Part
  off_msg : OfflineMsg → Part
  block_friend : BlockFriend → Part
  send_file : SendFile → Part
  recv_file : RecvFile → Part
  file_req : LookFileRequest → Part
  del_account : DelAccount → Part
  add_group : AddGroup → Part
  join_group : JoinGroup → Part
  join_res : JoinGroupResponse → Part
  group_list : GroupList → Part
  group_notify : FindRequest → Part
  group_choice : ChoiceGroup → Part
  group_members : GroupMembers → Part
  group_chat : GroupChat → Part
  chat_list : GroupChatList → Part
  leave_group : LeaveGroup → Part
  add_member : AddMember → Part
  del_member : DelMember → Part
  add_member_res : AddMemberResponse → Part
  del_member_res : DelMemberResponse → Part
  disband_group : DisbandGroup → Part
  add_manager : AddManager → Part
  del_manager : DelManager → Part
  recv_file_group : RecvFileGroup → Part
  send_file_group : SendFileGroup → Part
  look_file_req_group : LookFileRequestGroup → Part

pub record Chat : Type 0 where
  pub action : Actions
  pub group : Group
  pub heart : Text
  pub parts : List Part

-- A message with one action, or one group action, and one more field.
abbrev pub with_action : Actions → Part → Chat
with_action a p = record { action = a; group = Group.group_quit; heart = []; parts = p ∷ [] }

abbrev pub with_group : Group → Part → Chat
with_group g p = record { action = Actions.action_quit; group = g; heart = []; parts = p ∷ [] }

-- The field that a selector knows, or its empty value.
unfoldable pub find_part : {A : Type 0} → (Part → Option A) → A → List Part → A
find_part select empty [] = empty
find_part select empty (p ∷ ps) = elim (select p) [ none ↦ find_part select empty ps | some a ↦ a ]
