-- ===== src/Chat/Fields.antt =====
-- The accessors of `Chat` that the server calls, as the generated code provides them.
use chatroom.Base.{Option, none, some}
use chatroom.Chat.{Chat, Part, find_part}
use chatroom.Chat.Friends.{
  FriendChatMessage, empty_friend_chat_message, AddFriendRequest, empty_add_friend_request,
  AddFriendResponse, empty_add_friend_response, FriendLists, empty_friend_lists, UserRequest,
  empty_user_request, Login, empty_login, DeleteFriendRequest, empty_delete_friend_request,
  OfflineMsg, empty_offline_msg, BlockFriend, empty_block_friend, SendFile, empty_send_file,
  RecvFile, empty_recv_file, DelAccount, empty_del_account,
}
use chatroom.Chat.Groups.{
  AddGroup, empty_add_group, JoinGroup, empty_join_group, JoinGroupResponse,
  empty_join_group_response, GroupList, empty_group_list, ChoiceGroup, empty_choice_group,
  GroupMembers, empty_group_members, GroupChat, empty_group_chat, GroupChatList,
  empty_group_chat_list, LeaveGroup, empty_leave_group, AddMember, empty_add_member, DelMember,
  empty_del_member, DisbandGroup, empty_disband_group, AddManager, empty_add_manager, DelManager,
  empty_del_manager, RecvFileGroup, empty_recv_file_group, SendFileGroup, empty_send_file_group,
  LookFileRequestGroup, empty_look_file_request_group,
}

abbrev as_add_group : Part → Option AddGroup
as_add_group (Part.add_group m) = some m
as_add_group _ = none

abbrev pub get_add_group : Chat → AddGroup
get_add_group chat = find_part as_add_group empty_add_group chat.parts

abbrev as_join_group : Part → Option JoinGroup
as_join_group (Part.join_group m) = some m
as_join_group _ = none

abbrev pub get_join_group : Chat → JoinGroup
get_join_group chat = find_part as_join_group empty_join_group chat.parts

abbrev as_join_res : Part → Option JoinGroupResponse
as_join_res (Part.join_res m) = some m
as_join_res _ = none

abbrev pub get_join_res : Chat → JoinGroupResponse
get_join_res chat = find_part as_join_res empty_join_group_response chat.parts

abbrev as_group_list : Part → Option GroupList
as_group_list (Part.group_list m) = some m
as_group_list _ = none

abbrev pub get_group_list : Chat → GroupList
get_group_list chat = find_part as_group_list empty_group_list chat.parts

abbrev as_group_choice : Part → Option ChoiceGroup
as_group_choice (Part.group_choice m) = some m
as_group_choice _ = none

abbrev pub get_group_choice : Chat → ChoiceGroup
get_group_choice chat = find_part as_group_choice empty_choice_group chat.parts

abbrev as_group_members : Part → Option GroupMembers
as_group_members (Part.group_members m) = some m
as_group_members _ = none

abbrev pub get_group_members : Chat → GroupMembers
get_group_members chat = find_part as_group_members empty_group_members chat.parts

abbrev as_group_chat : Part → Option GroupChat
as_group_chat (Part.group_chat m) = some m
as_group_chat _ = none

abbrev pub get_group_chat : Chat → GroupChat
get_group_chat chat = find_part as_group_chat empty_group_chat chat.parts

abbrev as_chat_list : Part → Option GroupChatList
as_chat_list (Part.chat_list m) = some m
as_chat_list _ = none

abbrev pub get_chat_list : Chat → GroupChatList
get_chat_list chat = find_part as_chat_list empty_group_chat_list chat.parts

abbrev as_leave_group : Part → Option LeaveGroup
as_leave_group (Part.leave_group m) = some m
as_leave_group _ = none

abbrev pub get_leave_group : Chat → LeaveGroup
get_leave_group chat = find_part as_leave_group empty_leave_group chat.parts

abbrev as_add_member : Part → Option AddMember
as_add_member (Part.add_member m) = some m
as_add_member _ = none

abbrev pub get_add_member : Chat → AddMember
get_add_member chat = find_part as_add_member empty_add_member chat.parts

abbrev as_del_member : Part → Option DelMember
as_del_member (Part.del_member m) = some m
as_del_member _ = none

abbrev pub get_del_member : Chat → DelMember
get_del_member chat = find_part as_del_member empty_del_member chat.parts

abbrev as_disband_group : Part → Option DisbandGroup
as_disband_group (Part.disband_group m) = some m
as_disband_group _ = none

abbrev pub get_disband_group : Chat → DisbandGroup
get_disband_group chat = find_part as_disband_group empty_disband_group chat.parts

abbrev as_add_manager : Part → Option AddManager
as_add_manager (Part.add_manager m) = some m
as_add_manager _ = none

abbrev pub get_add_manager : Chat → AddManager
get_add_manager chat = find_part as_add_manager empty_add_manager chat.parts

abbrev as_del_manager : Part → Option DelManager
as_del_manager (Part.del_manager m) = some m
as_del_manager _ = none

abbrev pub get_del_manager : Chat → DelManager
get_del_manager chat = find_part as_del_manager empty_del_manager chat.parts

abbrev as_recv_file_group : Part → Option RecvFileGroup
as_recv_file_group (Part.recv_file_group m) = some m
as_recv_file_group _ = none

abbrev pub get_recv_file_group : Chat → RecvFileGroup
get_recv_file_group chat = find_part as_recv_file_group empty_recv_file_group chat.parts

abbrev as_send_file_group : Part → Option SendFileGroup
as_send_file_group (Part.send_file_group m) = some m
as_send_file_group _ = none

abbrev pub get_send_file_group : Chat → SendFileGroup
get_send_file_group chat = find_part as_send_file_group empty_send_file_group chat.parts

abbrev as_look_file_req_group : Part → Option LookFileRequestGroup
as_look_file_req_group (Part.look_file_req_group m) = some m
as_look_file_req_group _ = none

abbrev pub get_look_file_req_group : Chat → LookFileRequestGroup
get_look_file_req_group chat =
    find_part as_look_file_req_group empty_look_file_request_group chat.parts

abbrev as_chat_fd : Part → Option FriendChatMessage
as_chat_fd (Part.chat_fd m) = some m
as_chat_fd _ = none

abbrev pub get_chat_fd : Chat → FriendChatMessage
get_chat_fd chat = find_part as_chat_fd empty_friend_chat_message chat.parts

abbrev as_friend_req : Part → Option AddFriendRequest
as_friend_req (Part.friend_req m) = some m
as_friend_req _ = none

abbrev pub get_friend_req : Chat → AddFriendRequest
get_friend_req chat = find_part as_friend_req empty_add_friend_request chat.parts

abbrev as_friend_res : Part → Option AddFriendResponse
as_friend_res (Part.friend_res m) = some m
as_friend_res _ = none

abbrev pub get_friend_res : Chat → AddFriendResponse
get_friend_res chat = find_part as_friend_res empty_add_friend_response chat.parts

abbrev as_friends : Part → Option FriendLists
as_friends (Part.friends m) = some m
as_friends _ = none

abbrev pub get_friends : Chat → FriendLists
get_friends chat = find_part as_friends empty_friend_lists chat.parts

abbrev as_req : Part → Option UserRequest
as_req (Part.req m) = some m
as_req _ = none

abbrev pub get_req : Chat → UserRequest
get_req chat = find_part as_req empty_user_request chat.parts

abbrev as_log : Part → Option Login
as_log (Part.log m) = some m
as_log _ = none

abbrev pub get_log : Chat → Login
get_log chat = find_part as_log empty_login chat.parts

abbrev as_friend_del_req : Part → Option DeleteFriendRequest
as_friend_del_req (Part.friend_del_req m) = some m
as_friend_del_req _ = none

abbrev pub get_friend_del_req : Chat → DeleteFriendRequest
get_friend_del_req chat = find_part as_friend_del_req empty_delete_friend_request chat.parts

abbrev as_off_msg : Part → Option OfflineMsg
as_off_msg (Part.off_msg m) = some m
as_off_msg _ = none

abbrev pub get_off_msg : Chat → OfflineMsg
get_off_msg chat = find_part as_off_msg empty_offline_msg chat.parts

abbrev as_block_friend : Part → Option BlockFriend
as_block_friend (Part.block_friend m) = some m
as_block_friend _ = none

abbrev pub get_block_friend : Chat → BlockFriend
get_block_friend chat = find_part as_block_friend empty_block_friend chat.parts

abbrev as_send_file : Part → Option SendFile
as_send_file (Part.send_file m) = some m
as_send_file _ = none

abbrev pub get_send_file : Chat → SendFile
get_send_file chat = find_part as_send_file empty_send_file chat.parts

abbrev as_recv_file : Part → Option RecvFile
as_recv_file (Part.recv_file m) = some m
as_recv_file _ = none

abbrev pub get_recv_file : Chat → RecvFile
get_recv_file chat = find_part as_recv_file empty_recv_file chat.parts

abbrev as_del_account : Part → Option DelAccount
as_del_account (Part.del_account m) = some m
as_del_account _ = none

abbrev pub get_del_account : Chat → DelAccount
get_del_account chat = find_part as_del_account empty_del_account chat.parts
