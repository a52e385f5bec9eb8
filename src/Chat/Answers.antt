-- ===== src/Chat/Answers.antt =====
-- The accessors of `Chat` that only the client calls, as the generated code provides them.
use chatroom.Base.{Option, none, some}
use chatroom.Chat.{Chat, Part, find_part}
use chatroom.Chat.Friends.{
  LoginResponse, empty_login_response, DeleteFriendResponse, empty_delete_friend_response,
  LookFileRequest, empty_look_file_request,
}
use chatroom.Chat.Groups.{
  FindRequest, empty_find_request, AddMemberResponse, empty_add_member_response, DelMemberResponse,
  empty_del_member_response,
}

abbrev as_response : Part → Option LoginResponse
as_response (Part.response m) = some m
as_response _ = none

abbrev pub get_response : Chat → LoginResponse
get_response chat = find_part as_response empty_login_response chat.parts

abbrev as_friend_del_res : Part → Option DeleteFriendResponse
as_friend_del_res (Part.friend_del_res m) = some m
as_friend_del_res _ = none

abbrev pub get_friend_del_res : Chat → DeleteFriendResponse
get_friend_del_res chat = find_part as_friend_del_res empty_delete_friend_response chat.parts

abbrev as_file_req : Part → Option LookFileRequest
as_file_req (Part.file_req m) = some m
as_file_req _ = none

abbrev pub get_file_req : Chat → LookFileRequest
get_file_req chat = find_part as_file_req empty_look_file_request chat.parts

abbrev as_group_notify : Part → Option FindRequest
as_group_notify (Part.group_notify m) = some m
as_group_notify _ = none

abbrev pub get_group_notify : Chat → FindRequest
get_group_notify chat = find_part as_group_notify empty_find_request chat.parts

abbrev as_add_member_res : Part → Option AddMemberResponse
as_add_member_res (Part.add_member_res m) = some m
as_add_member_res _ = none

abbrev pub get_add_member_res : Chat → AddMemberResponse
get_add_member_res chat = find_part as_add_member_res empty_add_member_response chat.parts

abbrev as_del_member_res : Part → Option DelMemberResponse
as_del_member_res (Part.del_member_res m) = some m
as_del_member_res _ = none

abbrev pub get_del_member_res : Chat → DelMemberResponse
get_del_member_res chat = find_part as_del_member_res empty_del_member_response chat.parts
