-- ===== src/Chat/Friends.antt =====
-- Proto/user_chat.proto: the messages about friends, files between two users, and accounts. A field that is not set reads as the empty value.
use chatroom.Base.{Text, Bool, false, List, []}

pub record FriendChatMessage : Type 0 where
  pub from_name : Text
  pub to_name : Text
  pub message : Text
  pub time : Text
  pub block : Bool

abbrev pub empty_friend_chat_message : FriendChatMessage
empty_friend_chat_message = record {
  from_name = [];
  to_name = [];
  message = [];
  time = [];
  block = false;
}

pub record AddFriendRequest : Type 0 where
  pub from_username : Text
  pub to_username : Text
  pub time : Text

abbrev pub empty_add_friend_request : AddFriendRequest
empty_add_friend_request = record { from_username = []; to_username = []; time = [] }

pub record AddFriendResponse : Type 0 where
  pub decide : Bool
  pub from_name : Text
  pub to_name : Text
  pub msg : Text
  pub time : Text

abbrev pub empty_add_friend_response : AddFriendResponse
empty_add_friend_response = record {
  decide = false;
  from_name = [];
  to_name = [];
  msg = [];
  time = [];
}

pub record FriendLists : Type 0 where
  pub friends : List (Text × Bool)
  pub name : Text

abbrev pub empty_friend_lists : FriendLists
empty_friend_lists = record { friends = []; name = [] }

pub record UserRequest : Type 0 where
  pub username : Text
  pub result : List (Text × Text)

abbrev pub empty_user_request : UserRequest
empty_user_request = record { username = []; result = [] }

pub record Login : Type 0 where
  pub login : Bool
  pub username : Text

abbrev pub empty_login : Login
empty_login = record { login = false; username = [] }

pub record DeleteFriendRequest : Type 0 where
  pub from_name : Text
  pub to_name : Text
  pub time : Text

abbrev pub empty_delete_friend_request : DeleteFriendRequest
empty_delete_friend_request = record { from_name = []; to_name = []; time = [] }

pub record DeleteFriendResponse : Type 0 where
  pub result : Bool
  pub username : Text

abbrev pub empty_delete_friend_response : DeleteFriendResponse
empty_delete_friend_response = record { result = false; username = [] }

pub record LoginResponse : Type 0 where
  pub username : Text
  pub result : List (Text × Text)

abbrev pub empty_login_response : LoginResponse
empty_login_response = record { username = []; result = [] }

pub record OfflineMsg : Type 0 where
  pub msg : List Text
  pub name : Text
  pub username : Text

abbrev pub empty_offline_msg : OfflineMsg
empty_offline_msg = record { msg = []; name = []; username = [] }

pub record BlockFriend : Type 0 where
  pub name : Text

abbrev pub empty_block_friend : BlockFriend
empty_block_friend = record { name = [] }

pub record SendFile : Type 0 where
  pub name : Text
  pub file_name : Text
  pub time : Text

abbrev pub empty_send_file : SendFile
empty_send_file = record { name = []; file_name = []; time = [] }

pub record RecvFile : Type 0 where
  pub name : Text
  pub file_name : Text
  pub time : Text

abbrev pub empty_recv_file : RecvFile
empty_recv_file = record { name = []; file_name = []; time = [] }

pub record LookFileRequest : Type 0 where
  pub username : Text
  pub result : List (Text × List Text)

abbrev pub empty_look_file_request : LookFileRequest
empty_look_file_request = record { username = []; result = [] }

pub record DelAccount : Type 0 where
  pub name : Text
  pub group_name : List (Text × Text)
  pub friends : List Text

abbrev pub empty_del_account : DelAccount
empty_del_account = record { name = []; group_name = []; friends = [] }
