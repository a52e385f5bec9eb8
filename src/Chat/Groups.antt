-- ===== src/Chat/Groups.antt =====
-- Proto/user_chat.proto: the messages about groups. A field that is not set reads as the empty value.
use chatroom.Base.{Text, Bool, false, List, []}

pub record AddGroup : Type 0 where
  pub username : Text
  pub group_name : Text
  pub time : Text
  pub msg : Text
  pub success : Bool

abbrev pub empty_add_group : AddGroup
empty_add_group = record { username = []; group_name = []; time = []; msg = []; success = false }

pub record JoinGroup : Type 0 where
  pub u_name : Text
  pub g_name : Text
  pub username : Text
  pub decide : Bool
  pub time : Text
  pub msg : Text

abbrev pub empty_join_group : JoinGroup
empty_join_group = record {
  u_name = [];
  g_name = [];
  username = [];
  decide = false;
  time = [];
  msg = [];
}

pub record JoinGroupResponse : Type 0 where
  pub u_name : Text
  pub g_name : Text
  pub username : Text
  pub decide : Bool
  pub time : Text
  pub msg : Text

abbrev pub empty_join_group_response : JoinGroupResponse
empty_join_group_response = record {
  u_name = [];
  g_name = [];
  username = [];
  decide = false;
  time = [];
  msg = [];
}

pub record GroupList : Type 0 where
  pub username : Text
  pub time : Text
  pub groups : List Text

abbrev pub empty_group_list : GroupList
empty_group_list = record { username = []; time = []; groups = [] }

pub record FindRequest : Type 0 where
  pub response : List (Text × Text)

abbrev pub empty_find_request : FindRequest
empty_find_request = record { response = [] }

pub record ChoiceGroup : Type 0 where
  pub u_name : Text
  pub g_name : Text
  pub statue : Text

abbrev pub empty_choice_group : ChoiceGroup
empty_choice_group = record { u_name = []; g_name = []; statue = [] }

pub record GroupMembers : Type 0 where
  pub u_name : Text
  pub g_name : Text
  pub members : List (Text × Text)

abbrev pub empty_group_members : GroupMembers
empty_group_members = record { u_name = []; g_name = []; members = [] }

pub record GroupChat : Type 0 where
  pub msg : Text
  pub username : Text
  pub u_name : Text
  pub g_name : Text

abbrev pub empty_group_chat : GroupChat
empty_group_chat = record { msg = []; username = []; u_name = []; g_name = [] }

pub record GroupChatList : Type 0 where
  pub msg : List Text
  pub u_name : Text
  pub g_name : Text

abbrev pub empty_group_chat_list : GroupChatList
empty_group_chat_list = record { msg = []; u_name = []; g_name = [] }

pub record LeaveGroup : Type 0 where
  pub u_name : Text
  pub g_name : Text
  pub decide : Bool
  pub statue : Text

abbrev pub empty_leave_group : LeaveGroup
empty_leave_group = record { u_name = []; g_name = []; decide = false; statue = [] }

pub record AddMember : Type 0 where
  pub username : Text
  pub u_name : Text
  pub g_name : Text
  pub decide : Bool
  pub msg : Text

abbrev pub empty_add_member : AddMember
empty_add_member = record { username = []; u_name = []; g_name = []; decide = false; msg = [] }

pub record DelMember : Type 0 where
  pub username : Text
  pub u_name : Text
  pub g_name : Text
  pub decide : Bool
  pub msg : Text
  pub statue : Text

abbrev pub empty_del_member : DelMember
empty_del_member = record {
  username = [];
  u_name = [];
  g_name = [];
  decide = false;
  msg = [];
  statue = [];
}

pub record AddMemberResponse : Type 0 where
  pub username : Text
  pub u_name : Text
  pub g_name : Text

abbrev pub empty_add_member_response : AddMemberResponse
empty_add_member_response = record { username = []; u_name = []; g_name = [] }

pub record DelMemberResponse : Type 0 where
  pub username : Text
  pub u_name : Text
  pub g_name : Text
  pub decide : Bool
  pub msg : Text
  pub statue : Text

abbrev pub empty_del_member_response : DelMemberResponse
empty_del_member_response = record {
  username = [];
  u_name = [];
  g_name = [];
  decide = false;
  msg = [];
  statue = [];
}

pub record DisbandGroup : Type 0 where
  pub u_name : Text
  pub g_name : Text

abbrev pub empty_disband_group : DisbandGroup
empty_disband_group = record { u_name = []; g_name = [] }

pub record AddManager : Type 0 where
  pub u_name : Text
  pub g_name : Text
  pub username : Text
  pub msg : Text
  pub decide : Bool

abbrev pub empty_add_manager : AddManager
empty_add_manager = record { u_name = []; g_name = []; username = []; msg = []; decide = false }

pub record DelManager : Type 0 where
  pub u_name : Text
  pub g_name : Text
  pub username : Text
  pub msg : Text
  pub decide : Bool

abbrev pub empty_del_manager : DelManager
empty_del_manager = record { u_name = []; g_name = []; username = []; msg = []; decide = false }

pub record RecvFileGroup : Type 0 where
  pub name : Text
  pub u_name : Text
  pub g_name : Text
  pub file_name : Text
  pub time : Text

abbrev pub empty_recv_file_group : RecvFileGroup
empty_recv_file_group = record { name = []; u_name = []; g_name = []; file_name = []; time = [] }

pub record SendFileGroup : Type 0 where
  pub name : Text
  pub g_name : Text
  pub u_name : Text
  pub file_name : Text
  pub time : Text

abbrev pub empty_send_file_group : SendFileGroup
empty_send_file_group = record { name = []; g_name = []; u_name = []; file_name = []; time = [] }

pub record LookFileRequestGroup : Type 0 where
  pub username : Text
  pub result : List (Text × List Text)
  pub u_name : Text
  pub g_name : Text

abbrev pub empty_look_file_request_group : LookFileRequestGroup
empty_look_file_request_group = record { username = []; result = []; u_name = []; g_name = [] }
