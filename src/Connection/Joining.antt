-- ===== src/Connection/Joining.antt =====
-- connection.cc: join_group, group_decide, and the handlers that only read about a group.
use chatroom.Base.{
  ℕ, Text, text, eq_text, Bool, true, false, List, [], ◌∷◌, ◌++◌, if◌then◌else◌, ◌>>=◌, ◌>>◌, pure,
  for_each, assign, text_eq, not,
}
use chatroom.Chat.{Group, Part, with_group}
use chatroom.Chat.Groups.{
  JoinGroup, JoinGroupResponse, GroupList, ChoiceGroup, GroupMembers, empty_join_group,
  empty_join_group_response, empty_group_list, empty_group_members,
}
use chatroom.World.{Act, Services, services_redis, on_redis, fds_at, get_now_text}
use chatroom.RedisClient.Users.{user_field_hexists}
use chatroom.RedisClient.Groups.{
  set_group_member, user_set_groups, get_group_managers, get_group_member, get_group_list,
  group_exists, group_title, set_group_notify, get_group_notify, del_group_notify,
}
use chatroom.RedisClient.Lists.{before_colon, after_colon}
use chatroom.UserManager.{get_group_uuid}
use chatroom.Connection.Outbox.{packed, post, tell}
use chatroom.Connection.Groups.{with_role, member_role}

abbrev decision : JoinGroupResponse → Text → Bool → Text → JoinGroupResponse
decision m time decide a = record empty_join_group_response {
  u_name = m.u_name;
  g_name = m.g_name;
  time = time;
  decide = decide;
  msg = a;
}

-- The loop over the managers: the last entry with the name gives the role.
role_among : Text → Text → List (Text × Text) → Text
role_among username statue [] = statue
role_among username statue ((user, found) ∷ rest) =
    role_among username (if eq_text user username then found else statue) rest

-- members[a] = b for each entry "a:b"
member_table : List Text → List (Text × Text) → List (Text × Text)
member_table [] table = table
member_table (member ∷ rest) table =
    member_table rest (assign (before_colon member) (after_colon member) table)

module _ {Db : Type 0} ⦃s : Services Db⦄ where
  -- One round of the loop over the managers: the request is kept for each, and told to each.
  ask_manager : ℕ → JoinGroup → Text × Text → Act Db (Unit {0})
  ask_manager fd request (user, statue) = do
    let chat = with_group Group.joingroup (Part.join_group request)
    on_redis (set_group_notify user ((request.username, packed s chat) ∷ []))
    tell fd user
        (text "\u{1b}[33m您收到一条加群申请 ,来自 \u{1b}[1;32m" ++ (request.username ++ text "\u{1b}[0m"))
        request.time chat

  unfoldable pub join_group : ℕ → JoinGroup → Act Db (Unit {0})
  unfolding ask_manager
  join_group fd m = do
    username ← fds_at fd
    there ← on_redis (group_exists m.u_name m.g_name)
    if not there
        then post fd fd (
            with_group Group.joingroupresponse (
              Part.join_res (record empty_join_group_response {
                u_name = m.u_name;
                g_name = m.g_name;
                username = username;
                decide = false;
                msg = text "\u{1b}[1;31m原因: 群聊不存在\u{1b}[0m";
              })))
        else do
          time ← get_now_text
          uuid ← get_group_uuid m.u_name m.g_name
          managers ← on_redis (get_group_managers uuid)
          for_each managers (
              ask_manager fd (record empty_join_group {
                u_name = m.u_name;
                g_name = m.g_name;
                username = username;
                time = time;
              }))

  -- `user` is entered as a member of the group.
  admit : JoinGroupResponse → Text → Act Db (Unit {0})
  admit m uuid = do
    on_redis (set_group_member uuid (with_role m.username member_role))
    on_redis (user_set_groups m.username m.u_name m.g_name)
    pure tt

  -- What follows the branches on the manager's decision: the request is deleted for every manager,
  -- and the user is told, once more in the light of whether the group still exists.
  settle : ℕ → JoinGroupResponse → Text → Text → Bool → Text → Act Db (Unit {0})
  settle fd m uuid time decide a = do
    managers ← on_redis (get_group_managers uuid)
    for_each managers (λ entry. do on_redis (del_group_notify entry.0 m.username); pure tt)
    there ← on_redis (group_exists m.u_name m.g_name)
    let message = if there then a else text "\u{1b}[1;31m\n群聊不存在了\u{1b}[0m"
    let holds = if there then decide else false
    tell fd m.username message time
        (with_group Group.joingroupresponse (Part.join_res (decision m time holds message)))

  unfoldable pub group_decide : ℕ → JoinGroupResponse → Act Db (Unit {0})
  unfolding admit settle text
  group_decide fd m = do
    username ← fds_at fd
    uuid ← get_group_uuid m.u_name m.g_name
    time ← get_now_text
    let name = group_title m.g_name m.u_name
    if m.decide
        then (do
          known ← on_redis (user_field_hexists m.username (text "password"))
          if not known
              then post fd fd (
                  with_group Group.joingroupresponse (
                    Part.join_res
                      (decision m time false (text "\u{1b}[1;31m\n用户已注销或不存在\u{1b}[0m"))))
              else do
                admit m uuid
                settle fd m uuid time true (
                    text "\u{1b}[33m您被通过了加群申请 ,来自 \u{1b}[1;32m"
                    ++ (username
                        ++ (text "\u{1b}[33m 您现在是 \u{1b}[1;32m"
                            ++ (name ++ text " 中的一员了!\u{1b}[0m")))))
        else settle fd m uuid time false (
            text "\u{1b}[31m您被拒绝了加群申请 ,来自 \u{1b}[1;32m"
            ++ (username ++ (text "\u{1b}[33m 群聊: \u{1b}[1;32m" ++ (name ++ text "\u{1b}[0m"))))

  unfoldable pub group_notify : ℕ → Act Db (Unit {0})
  group_notify fd = do
    username ← fds_at fd
    notify ← on_redis (get_group_notify username)
    post fd fd (with_group Group.findreq (Part.group_notify (record { response = notify })))

  unfoldable pub group_list : ℕ → GroupList → Act Db (Unit {0})
  group_list fd m = do
    groups ← on_redis (get_group_list m.username)
    post fd fd
        (with_group Group.grouplist (Part.group_list (record empty_group_list { groups = groups })))

  unfoldable pub group_choice : ℕ → ChoiceGroup → Act Db (Unit {0})
  unfolding role_among
  group_choice fd m = do
    username ← fds_at fd
    uuid ← get_group_uuid m.u_name m.g_name
    managers ← on_redis (get_group_managers uuid)
    post fd fd (
        with_group Group.choicegroup (
          Part.group_choice (record {
            u_name = m.u_name;
            g_name = m.g_name;
            statue = role_among username member_role managers;
          })))

  unfoldable pub group_members : ℕ → GroupMembers → Act Db (Unit {0})
  unfolding member_table
  group_members fd m = do
    username ← fds_at fd
    uuid ← get_group_uuid m.u_name m.g_name
    members ← on_redis (get_group_member uuid)
    post fd fd (
        with_group Group.groupmembers
          (Part.group_members (record empty_group_members { members = member_table members [] })))
