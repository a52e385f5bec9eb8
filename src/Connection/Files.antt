-- ===== src/Connection/Files.antt =====
-- connection.cc: the names of the files that are sent, to a friend or to a group.
use chatroom.Base.{ℕ, Text, text, eq_text, ◌++◌, if◌then◌else◌, ◌>>=◌, ◌>>◌, pure, skip, for_each}
use chatroom.Chat.{Actions, Group, Part, with_action, with_group}
use chatroom.Chat.Friends.{SendFile, RecvFile, empty_look_file_request}
use chatroom.Chat.Groups.{
  SendFileGroup, RecvFileGroup, LookFileRequestGroup, empty_look_file_request_group,
}
use chatroom.World.{Act, Services, services_redis, on_redis, fds_at, get_now_text}
use chatroom.RedisClient.Groups.{get_group_member, group_title}
use chatroom.RedisClient.Lists.{
  before_colon, get_all_file, get_all_file_group, set_user_file, del_user_file, set_user_file_group,
  del_user_file_group,
}
use chatroom.UserManager.{get_group_uuid}
use chatroom.Connection.Outbox.{post, tell}

module _ {Db : Type 0} ⦃s : Services Db⦄ where
  unfoldable pub recv_file : ℕ → RecvFile → Act Db (Unit {0})
  recv_file fd m = do username ← fds_at fd; on_redis (del_user_file username m.name); pure tt

  unfoldable pub send_file_req : ℕ → Act Db (Unit {0})
  send_file_req fd = do
    username ← fds_at fd
    files ← on_redis (get_all_file s.scan_rounds username)
    post fd fd (
        with_action Actions.lookfile
          (Part.file_req (record empty_look_file_request { result = files })))

  unfoldable pub send_file : ℕ → SendFile → Act Db (Unit {0})
  send_file fd m = do
    username ← fds_at fd
    time ← get_now_text
    on_redis (set_user_file m.name username m.file_name)
    tell fd m.name
        (text "\u{1b}[34m您收到一个文件 "
          ++ (m.file_name ++ (text ",来自 " ++ (username ++ text "\u{1b}[0m"))))
        time
        (with_action Actions.sendfile
          (Part.send_file (record { name = username; file_name = m.file_name; time = time })))

  unfoldable pub send_file_req_group : ℕ → LookFileRequestGroup → Act Db (Unit {0})
  send_file_req_group fd m = do
    username ← fds_at fd
    uuid ← get_group_uuid m.u_name m.g_name
    files ← on_redis (get_all_file_group s.scan_rounds uuid username)
    post fd fd (
        with_group Group.lookfilegroup
          (Part.look_file_req_group (record empty_look_file_request_group { result = files })))

  unfoldable pub recv_file_group : ℕ → RecvFileGroup → Act Db (Unit {0})
  recv_file_group fd m = do
    uuid ← get_group_uuid m.u_name m.g_name
    username ← fds_at fd
    on_redis (del_user_file_group uuid m.name username m.file_name)
    pure tt

  -- One round of the loop over the members: the file is entered for all but the sender.
  offer : ℕ → SendFileGroup → Text → Text → Text → Text → Act Db (Unit {0})
  offer fd m username uuid time member = do
    let a = before_colon member
    if eq_text a username then skip else do
      on_redis (set_user_file_group uuid username a m.file_name)
      tell fd a
          (text "\u{1b}[34m您收到一个文件 "
            ++ (m.file_name
                ++ (text ",来自 "
                    ++ (group_title m.g_name m.u_name
                        ++ (text " 的 " ++ (username ++ text "\u{1b}[0m"))))))
          time
          (with_group Group.sendfilegroup (
            Part.send_file_group (record {
              name = username;
              g_name = m.g_name;
              u_name = m.u_name;
              file_name = m.file_name;
              time = time;
            })))

  unfoldable pub send_file_group : ℕ → SendFileGroup → Act Db (Unit {0})
  unfolding offer
  send_file_group fd m = do
    username ← fds_at fd
    time ← get_now_text
    uuid ← get_group_uuid m.u_name m.g_name
    members ← on_redis (get_group_member uuid)
    for_each members (offer fd m username uuid time)
