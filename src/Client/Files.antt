-- ===== src/Client/Files.antt =====
-- send_friends.cc and send_groups.cc: the commands about files, which start a thread for the transfer
-- and tell the server; and User_chat.cc: del_account. A loop that reads lines takes fuel, a round for
-- each.
use chatroom.Base.{
  ℕ, zero, suc, Text, text, eq_text, Bool, ◌&&◌, not, List, [], ◌∷◌, ◌++◌, Option, none, some,
  if◌then◌else◌, ◌>>=◌, ◌>>◌, skip, pure, fault, text_eq, at, assign,
}
use chatroom.Redis.Documented.{contains, without_first}
use chatroom.Chat.{Actions, Group, Part, with_action, with_group}
use chatroom.Chat.Friends.{empty_recv_file, empty_del_account}
use chatroom.Chat.Groups.{empty_send_file_group, empty_recv_file_group}
use chatroom.Client.State.{Ui, ClientServices, say, ask, get, change, start, path_exists, send, now}
use chatroom.Client.Friends.{is_empty}
use chatroom.Client.Names.{split_dash}
use chatroom.Client.FriendRequests.{base_name, quit}

unfoldable pub upload : Text
unfolding text
upload = text "UPLOAD"

unfoldable pub download : Text
unfolding text
download = text "DOWNLOAD"

-- user_name + "---" + group_name: the name under which the file server queues a group's files
unfoldable pub files_name : Text → Text → Text
unfolding text
files_name user_name group_name = user_name ++ (text "---" ++ group_name)

-- A sender's files without the one that was fetched
unfoldable pub drop_file : Text → Text → List (Text × List Text) → List (Text × List Text)
drop_file name file files = assign name (without_first file (at name [] files)) files

module _ ⦃s : ClientServices⦄ where
  unfoldable pub choose_receiver : ℕ → Ui (Option Text)
  unfolding text
  choose_receiver zero = fault
  choose_receiver (suc fuel) =
      let again = choose_receiver fuel in
      (do
        name ← ask
        friends ← get (λ u. u.friends)
        friends_by_block ← get (λ u. u.friends_by_block)
        if eq_text name quit
            then (do say (text "\u{1b}[36m您已退出文件传输---\u{1b}[0m"); pure none)
            else if contains name friends && not (contains name friends_by_block)
            then pure (some name)
            else if contains name friends_by_block
            then (do
              say (text "\u{1b}[31m您已被好友屏蔽,无法进行文件传输...")
              say (text "正在为您退出...\u{1b}[0m")
              pure none)
            else do
              say (text "\u{1b}[36m👤你们不是好友---\u{1b}[0m")
              say (text "\u{1b}[36m请重新输入或退出<quit>...\u{1b}[0m")
              again)

  unfoldable pub offer_file : Text → Ui (Unit {0})
  unfolding text
  offer_file name = do
    say (text "\u{1b}[34m👤请输入文件路径:\u{1b}[0m")
    path ← ask
    there ← path_exists path
    if not there then say (text "文件路径不存在: " ++ path) else (do
      say (text "\u{1b}[36m文件传输中...\u{1b}[0m")
      username ← get (λ u. u.username)
      start (record {
        decide = upload;
        from_name = username;
        to_name = name;
        path = path;
        file_name = [];
      })
      time ← now
      send (
          with_action Actions.sendfile
            (Part.send_file (record { name = name; file_name = base_name path; time = time }))))

  unfoldable pub send_file : ℕ → Ui (Unit {0})
  unfolding text choose_receiver offer_file
  send_file fuel = do
    say (text "\u{1b}[34m👤请输入用户的名字吧:\u{1b}[0m")
    chosen ← choose_receiver fuel
    elim chosen [ none ↦ skip | some name ↦ offer_file name ]

  unfoldable pub choose_sender : ℕ → Ui (Option Text)
  unfolding text
  choose_sender zero = fault
  choose_sender (suc fuel) =
      let again = choose_sender fuel in
      (do
        name ← ask
        friends ← get (λ u. u.friends)
        if eq_text name quit
            then (do say (text "\u{1b}[36m您已退出文件接收---\u{1b}[0m"); pure none)
            else if contains name friends
            then pure (some name)
            else do
              say (text "\u{1b}[36m👤你们不是好友---\u{1b}[0m")
              say (text "\u{1b}[36m请重新输入或退出<quit>...\u{1b}[0m")
              again)

  -- The loop over the friend's files is left after the first.
  unfoldable pub fetch_first : Text → Ui (Unit {0})
  unfolding text drop_file
  fetch_first name = do
    friends_files ← get (λ u. u.friends_files)
    elim (at name [] friends_files) [
      | [] ↦ say (text "\u{1b}[34m这个好友没有向您发送文件---\u{1b}[0m")
      | file ∷ files ↦ (do
        say file
        username ← get (λ u. u.username)
        send (
            with_action Actions.recvfile
              (Part.recv_file (record empty_recv_file { name = name; file_name = file })))
        start (record {
          decide = download;
          from_name = username;
          to_name = name;
          path = file;
          file_name = file;
        })
        change (λ u. record u { friends_files = drop_file name file u.friends_files }))
    ]

  unfoldable pub recive_file : ℕ → Ui (Unit {0})
  unfolding text choose_sender fetch_first
  recive_file fuel = do
    say (text "\u{1b}[34m👤请输入文件发送者的名字吧:\u{1b}[0m")
    chosen ← choose_sender fuel
    elim chosen [ none ↦ skip | some name ↦ fetch_first name ]

  unfoldable pub send_file_group : Ui (Unit {0})
  unfolding text
  send_file_group = do
    current ← get (λ u. u.name)
    user_groups ← get (λ u. u.user_groups)
    if not (contains current user_groups)
        then (do say (text "\u{1b}[31m您已被群聊踢出,无法进行文件传输..."); say (text "正在为您退出...\u{1b}[0m"))
        else do
          say (text "\u{1b}[34m👤请输入文件路径:\u{1b}[0m")
          path ← ask
          there ← path_exists path
          if not there
              then (do say (text "文件路径不存在: " ++ path); say (text "\u{1b}正在为您退出...\u{1b}[0m"))
              else do
                say (text "\u{1b}[36m文件传输中...\u{1b}[0m")
                username ← get (λ u. u.username)
                user_name ← get (λ u. u.user_name)
                group_name ← get (λ u. u.group_name)
                start (record {
                  decide = upload;
                  from_name = username;
                  to_name = files_name user_name group_name;
                  path = path;
                  file_name = [];
                })
                time ← now
                send (
                    with_group Group.sendfilegroup (
                      Part.send_file_group (record empty_send_file_group {
                        g_name = group_name;
                        u_name = user_name;
                        file_name = base_name path;
                        time = time;
                      })))

  -- What is done with the file that was named
  unfoldable pub fetch_group_file : Text → Text → Ui (Unit {0})
  unfolding drop_file
  fetch_group_file name file = do
    user_name ← get (λ u. u.user_name)
    group_name ← get (λ u. u.group_name)
    send (
        with_group Group.recvfilegroup (
          Part.recv_file_group (record empty_recv_file_group {
            name = name;
            u_name = user_name;
            g_name = group_name;
            file_name = file;
          })))
    start (record {
      decide = download;
      from_name = files_name user_name group_name;
      to_name = name;
      path = file;
      file_name = file;
    })
    change (λ u. record u { group_files = drop_file name file u.group_files })

  unfoldable pub find_group_file : Text → Text → List Text → Ui (Unit {0})
  unfolding text fetch_group_file
  find_group_file name f [] = say (text "\u{1b}[1;31m没有找到这个文件\u{1b}[0m")
  find_group_file name f (file ∷ files) =
      let later = find_group_file name f files in
      (do say f; if eq_text f file then fetch_group_file name file else later)

  unfoldable pub recive_file_group : Ui (Unit {0})
  unfolding text find_group_file
  recive_file_group = do
    say (text "\u{1b}[34m👤请输入文件发送者的名字吧:\u{1b}[0m")
    name ← ask
    group_files ← get (λ u. u.group_files)
    let files = at name [] group_files
    if is_empty files
        then say (text "\u{1b}[34m这个群友没有发送群文件---\u{1b}[0m")
        else (do say (text "\u{1b}[34m📝请输入文件的名字吧:\u{1b}[0m"); f ← ask; find_group_file name f files)

  -- group_name[first] = second, for each group of the user: of two groups with one name one is left.
  unfoldable pub group_names : List Text → List (Text × Text) → List (Text × Text)
  group_names [] names = names
  group_names (title ∷ titles) names =
      let (first, second) = split_dash title in group_names titles (assign first second names)

  unfoldable pub del_account : Ui (Unit {0})
  unfolding text group_names
  del_account = do
    user_groups ← get (λ u. u.user_groups)
    friends ← get (λ u. u.friends)
    send (
        with_action Actions.delaccount (
          Part.del_account (record empty_del_account {
            group_name = group_names user_groups [];
            friends = friends;
          })))
    say (text "\u{1b}[1;31m您已注销账号,正在强制退出...\u{1b}[0m")
    change (λ u. record u { run = Bool.false })
