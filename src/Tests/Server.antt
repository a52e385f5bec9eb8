-- ===== src/Tests/Server.antt =====
-- Examples of the sessions, the heartbeat, and how messages come in and go out.
use chatroom.Base.{
  ℕ, suc, ◌≡◌, inl, refl, ap, Text, text, eq_text, eq_text_iff, ==_iff, true, false, ◌&&◌, List, [],
  ◌∷◌, ◌++◌, none, some, arith, length, Returns, lookup, assign, at, text_eq, nat_eq, if◌then◌else◌,
  ◌==◌, gt_text, ◌>>◌, ◌≤◌, for_each, skip,
}
use chatroom.Chat.{Actions, Part, with_action}
use chatroom.Chat.Friends.{
  FriendChatMessage, OfflineMsg, empty_friend_chat_message, empty_offline_msg,
}
use chatroom.Protocol.{pack, htonl_bytes}
use chatroom.Redis.Documented.{View, last_entries, with_fields}
use chatroom.Redis.Memory.{Memory}
use chatroom.Redis.Memory.Laws.{memory-Documented, memory-view}
use chatroom.RedisClient.Keys.{
  group_owner, request_key, chat_key, members_key, managers_key, groups_key, ◌+:+◌,
}
use chatroom.RedisClient.Kinded.{Kinded}
use chatroom.RedisClient.Lists.{set_chat_list}
use chatroom.RedisClient.Lists.History.{history, set_chat_list-history}
use chatroom.World.{World, services_redis}
use chatroom.UserManager.{add_user, remove_user}
use chatroom.UserManager.Sessions.{IsConsistent, add_user-IsConsistent, remove_user-IsConsistent}
use chatroom.UserManager.Sessions.Relogin.{relogin_offline}
use chatroom.Connection.Outbox.{tell}
use chatroom.Connection.Rules.{IsAnswer, reachable, tell_lem}
use chatroom.Connection.Heart.{check_heart}
use chatroom.Connection.Heart.Beats.{check_heart_lem, in_time, now}
use chatroom.Connection.Chats.{pair_name, send_msg, send_offline_msg}
use chatroom.Connection.Chats.Sending.{send_msg_lem, send_offline_msg_lem}
use chatroom.Connection.Receive.{read_message, would_block}
use chatroom.Connection.Receive.Chunks.{joined, read_message_joined, read_message_waits}
use chatroom.Tests.{services, ann, bob, kind_of, held, store, store-Kinded, world, idle, silent}

abbrev view : Memory → View
view = memory-Documented.view

abbrev w : World Memory
w = world []

abbrev hello : Text
hello = b'h' ∷ b'i' ∷ []

abbrev fd : ℕ
fd = 4

consistent : IsConsistent w
unfolding lookup
consistent = record {
  owner_of =
      λ u f e ne. ground (arith, eq_text_iff ann u, eq_text_iff bob u, ==_iff 4 f, ==_iff 5 f);
}

add_user-IsConsistent_example : Returns (add_user 6 ann) w (λ _ w'. IsConsistent w')
unfolding lookup
add_user-IsConsistent_example = add_user-IsConsistent w 6 ann consistent (inl refl)

remove_user-IsConsistent_example : Returns (remove_user 4) w (λ _ w'. IsConsistent w')
remove_user-IsConsistent_example = remove_user-IsConsistent w 4 consistent

relogin_offline_example :
    Returns
      (add_user 6 ann >> remove_user 4)
      w
      (λ _ w'. (lookup ann w'.users ≡ none) × (lookup 6 w'.fds ≡ some ann))
unfolding lookup
relogin_offline_example = relogin_offline w 4 6 ann refl refl

tell_lem_example : Returns (tell fd bob [] hello silent) w (λ _ w'.
    Kinded memory-Documented kind_of w'.db
    × (view w'.db ≡ (
        if at bob 0 w.users == 0
        then with_fields (request_key (text "Response") +:+ bob) (([], hello) ∷ []) (view w.db)
        else view w.db))
    × (w'.sent ≡ (
        if at bob 0 w.users == 0
        then w.sent
        else if reachable w (at bob 0 w.users)
        then w.sent ++ (at bob 0 w.users, pack (services.serialize silent)) ∷ []
        else w.sent)))
unfolding kind_of held eq_text text group_owner ◌+:+◌ members_key managers_key groups_key
    request_key
tell_lem_example = tell_lem memory-Documented fd bob [] hello silent (store-Kinded []) refl

check_heart_lem_example : Returns (check_heart 4 (text "ping")) w (λ alive w'.
    (alive ≡ (eq_text (text "ping") (text "ping") && in_time w 4 idle 1))
    × (w'.closed ≡ (if alive then w.closed else w.closed ++ 4 ∷ []))
    × (alive ≡ true
        → lookup 4 w'.connections
          ≡ some (record idle { heart_time = some (services.seconds (suc (now w 4 idle 1))) })))
unfolding lookup
check_heart_lem_example = check_heart_lem w 4 idle 1 (text "ping") refl refl

abbrev pieces : List Text
pieces = (0 ∷ 0 ∷ []) ∷ (0 ∷ 2 ∷ b'h' ∷ []) ∷ []

read_message_joined_example :
    read_message 3 4 pieces would_block w ≡ read_message 3 4 (joined pieces ∷ []) would_block w
unfolding lookup
read_message_joined_example = read_message_joined 3 4 pieces would_block w refl

read_message_waits_example :
    read_message (suc 2) 4 pieces would_block w
    ≡ some (
      true,
      record w {
        connections =
            assign 4 (record idle { buffer = idle.buffer ++ joined pieces }) w.connections;
      },
    )
unfolding lookup pack htonl_bytes
read_message_waits_example =
    read_message_waits 2 4 pieces hello (b'i' ∷ []) w idle refl (omega arith) refl (omega arith)

abbrev greeting : FriendChatMessage
greeting = record empty_friend_chat_message { from_name = ann; to_name = bob; message = hello }

abbrev asking : OfflineMsg
asking = record empty_offline_msg { name = ann; username = bob }

send_msg_lem_example : Returns (send_msg fd greeting) w (λ _ w'.
    (history (view w'.db) (text "Friend") (pair_name greeting.from_name greeting.to_name)
      ≡ last_entries 100 (
          history (view w.db) (text "Friend") (pair_name greeting.from_name greeting.to_name)
          ++ (greeting.from_name ++ (text ":" ++ greeting.message)) ∷ []))
    × ((at greeting.to_name 0 w.users == 0) ≡ false
        → IsAnswer
            (at greeting.to_name 0 w.users)
            (with_action Actions.friendmsg (
              Part.chat_fd (record empty_friend_chat_message {
                from_name = at fd [] w.fds;
                to_name = greeting.to_name;
                message = greeting.from_name ++ (text ":" ++ greeting.message);
                time = greeting.time;
              })))
            w'))
unfolding kind_of held eq_text gt_text pair_name text group_owner ◌+:+◌ members_key managers_key
    groups_key request_key chat_key
send_msg_lem_example =
    send_msg_lem memory-Documented kind_of w fd (store-Kinded []) greeting refl refl refl

send_offline_msg_lem_example : Returns (send_offline_msg fd asking) w (λ _ w'.
    (view w'.db ≡ view w.db)
    × IsAnswer fd
        (with_action Actions.offlinemsg (
          Part.off_msg (record empty_offline_msg {
            msg =
                last_entries 100
                  (history (view w.db) (text "Friend") (pair_name asking.name asking.username));
          })))
        w')
unfolding kind_of held eq_text gt_text pair_name text group_owner ◌+:+◌ members_key managers_key
    groups_key request_key chat_key
send_offline_msg_lem_example =
    send_offline_msg_lem memory-Documented kind_of w fd (store-Kinded []) asking refl

few : length (history (view (store [])) (text "Friend") (text "bob:ann")) ≤ 100
unfolding store
few =
    let nothing : history (view (store [])) (text "Friend") (text "bob:ann") ≡ [] =
      ap (λ v. history v (text "Friend") (text "bob:ann")) (memory-view (store [])) in
    rw nothing (omega arith)

set_chat_list-history_example :
    Returns
      (for_each
        (hello ∷ bob ∷ [])
        (λ msg. set_chat_list (text "Friend") (text "bob:ann") msg >> skip))
      (store [])
      (λ _ d'.
        history (view d') (text "Friend") (text "bob:ann")
        ≡ last_entries 100
            (history (view (store [])) (text "Friend") (text "bob:ann") ++ hello ∷ bob ∷ []))
unfolding store kind_of held eq_text text group_owner ◌+:+◌ members_key managers_key groups_key
    request_key chat_key
set_chat_list-history_example =
    set_chat_list-history memory-Documented (text "Friend") (text "bob:ann") refl (hello ∷ bob ∷ [])
      (store []) (store-Kinded []) few
