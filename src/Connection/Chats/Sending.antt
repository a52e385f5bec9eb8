-- ===== src/Connection/Chats/Sending.antt =====
-- connection.cc: what Send_msg keeps, and what send_offline_msg finds of it.
use chatroom.Base.{
  ℕ, ◌≡◌, refl, ap, ◌∙◌, Text, text, eq_text_refl, false, List, [], ◌∷◌, ◌++◌, at, nat_eq, text_eq,
  ◌==◌, if◌then◌else◌, arith, Returns, Returns-mono, bind_step, pure_step, Bool-cases, inl, inr,
}
use chatroom.Chat.{Actions, Part, with_action}
use chatroom.Chat.Friends.{
  FriendChatMessage, OfflineMsg, empty_offline_msg, empty_friend_chat_message,
}
use chatroom.Redis.Documented.{
  Documented, Kind, lists, hashes, View, last_entries, is_some, with_items, with_fields,
}
use chatroom.RedisClient.Kinded.{Kinded, lrange-Does, hexists-Does}
use chatroom.RedisClient.Keys.{request_key, chat_key, ◌+:+◌}
use chatroom.RedisClient.Users.{user_hash_hexists}
use chatroom.RedisClient.Lists.{get_chat_list}
use chatroom.RedisClient.Lists.History.{history}
use chatroom.RedisClient.Effects.{set_chat_list-Does, set_res_key-Does}
use chatroom.World.{World, Services, services_redis}
use chatroom.Connection.Outbox.{leave_notice}
use chatroom.Connection.Rules.{IsAnswer, post_lem, bind_redis, bind_users}
use chatroom.Connection.Chats.{pair_name, notice_unread, seria_msg, send_msg, send_offline_msg}

module _ {Db : Type 0} ⦃s : Services Db⦄ (doc : Documented s.redis) (kind_of : Text → Kind)
    (w : World Db) (fd : ℕ) (kinded : Kinded doc kind_of w.db) where
  open doc use {view}

  module _ (m : FriendChatMessage)
      (chat_kind : kind_of (chat_key (text "Friend") +:+ pair_name m.from_name m.to_name) ≡ lists)
      (notices_kind : kind_of (request_key (text "Response") +:+ m.to_name) ≡ hashes)
      (unread_kind : kind_of (request_key (text "Response") +:+ text "message") ≡ hashes) where
    abbrev line : Text
    line = m.from_name ++ (text ":" ++ m.message)

    abbrev notices : Text
    notices = request_key (text "Response") +:+ m.to_name

    abbrev unread : Text
    unread = text "\u{1b}[1;32m您有新的未读消息, 来自:" ++ (m.from_name ++ text "\u{1b}[0m")

    -- What the receiver finds at the next login.
    abbrev noticed : View → View
    noticed v =
        if is_some (v.field (request_key (text "Response") +:+ text "message") m.from_name)
        then v
        else with_fields notices ((unread, m.time) ∷ []) v

    notice_unread_lem :
        {v : World Db}
        → Kinded doc kind_of v.db
        → Returns (notice_unread m) v (λ _ v'. view v'.db ≡ noticed (view v.db))
    unfolding notice_unread user_hash_hexists leave_notice
    notice_unread_lem {v} k =
        bind_redis doc _ _
          (hexists-Does doc k (request_key (text "Response") +:+ text "message") m.from_name
            unread_kind)
          (λ d1 v1 k1.
            elim (Bool-cases (
              is_some (
                (view v.db).field (request_key (text "Response") +:+ text "message")
                  m.from_name))) [
                    | inl seen ↦ rw seen (pure_step tt v1)
                    | inr new ↦ rw new (
                        bind_redis doc _ _
                          (set_res_key-Does doc k1 (text "Response") m.to_name
                            ((unread, m.time) ∷ []) notices_kind)
                          (λ d2 v2 k2.
                            pure_step tt
                              (v2 ∙ ap (with_fields notices ((unread, m.time) ∷ [])) v1)))
                  ])

    noticed-items : (v : View) → (noticed v).items ≡ v.items
    noticed-items v = ground arith

    stored :
        (v : View) (xs : List Text)
        → history
            (with_items (chat_key (text "Friend") +:+ pair_name m.from_name m.to_name) xs v)
            (text "Friend")
            (pair_name m.from_name m.to_name)
          ≡ xs
    stored v xs =
        rw (eq_text_refl (chat_key (text "Friend") +:+ pair_name m.from_name m.to_name)) refl

    -- Where the keys hold their kinds of value, Send_msg comes to an end. The history of the
    -- two friends then holds the last hundred of the messages before and this one, after its
    -- sender's name; and if the receiver is logged in, the last message written to the
    -- receiver's socket, if it can be reached, is this one, under the name of the user of the
    -- sending socket.
    pub send_msg_lem : Returns (send_msg fd m) w (λ _ w'.
        (history (view w'.db) (text "Friend") (pair_name m.from_name m.to_name)
          ≡ last_entries 100 (
              history (view w.db) (text "Friend") (pair_name m.from_name m.to_name)
              ++ (m.from_name ++ (text ":" ++ m.message)) ∷ []))
        × ((at m.to_name 0 w.users == 0) ≡ false
            → IsAnswer
                (at m.to_name 0 w.users)
                (with_action Actions.friendmsg (
                  Part.chat_fd (record empty_friend_chat_message {
                    from_name = at fd [] w.fds;
                    to_name = m.to_name;
                    message = m.from_name ++ (text ":" ++ m.message);
                    time = m.time;
                  })))
                w'))
    unfolding send_msg seria_msg
    send_msg_lem =
        bind_redis doc _ _
          (set_chat_list-Does doc kinded (text "Friend") (pair_name m.from_name m.to_name) line
            chat_kind)
          (λ d1 v1 k1.
            let now =
              ap (λ v. history v (text "Friend") (pair_name m.from_name m.to_name)) v1
              ∙ stored (view w.db) _ in
            bind_users m.to_name _ (elim (Bool-cases (at m.to_name 0 w.users == 0)) [
              | inl offline ↦ rw offline (
                  Returns-mono (notice_unread_lem k1) (λ _ w' e. (
                    ap (λ v. history v (text "Friend") (pair_name m.from_name m.to_name)) e
                        ∙ ap (λ f. f (chat_key (text "Friend") +:+ pair_name m.from_name m.to_name))
                            (noticed-items (view d1))
                        ∙ now,
                    λ h. ground arith,
                  )))
              | inr online ↦ rw online (
                  bind_step (seria_msg fd m.to_name line m.time) _ _ _ refl
                    (post_lem fd (at m.to_name 0 w.users) _ (λ sent. (now, λ _. sent))))
            ]))

  -- Where the history is a list, send_offline_msg comes to an end and leaves the database as it
  -- reads. The last message written to the socket, if it can be reached, holds the last hundred
  -- entries of the history of the two friends.
  pub send_offline_msg_lem :
      (m : OfflineMsg)
      → kind_of (chat_key (text "Friend") +:+ pair_name m.name m.username) ≡ lists
      → Returns (send_offline_msg fd m) w (λ _ w'.
        (view w'.db ≡ view w.db)
        × IsAnswer fd
            (with_action Actions.offlinemsg (
              Part.off_msg (record empty_offline_msg {
                msg =
                    last_entries 100
                      (history (view w.db) (text "Friend") (pair_name m.name m.username));
              })))
            w')
  unfolding send_offline_msg get_chat_list
  send_offline_msg_lem m e =
      bind_redis doc _ _
        (lrange-Does doc kinded (chat_key (text "Friend") +:+ pair_name m.name m.username) 100 e)
        (λ d1 v1 k1. post_lem fd fd _ (λ sent. (v1, sent)))
