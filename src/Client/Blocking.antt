-- ===== src/Client/Blocking.antt =====
-- send_friends.cc: unblocking a friend.
use chatroom.Base.{
  ℕ, suc, ◌≡◌, refl, Text, eq_text, eq_text_refl, true, false, List, [], ◌∷◌, ◌++◌, some, Returns,
  bind_step, pure_step,
}
use chatroom.Redis.Documented.{contains}
use chatroom.Chat.{Actions, Part, Chat, with_action}
use chatroom.Protocol.{pack}
use chatroom.Client.State.{UserChat, ClientServices, remove, say, ask, get, change, send}
use chatroom.Client.FriendRequests.{quit, block_again, unblock_loop, unblock_friend}
use chatroom.Client.Notices.{contains-insert}

ask_lem :
    (line : Text) (rest : List Text) (u : UserChat)
    → u.input ≡ line ∷ rest
    → ask u ≡ some (line, record u { input = rest })
unfolding ask
ask_lem line rest u h = rw h refl

-- The message of a blocking or of an unblocking
abbrev pub about_block : Actions → Text → Chat
about_block a name = with_action a (Part.block_friend (record { name = name }))

module _ ⦃s : ClientServices⦄ where
  -- Where the user types the name of a friend that is not the word quit and that he has blocked,
  -- and then quit, unblock_friend comes to an end and sends one message, of the unblocking, but
  -- the friend is still among those the user has blocked.
  pub unblock_friend_lem :
      (fuel : ℕ) (name : Text) (rest : List Text) (u : UserChat)
      → u.input ≡ name ∷ quit ∷ rest
      → eq_text name quit ≡ false
      → contains name u.friends ≡ true
      → contains name u.friends_block ≡ true
      → Returns (unblock_friend (suc (suc fuel))) u (λ _ u'.
        (contains name u'.friends_block ≡ true)
        × (u'.input ≡ rest)
        × (u'.sent ≡ u.sent ++ pack (s.serialize (about_block Actions.unblockfriend name)) ∷ []))
  unfolding unblock_friend unblock_loop block_again say get change send
  unblock_friend_lem fuel name rest u h not_quit friend blocked = bind_step (say _) _ _ _ refl (
      bind_step ask _ _ _ (ask_lem name (quit ∷ rest) _ h) (
        bind_step (get (λ v. v.friends)) _ _ _ refl (
          bind_step (get (λ v. v.friends_block)) _ _ _ refl (
            rw (not_quit, friend, blocked)
              (bind_step (change _) _ _ _ refl (
                bind_step (send _) _ _ _ refl (
                  bind_step ask _ _ _ (ask_lem quit rest _ refl) (
                    bind_step (get (λ v. v.friends)) _ _ _ refl (
                      bind_step (get (λ v. v.friends_block)) _ _ _ refl (
                        rw (eq_text_refl quit) (
                          pure_step tt (
                            contains-insert name (remove name u.friends_block),
                            refl,
                            refl,
                          ))))))))))))
