-- ===== src/Client/Notices.antt =====
-- recv_friends.cc: what the client makes of the notices that the server (connection.cc: block and
-- unblock) leaves for a user who is away.
use chatroom.Base.{
  ℕ, suc, ◌≡◌, refl, ap, ◌∙◌, Text, text, eq_text, eq_text_refl, true, false, List, [], ◌∷◌, ◌++◌,
  none, some, ◌||◌, ◌>>◌, arith, length, drop, take, take-append, find_text, find_next, starts_with,
  Returns, bind_step, bind_bind, done,
}
use chatroom.Redis.Documented.{contains}
use chatroom.Connection.Friends.{block_notice, unblock_notice}
use chatroom.FileServer.Data.{has_byte}
use chatroom.Client.State.{UserChat, Ui, ClientServices, insert, say, get, change}
use chatroom.Client.Friends.{print_notice, print_block, marker, marker2}
use chatroom.Client.FriendRequests.{send_msg}

-- A name without the byte at which a pattern starts does not hide the pattern behind it.
pub found_behind :
    (e : ℕ) (p name q : Text)
    → has_byte e name ≡ false
    → find_text (e ∷ p) q ≡ some 0
    → find_text (e ∷ p) (name ++ q) ≡ some (length name)
unfolding has_byte starts_with
found_behind e p [] q h found = found
found_behind e p (c ∷ name) q h found =
    find_next (e ∷ p) (name ++ q) c (ground arith)
    ∙ rw (found_behind e p name q (ground arith) found) refl

pub not_behind :
    (e : ℕ) (p name q : Text)
    → has_byte e name ≡ false
    → find_text (e ∷ p) q ≡ none
    → find_text (e ∷ p) (name ++ q) ≡ none
unfolding has_byte starts_with
not_behind e p [] q h none_there = none_there
not_behind e p (c ∷ name) q h none_there =
    find_next (e ∷ p) (name ++ q) c (ground arith)
    ∙ rw (not_behind e p name q (ground arith) none_there) refl

-- Any other notice is shown with its time.
unfoldable pub print_other : Text → Text → Ui (Unit {0})
unfolding text
print_other key value = do say key; say (text "\u{1b}[34m时间: " ++ (value ++ text "\u{1b}[34m"))

as_block :
    (key value : Text) (n : ℕ)
    → find_text marker key ≡ none
    → find_text marker2 key ≡ some n
    → print_notice (key, value) ≡ print_block (take n key)
unfolding print_notice
as_block key value n h k = rw (h, k, print_notice) refl

as_other :
    (key value : Text)
    → find_text marker key ≡ none
    → find_text marker2 key ≡ none
    → print_notice (key, value) ≡ print_other key value
unfolding print_notice print_other
as_other key value h k = rw (h, k, print_notice) refl

-- The notice of a blocking is read as one, with the name that the server wrote.
block_notice_lem :
    (name value : Text)
    → has_byte 27 name ≡ false
    → print_notice (block_notice name, value) ≡ print_block name
unfolding block_notice marker marker2 text find_text starts_with
block_notice_lem name value h =
    as_block (block_notice name) value (length name) (not_behind 27 (drop 1 marker) name _ h refl)
      (found_behind 27 (drop 1 marker2) name _ h refl)
    ∙ ap print_block (take-append name _)

-- That of an unblocking is not read as one.
unblock_notice_lem :
    (name value : Text)
    → has_byte 27 name ≡ false
    → print_notice (unblock_notice name, value) ≡ print_other (unblock_notice name) value
unfolding unblock_notice marker marker2 text find_text starts_with
unblock_notice_lem name value h =
    as_other (unblock_notice name) value (not_behind 27 (drop 1 marker) name _ h refl)
      (not_behind 27 (drop 1 marker2) name _ h refl)

contains-append :
    (x y : Text) (xs : List Text) → contains x (xs ++ y ∷ []) ≡ (contains x xs || eq_text y x)
contains-append x y [] = ground arith
contains-append x y (z ∷ xs) = ground (arith, contains-append x y xs)

pub contains-insert : (x : Text) (xs : List Text) → contains x (insert x xs) ≡ true
unfolding insert
contains-insert x xs = ground (arith, contains-append x x xs, eq_text_refl x)

-- The user takes himself to be blocked by a friend.
pub record Blocked (name : Text) (u u' : UserChat) : Type 0 where
  pub friend : contains name u'.friends ≡ true
  pub blocked : contains name u'.friends_by_block ≡ true
  pub sent : u'.sent ≡ u.sent
  pub input : u'.input ≡ u.input

print_block_lem :
    (name : Text) (u : UserChat)
    → contains name u.friends ≡ true
    → Returns (print_block name) u (λ _ u'. Blocked name u u')
unfolding print_block say get change
print_block_lem name u h = bind_step (say name) _ _ _ refl (
    bind_step (get (λ v. v.friends)) _ _ _ refl (
      rw h (
        bind_step (say _) _ _ _ refl (
          done tt _ refl (record {
            friend = h;
            blocked = contains-insert name u.friends_by_block;
            sent = refl;
            input = refl;
          })))))

print_other_lem :
    (key value name : Text) (u v : UserChat)
    → Blocked name u v
    → Returns (print_other key value) v (λ _ u'. Blocked name u u')
unfolding print_other say
print_other_lem key value name u v h = bind_step (say key) _ _ _ refl (
    done tt _ refl
      (record { friend = h.friend; blocked = h.blocked; sent = h.sent; input = h.input }))

module _ ⦃s : ClientServices⦄ where
  send_msg-Blocked :
      (fuel : ℕ) (name : Text) (u v : UserChat)
      → Blocked name u v
      → Returns (send_msg (suc fuel) name) v (λ _ u'. Blocked name u u')
  unfolding send_msg say get
  send_msg-Blocked fuel name u v h = bind_step (get (λ v. v.friends)) _ _ _ refl (
      bind_step (get (λ v. v.friends_by_block)) _ _ _ refl (
        rw (h.friend, h.blocked)
          (bind_step (say _) _ _ _ refl (
            done tt _ refl (record {
              friend = h.friend;
              blocked = h.blocked;
              sent = h.sent;
              input = h.input;
            })))))

  -- Where a name has no escape byte and is a friend's, the client recognises the notice that the
  -- server leaves when that friend blocks a user who is away: the friend then stands among those
  -- who have blocked the user, and a chat with him ends at once, with nothing read from the
  -- keyboard and nothing sent.
  pub print_notice-Blocked :
      (fuel : ℕ) (name value : Text) (u : UserChat)
      → has_byte 27 name ≡ false
      → contains name u.friends ≡ true
      → Returns
          (print_notice (block_notice name, value) >> send_msg (suc fuel) name)
          u
          (λ _ u'. Blocked name u u')
  print_notice-Blocked fuel name value u no_escape friend =
      let h = print_block_lem name u friend in
      bind_step (print_notice (block_notice name, value)) _ h.result h.state
        (ap (λ m. m u) (block_notice_lem name value no_escape) ∙ h.runs)
        (send_msg-Blocked fuel name u h.state h.holds)

  -- Where a name has no escape byte and is a friend's, and the server has left a notice of a
  -- blocking by that friend and then one of an unblocking, the client still counts him among
  -- those who have blocked the user, and a chat with him ends at once, with nothing read from
  -- the keyboard and nothing sent.
  pub print_notice-unblocked :
      (fuel : ℕ) (name value later : Text) (u : UserChat)
      → has_byte 27 name ≡ false
      → contains name u.friends ≡ true
      → Returns
          ((print_notice (block_notice name, value) >> print_notice (unblock_notice name, later))
            >> send_msg (suc fuel) name)
          u
          (λ _ u'. Blocked name u u')
  print_notice-unblocked fuel name value later u no_escape friend =
      let h = print_block_lem name u friend in
      let k = print_other_lem (unblock_notice name) later name u h.state h.holds in
      bind_bind (print_notice (block_notice name, value)) _ _ (
        bind_step (print_notice (block_notice name, value)) _ h.result h.state
          (ap (λ m. m u) (block_notice_lem name value no_escape) ∙ h.runs)
          (bind_step (print_notice (unblock_notice name, later)) _ k.result k.state
            (ap (λ m. m h.state) (unblock_notice_lem name later no_escape) ∙ k.runs)
            (send_msg-Blocked fuel name u k.state k.holds)))
