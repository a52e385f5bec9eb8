-- ===== src/UserManager/Sessions.antt =====
-- The tables `users` and `fds` of User_manager.cc.
pub mod Relogin
use chatroom.Base.{
  ℕ, ◌≡◌, ◌≢◌, ◌⊎◌, inl, inr, refl, Text, eq_text, eq_text_iff, List, [], some, none, arith, ◌==◌,
  if◌then◌else◌, lookup, assign, erase, lookup-assign, lookup-erase, lookup-touch, nat_eq, text_eq,
  Returns, Option-cases, at, touch, bind_step, done, ==_iff,
}
use chatroom.World.{World, Services, services_redis, on_redis_lem, fds_at}
use chatroom.RedisClient.Outcomes.{add_user_to_online_lists_lem, remove_user_to_online_lists_lem}
use chatroom.UserManager.{enter, leave, add_user, remove_user}

-- Whoever is logged in on a socket is the user whom `fds` has for the socket.
pub record IsConsistent {Db : Type 0} (w : World Db) : Type 0 where
  pub owner_of : (u : Text) (f : ℕ) → lookup u w.users ≡ some f → f ≢ 0 → lookup f w.fds ≡ some u

abbrev Owns : List (Text × ℕ) → List (ℕ × Text) → Type 0
Owns users fds = (u : Text) (f : ℕ) → lookup u users ≡ some f → f ≢ 0 → lookup f fds ≡ some u

Owns-assign :
    (users : List (Text × ℕ)) (fds : List (ℕ × Text)) (fd : ℕ) (u : Text)
    → Owns users fds
    → (lookup fd fds ≡ none) ⊎ (lookup fd fds ≡ some u)
    → Owns (assign u fd users) (assign fd u fds)
Owns-assign users fds fd u c free v f e ne = ground (
  arith,
  lookup-assign u v fd users,
  lookup-assign fd f u fds,
  eq_text_iff u v,
  ==_iff fd f,
  c v f,
)

Owns-erase :
    (users : List (Text × ℕ)) (fds : List (ℕ × Text)) (cli : ℕ)
    → Owns users fds
    → Owns (erase (at cli [] fds) users) (erase cli (touch cli [] fds))
Owns-erase users fds cli c v f e ne = ground (
  arith,
  lookup-erase (at cli [] fds) v users,
  lookup-erase cli f (touch cli [] fds),
  lookup-touch cli f [] fds,
  eq_text_iff (at cli [] fds) v,
  ==_iff cli f,
  c v f,
)

module _ {Db : Type 0} ⦃s : Services Db⦄ where
  -- Where every user is found on the socket that is the user's, and the socket is nobody's or
  -- the user's own, addUser comes to an end and this still holds.
  pub add_user-IsConsistent :
      (w : World Db) (fd : ℕ) (u : Text)
      → IsConsistent w
      → (lookup fd w.fds ≡ none) ⊎ (lookup fd w.fds ≡ some u)
      → Returns (add_user fd u) w (λ _ w'. IsConsistent w')
  unfolding add_user enter
  add_user-IsConsistent w fd u c free =
      bind_step _ _ _ _ (on_redis_lem _ w (add_user_to_online_lists_lem u w.db))
        (done _ _ refl (record { owner_of = Owns-assign w.users w.fds fd u c.owner_of free }))

  -- Where every user is found on the socket that is the user's, removeUser comes to an end and
  -- this still holds.
  pub remove_user-IsConsistent :
      (w : World Db) (cli : ℕ)
      → IsConsistent w
      → Returns (remove_user cli) w (λ _ w'. IsConsistent w')
  unfolding remove_user fds_at leave
  remove_user-IsConsistent w cli c = bind_step _ _ _ _ refl (
      bind_step _ _ _ _ (on_redis_lem _ _ (remove_user_to_online_lists_lem _ _))
        (done _ _ refl (record { owner_of = Owns-erase w.users w.fds cli c.owner_of })))
