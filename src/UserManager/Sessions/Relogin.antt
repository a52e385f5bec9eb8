-- ===== src/UserManager/Sessions/Relogin.antt =====
-- A second login of a user in User_manager.cc, while the first connection is still there.
use chatroom.Base.{
  ◌≡◌, refl, ℕ, ◌==◌, Text, false, eq_text_refl, List, [], ==_iff, none, some, arith, lookup,
  assign, erase, lookup-assign, lookup-erase, lookup-touch, nat_eq, text_eq, at, touch, Returns,
  bind_step, bind_bind, done, ◌>>◌,
}
use chatroom.World.{World, Services, services_redis, on_redis_lem, fds_at}
use chatroom.RedisClient.Outcomes.{add_user_to_online_lists_lem, remove_user_to_online_lists_lem}
use chatroom.UserManager.{enter, leave, add_user, remove_user}

gone :
    (users : List (Text × ℕ)) (fds : List (ℕ × Text)) (old new : ℕ) (u : Text)
    → lookup old fds ≡ some u
    → (new == old) ≡ false
    → (lookup u (erase (at old [] (assign new u fds)) (assign u new users)) ≡ none)
      × (lookup new (erase old (touch old [] (assign new u fds))) ≡ some u)
gone users fds old new u here apart =
    let name : at old [] (assign new u fds) ≡ u =
      ground (arith, lookup-assign new old u fds, here, apart) in
    (
      rw name (ground (arith, lookup-erase u u (assign u new users), eq_text_refl u)),
      ground (
        arith,
        lookup-erase old new (touch old [] (assign new u fds)),
        lookup-touch old new [] (assign new u fds),
        lookup-assign new new u fds,
        apart,
        ==_iff new old,
        ==_iff old new,
        ==_iff new new,
      ),
    )

module _ {Db : Type 0} ⦃s : Services Db⦄ where
  -- Where a user is logged in on one socket and logs in on another, and the first then ends,
  -- both steps come to an end, and the user is not among the users although the second socket is
  -- still the user's.
  pub relogin_offline :
      (w : World Db) (old new : ℕ) (u : Text)
      → lookup old w.fds ≡ some u
      → (new == old) ≡ false
      → Returns
          (add_user new u >> remove_user old)
          w
          (λ _ w'. (lookup u w'.users ≡ none) × (lookup new w'.fds ≡ some u))
  unfolding add_user remove_user enter leave fds_at
  relogin_offline w old new u here apart = bind_bind _ _ _ (
      bind_step _ _ _ _ (on_redis_lem _ w (add_user_to_online_lists_lem u w.db)) (
        bind_step (enter new u) _ _ _ refl (
          bind_step _ _ _ _ refl (
            bind_step _ _ _ _ (on_redis_lem _ _ (remove_user_to_online_lists_lem _ _))
              (done _ _ refl (gone w.users w.fds old new u here apart))))))
