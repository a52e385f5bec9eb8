-- ===== src/RedisClient/Effects.antt =====
-- What the methods of RedisClient do to a database in which the keys have the kinds that the
-- program expects.
use chatroom.Base.{
  ◌≡◌, refl, ap, ◌∙◌, Text, eq_text_refl, true, false, not, List, [], ◌∷◌, ◌++◌, none, some, arith,
  lookup, text_eq, done,
}
use mathlib.Core.Path.{fun_ext}
use chatroom.Redis.{Redis, ok, last}
use chatroom.Redis.Documented.{
  has_pairs, Documented, Kind, texts, hashes, sets, lists, View, with_member, with_fields,
  without_field, with_value, with_items, last_entries, created, is_some, contains, distinct, one_if,
}
use chatroom.RedisClient.Try.{return, run, deref, ◌>>◌}
use chatroom.RedisClient.Keys.{
  ◌+:+◌, user_key, members_key, managers_key, groups_key, group_owner, group_key, request_key,
  chat_key,
}
use chatroom.RedisClient.Users.{is_positive, set_res_key, user_field_hexists}
use chatroom.RedisClient.Groups.{
  group_title, set_group_member, remove_group_member, user_set_groups, user_remove_groups,
  set_group_manager, remove_group_manager, del_group_manager, del_group_member, get_group_manager,
  get_groupuuid, group_exists, add_group, del_group, get_group_member, get_group_managers,
}
use chatroom.RedisClient.Lists.{set_chat_list}
use chatroom.RedisClient.Kinded.{
  resume-ok, after_hset, after_set, after_del, after_rpush, after_ltrim, positive-one_if, both_true,
  Kinded, Does, Does-run, Does-cast, if_true, fits_at, after_read, plain_read, sadd-Does, srem-Does,
  hset-Does, hdel-Does, del-Does, hexists-Does, smembers-Does, hgetall-Does,
}

items_twice :
    (key : Text) (xs : List Text) (v : View)
    → with_items key (last_entries 100 ((with_items key xs v).items key)) (with_items key xs v)
      ≡ with_items key (last_entries 100 xs) v
items_twice key xs v =
    rw (eq_text_refl key) (ap (λ f. record v { items = f }) (fun_ext λ j. ground arith))

module _ {Db : Type 0} ⦃r : Redis Db⦄ (doc : Documented r) {kind_of : Text → Kind} {d : Db}
    (h : Kinded doc kind_of d) where
  open doc use {view}

  pub set_group_member-Does :
      (uuid u : Text)
      → kind_of (members_key uuid) ≡ sets
      → Does doc kind_of
          (set_group_member uuid u)
          d
          (not ((view d).member (members_key uuid) u))
          (with_member (members_key uuid) u true (view d))
  unfolding set_group_member
  set_group_member-Does uuid u e = sadd-Does doc h (members_key uuid) u e

  pub remove_group_member-Does :
      (uuid u : Text)
      → kind_of (members_key uuid) ≡ sets
      → Does doc kind_of
          (remove_group_member uuid u)
          d
          ((view d).member (members_key uuid) u)
          (with_member (members_key uuid) u false (view d))
  unfolding remove_group_member
  remove_group_member-Does uuid u e = srem-Does doc h (members_key uuid) u e

  pub user_set_groups-Does :
      (username u_name g_name : Text)
      → kind_of (groups_key username) ≡ sets
      → Does doc kind_of
          (user_set_groups username u_name g_name)
          d
          (not ((view d).member (groups_key username) (group_title g_name u_name)))
          (with_member (groups_key username) (group_title g_name u_name) true (view d))
  unfolding user_set_groups
  user_set_groups-Does username u_name g_name e =
      sadd-Does doc h (groups_key username) (group_title g_name u_name) e

  pub user_remove_groups-Does :
      (username g_name u_name : Text)
      → kind_of (groups_key username) ≡ sets
      → Does doc kind_of
          (user_remove_groups username g_name u_name)
          d
          ((view d).member (groups_key username) (group_title g_name u_name))
          (with_member (groups_key username) (group_title g_name u_name) false (view d))
  unfolding user_remove_groups
  user_remove_groups-Does username g_name u_name e =
      srem-Does doc h (groups_key username) (group_title g_name u_name) e

  pub set_group_manager-Does :
      (uuid : Text) (ps : List (Text × Text))
      → kind_of (managers_key uuid) ≡ hashes
      → Does doc kind_of
          (set_group_manager uuid ps)
          d
          (is_positive (created ps ((view d).field (managers_key uuid))))
          (with_fields (managers_key uuid) ps (view d))
  unfolding set_group_manager
  set_group_manager-Does uuid ps e = hset-Does doc h (managers_key uuid) ps e

  pub remove_group_manager-Does :
      (uuid u : Text)
      → kind_of (managers_key uuid) ≡ hashes
      → Does doc kind_of
          (remove_group_manager uuid u)
          d
          (is_some ((view d).field (managers_key uuid) u))
          (without_field (managers_key uuid) u (view d))
  unfolding remove_group_manager
  remove_group_manager-Does uuid u e = hdel-Does doc h (managers_key uuid) u e

  pub set_res_key-Does :
      (username set_name : Text) (ps : List (Text × Text))
      → kind_of (request_key username +:+ set_name) ≡ hashes
      → Does doc kind_of
          (set_res_key username set_name ps)
          d
          (is_positive (created ps ((view d).field (request_key username +:+ set_name))))
          (with_fields (request_key username +:+ set_name) ps (view d))
  unfolding set_res_key
  set_res_key-Does username set_name ps e = hset-Does doc h (request_key username +:+ set_name) ps e

  pub user_field_hexists-Does :
      (username f : Text)
      → kind_of (user_key username) ≡ hashes
      → Does doc kind_of
          (user_field_hexists username f)
          d
          (is_some ((view d).field (user_key username) f))
          (view d)
  unfolding user_field_hexists
  user_field_hexists-Does username f e = hexists-Does doc h (user_key username) f e

  -- The index of groups: the uuid of an owner's group.
  pub get_groupuuid-Does :
      (u_name g_name uuid : Text)
      → kind_of (group_owner u_name +:+ g_name) ≡ texts
      → (view d).value (group_owner u_name +:+ g_name) ≡ some uuid
      → Does doc kind_of (get_groupuuid u_name g_name) d uuid (view d)
  unfolding get_groupuuid
  get_groupuuid-Does u_name g_name uuid e there =
      let key = group_owner u_name +:+ g_name in
      Does-run deref [] doc (r.get key)
        (doc.get_reply key d ∙ if_true _ (fits_at doc h key e) ∙ ap ok there)
        (done uuid _ refl (refl, doc.get_view key d, after_read doc h key (doc.get_fits key d)))

  pub group_exists-Does :
      (username g_name : Text)
      → Does doc kind_of
          (group_exists username g_name)
          d
          (doc.live d (group_owner username +:+ g_name))
          (view d)
  unfolding group_exists
  group_exists-Does username g_name =
      let key = group_owner username +:+ g_name in
      let h' = after_read doc h key (doc.exists_fits key d) in
      Does-run (λ _. run (r.exists key)) false doc (r.exists key) (doc.exists_reply key d)
        (Does-cast doc (ap (λ f. f key) (doc.exists_live key d)) (doc.exists_view key d) (
          plain_read doc h' key false (r.exists key) (doc.exists_reply key _)
            (doc.exists_view key _) (doc.exists_fits key _)))

  pub get_group_member-Does :
      (uuid : Text)
      → kind_of (members_key uuid) ≡ sets
      → (xs : List Text) × ((x : Text) → contains x xs ≡ (view d).member (members_key uuid) x)
        × Does doc kind_of (get_group_member uuid) d xs (view d)
  unfolding get_group_member
  get_group_member-Does uuid e = smembers-Does doc h (members_key uuid) e

  pub get_group_managers-Does :
      (uuid : Text)
      → kind_of (managers_key uuid) ≡ hashes
      → (ps : List (Text × Text)) × ((f : Text)
          → lookup f ps ≡ (view d).field (managers_key uuid) f)
        × (distinct ps ≡ true)
        × Does doc kind_of (get_group_managers uuid) d ps (view d)
  unfolding get_group_managers
  get_group_managers-Does uuid e = hgetall-Does doc h (managers_key uuid) e

  -- The role of one user: undefined where the user has none.
  pub get_group_manager-Does :
      (uuid u role : Text)
      → kind_of (managers_key uuid) ≡ hashes
      → (view d).field (managers_key uuid) u ≡ some role
      → Does doc kind_of (get_group_manager uuid u) d role (view d)
  unfolding get_group_manager
  get_group_manager-Does uuid u role e there =
      let key = managers_key uuid in
      Does-run deref [] doc (r.hget key u)
        (doc.hget_reply key u d ∙ if_true _ (fits_at doc h key e) ∙ ap ok there)
        (done role _ refl
          (refl, doc.hget_view key u d, after_read doc h key (doc.hget_fits key u d)))

  pub get_group_manager_missing :
      (uuid u : Text)
      → kind_of (managers_key uuid) ≡ hashes
      → (view d).field (managers_key uuid) u ≡ none
      → get_group_manager uuid u d ≡ none
  unfolding get_group_manager
  get_group_manager_missing uuid u e missing =
      resume-ok deref [] (r.hget (managers_key uuid) u d) d (
        doc.hget_reply (managers_key uuid) u d
        ∙ if_true _ (fits_at doc h (managers_key uuid) e)
        ∙ ap ok missing)

  pub del_group_manager-Does :
      (uuid : Text)
      → Does doc kind_of
          (del_group_manager uuid)
          d
          (doc.live d (managers_key uuid))
          (with_value (managers_key uuid) none (view d))
  unfolding del_group_manager
  del_group_manager-Does uuid = del-Does doc h (managers_key uuid)

  pub del_group_member-Does :
      (uuid : Text)
      → Does doc kind_of
          (del_group_member uuid)
          d
          (doc.live d (members_key uuid))
          (with_value (members_key uuid) none (view d))
  unfolding del_group_member
  del_group_member-Does uuid = del-Does doc h (members_key uuid)

  -- The hash of the group, and its entry in the index.
  pub add_group-Does :
      (uuid username groupname : Text) (info : List (Text × Text))
      → has_pairs info ≡ true
      → kind_of (group_key uuid) ≡ hashes
      → kind_of (group_owner username +:+ groupname) ≡ texts
      → Does doc kind_of (add_group uuid username groupname info) d true (
          with_value
            (group_owner username +:+ groupname)
            (some uuid)
            (with_fields (group_key uuid) info (view d)))
  unfolding add_group
  add_group-Does uuid username groupname info some_pairs e f =
      let key = group_key uuid in
      let index = group_owner username +:+ groupname in
      let fit = fits_at doc h key e in
      let h' = after_hset doc h key info e in
      Does-run (λ _. run (r.set index uuid) >> return true) false doc (r.hset key info)
        (doc.hset_reply key info d ∙ if_true _ (both_true some_pairs fit))
        (Does-run (λ _. return true) false doc (r.set index uuid) (doc.set_reply index uuid _)
          (done true _ refl (
            refl,
            doc.set_view index uuid _
                ∙ ap (with_value index (some uuid)) (doc.hset_view key info d ∙ if_true _ fit),
            after_set doc h' index uuid f,
          )))

  pub del_group-Does :
      (uuid username g_name : Text)
      → Does doc kind_of (del_group uuid username g_name) d (doc.live d (group_key uuid)) (
          with_value
            (group_owner username +:+ g_name)
            none
            (with_value (group_key uuid) none (view d)))
  unfolding del_group
  del_group-Does uuid username g_name =
      let key = group_key uuid in
      let index = group_owner username +:+ g_name in
      let h' = after_del doc h key in
      Does-run (λ n. run (r.del index) >> return (is_positive n)) false doc (r.del key)
        (doc.del_reply key d)
        (Does-run (λ _. return (is_positive (one_if (doc.live d key)))) false doc (r.del index)
          (doc.del_reply index _)
          (done _ _ refl (
            positive-one_if _,
            doc.del_view index _ ∙ ap (with_value index none) (doc.del_view key d),
            after_del doc h' index,
          )))

  -- A message goes to the end of the history, of which the last hundred entries are kept.
  pub set_chat_list-Does :
      (username set_name msg : Text)
      → kind_of (chat_key username +:+ set_name) ≡ lists
      → let key = chat_key username +:+ set_name in
        Does doc kind_of
          (set_chat_list username set_name msg)
          d
          true
          (with_items key (last_entries 100 ((view d).items key ++ msg ∷ [])) (view d))
  unfolding set_chat_list
  set_chat_list-Does username set_name msg e =
      let key = chat_key username +:+ set_name in
      let fit = fits_at doc h key e in
      let h' = after_rpush doc h key msg e in
      let fit' = fits_at doc h' key e in
      Does-run (λ _. run (r.ltrim key (last 100) (last 1)) >> return true) false doc
        (r.rpush key msg) (doc.rpush_reply key msg d ∙ if_true _ fit)
        (Does-run (λ _. return true) false doc (r.ltrim key (last 100) (last 1))
          (doc.ltrim_reply key 100 _ ∙ if_true _ fit')
          (done true _ refl (
            refl,
            doc.ltrim_view key 100 _
                ∙ if_true _ fit'
                ∙ ap (λ v. with_items key (last_entries 100 (v.items key)) v)
                    (doc.rpush_view key msg d ∙ if_true _ fit)
                ∙ items_twice key ((view d).items key ++ msg ∷ []) (view d),
            after_ltrim doc h' key 100 e,
          )))
