-- ===== src/Redis/Memory/Laws.antt =====
-- The server in memory keeps what Documented.antt states.
use chatroom.Base.{
  ◌≡◌, refl, sym, ap, Bool, ◌∙◌, Text, text, eq_text, eq_text_iff, text_eq, ◌&&◌, true, false, List,
  [], ◌∷◌, Option, none, some, lookup, erase, lookup-erase, if◌then◌else◌, arith,
}
use chatroom.Redis.{ok, error}
use chatroom.Redis.Documented.{
  Documented, Kind, texts, hashes, sets, lists, is_some, over, contains, with_fields, without_field,
  with_member, with_value, same_kind, has_pairs,
}
use chatroom.Redis.Memory.{
  Memory, fits, live, view, tidy, without, written, hold, put_pairs, put_members, put_value,
  name_of, memory, reply_of, view_of, live_of, relive_of, refit_of, fits_of, same_of, admits-hold,
  live-hold, fits-same, lookup-written, lookup-tidy, distinct-tidy, contains-without,
}

if_same : {A : Type 0} (b : Bool) (x : A) → (if b then x else x) ≡ x
if_same true x = refl
if_same false x = refl

has_pairs-fits : (ps : List (Text × Text)) (b : Bool) → (has_pairs ps && b) ≡ true → b ≡ true
has_pairs-fits [] b e = ground arith
has_pairs-fits (p ∷ ps) b e = e

-- What each write leaves to be read.
module _ (k : Text) (d : Memory) where
  view-hset :
      (ps : List (Text × Text))
      → view (hold hashes k (put_pairs k (written ps (d.pairs k)) d)) ≡ with_fields k ps (view d)
  view-hset ps = λ i. record (view d) { field = λ j f. here j f i }
    where
      here :
          (j f : Text)
          → lookup f (if eq_text k j then written ps (d.pairs k) else d.pairs j)
            ≡ (if eq_text k j then over ps (λ g. lookup g (d.pairs k)) f else lookup f (d.pairs j))
      here j f =
          ground (arith, lookup-written ps (d.pairs k) (λ g. lookup g (d.pairs k)) (λ g. refl) f)

  view-hset_none : with_fields k [] (view d) ≡ view d
  view-hset_none = λ i. record (view d) { field = λ j f. here j f i }
    where
      here :
          (j f : Text)
          → (if eq_text k j then lookup f (d.pairs k) else lookup f (d.pairs j))
            ≡ lookup f (d.pairs j)
      here j f = ground (arith, eq_text_iff k j)

  hset-view :
      (ps : List (Text × Text))
      → view (memory.hset k ps d).1
        ≡ (if fits d hashes k then with_fields k ps (view d) else view d)
  hset-view [] = sym (rw view-hset_none (if_same (fits d hashes k) (view d)))
  hset-view (p ∷ ps) = view_of _ _ d (fits d hashes k) (view-hset (p ∷ ps))

  view-hdel : (g : Text) → view (put_pairs k (erase g (d.pairs k)) d) ≡ without_field k g (view d)
  view-hdel g = λ i. record (view d) { field = λ j f. here j f i }
    where
      here :
          (j f : Text)
          → lookup f (if eq_text k j then erase g (d.pairs k) else d.pairs j)
            ≡ (if eq_text k j && eq_text g f then none else lookup f (d.pairs j))
      here j f = ground (arith, eq_text_iff k j, lookup-erase g f (d.pairs k))

  view-sadd :
      (x : Text)
      → view (hold sets k (put_members k (x ∷ d.members k) d)) ≡ with_member k x true (view d)
  view-sadd x = λ i. record (view d) { member = λ j y. here j y i }
    where
      here :
          (j y : Text)
          → contains y (if eq_text k j then x ∷ d.members k else d.members j)
            ≡ (if eq_text k j && eq_text x y then true else contains y (d.members j))
      here j y = ground (arith, eq_text_iff k j)

  view-srem :
      (x : Text) → view (put_members k (without x (d.members k)) d) ≡ with_member k x false (view d)
  view-srem x = λ i. record (view d) { member = λ j y. here j y i }
    where
      here :
          (j y : Text)
          → contains y (if eq_text k j then without x (d.members k) else d.members j)
            ≡ (if eq_text k j && eq_text x y then false else contains y (d.members j))
      here j y = ground (arith, eq_text_iff k j, contains-without x (d.members k) y)

  view-put_value :
      (o : Option Text) (K : Option Kind) → view (put_value k o K d) ≡ with_value k o (view d)
  unfolding lookup
  view-put_value o K = λ i. record {
    value = λ j. if eq_text k j then o else d.value j;
    field = λ j f. field_at j f i;
    member = λ j x. member_at j x i;
    items = λ j. if eq_text k j then [] else d.items j;
  }
    where
      field_at :
          (j f : Text)
          → lookup f (if eq_text k j then [] else d.pairs j)
            ≡ (if eq_text k j then none else lookup f (d.pairs j))
      field_at j f = ground arith

      member_at :
          (j x : Text)
          → contains x (if eq_text k j then [] else d.members j)
            ≡ (if eq_text k j then false else contains x (d.members j))
      member_at j x = ground arith

  live-put_value :
      (o : Option Text) (K : Kind) (j : Text)
      → live (put_value k o (some K) d) j ≡ (if eq_text k j then true else live d j)
  live-put_value o K j = ground arith

  fits-put_value :
      (o : Option Text) (K L : Kind) (j : Text)
      → fits (put_value k o (some K) d) L j ≡ (if eq_text k j then same_kind K L else fits d L j)
  fits-put_value o K L j = ground arith

  live-deleted :
      (j : Text) → live (put_value k none none d) j ≡ (if eq_text k j then false else live d j)
  live-deleted j = ground arith

  fits-deleted :
      (L : Kind) (j : Text)
      → fits (put_value k none none d) L j ≡ (if eq_text k j then true else fits d L j)
  fits-deleted L j = ground arith

absent : (K : Option Kind) → is_some K ≡ false → ok (name_of K) ≡ ok (text "none")
absent none e = refl
absent (some K) e = ground arith

pub memory-Documented : Documented memory
memory-Documented = record {
  view = view;
  live = live;
  fits = fits;
  relive = live;
  refit = fits;
  exists_reply = λ k d. refl;
  type_of_absent = λ k d e. absent (d.held k) e;
  hgetall_reply = λ k d e. (
    tidy (d.pairs k),
    reply_of _ d d (fits d hashes k) ∙ ap (λ b. (if b then ok (tidy (d.pairs k)) else error)) e,
    lookup-tidy (d.pairs k),
    distinct-tidy (d.pairs k),
  );
  smembers_reply = λ k d e. (
    d.members k,
    reply_of _ d d (fits d sets k) ∙ ap (λ b. (if b then ok (d.members k) else error)) e,
    λ x. refl,
  );
  lrange_reply = λ k n d. reply_of _ d d (fits d lists k);
  lrange_all_reply = λ k d. reply_of _ d d (fits d lists k);
  set_reply = λ k v d. refl;
  set_ex_reply = λ k v n d. refl;
  del_reply = λ k d. refl;
  del_view = λ k d. view-put_value k d none none;
  del_live = λ k d j. live-deleted k d j;
  del_fits = λ k d L j. fits-deleted k d L j;
  set_view = λ k v d. view-put_value k d (some v) (some texts);
  set_live = λ k v d j. live-put_value k d (some v) texts j;
  set_fits = λ k v d L j. fits-put_value k d (some v) texts L j;
  set_ex_view = λ k v n d. view-put_value k d (some v) (some texts);
  set_ex_live = λ k v n d j. live-put_value k d (some v) texts j;
  set_ex_fits = λ k v n d L j. fits-put_value k d (some v) texts L j;
  exists_view = λ k d. refl;
  exists_live = λ k d. refl;
  exists_fits = λ k d. refl;
  type_of_view = λ k d. refl;
  type_of_live = λ k d. refl;
  type_of_fits = λ k d. refl;
  get_view = λ k d. same_of _ d view (fits d texts k);
  get_live = λ k d. same_of _ d live (fits d texts k);
  get_fits = λ k d. same_of _ d fits (fits d texts k);
  hget_view = λ k f d. same_of _ d view (fits d hashes k);
  hget_live = λ k f d. same_of _ d live (fits d hashes k);
  hget_fits = λ k f d. same_of _ d fits (fits d hashes k);
  hexists_view = λ k f d. same_of _ d view (fits d hashes k);
  hexists_live = λ k f d. same_of _ d live (fits d hashes k);
  hexists_fits = λ k f d. same_of _ d fits (fits d hashes k);
  hgetall_view = λ k d. same_of _ d view (fits d hashes k);
  hgetall_live = λ k d. same_of _ d live (fits d hashes k);
  hgetall_fits = λ k d. same_of _ d fits (fits d hashes k);
  smembers_view = λ k d. same_of _ d view (fits d sets k);
  smembers_live = λ k d. same_of _ d live (fits d sets k);
  smembers_fits = λ k d. same_of _ d fits (fits d sets k);
  lrange_view = λ k i j d. same_of _ d view (fits d lists k);
  lrange_live = λ k i j d. same_of _ d live (fits d lists k);
  lrange_fits = λ k i j d. same_of _ d fits (fits d lists k);
  get_reply = λ k d. reply_of _ d d (fits d texts k);
  hget_reply = λ k f d. reply_of _ d d (fits d hashes k);
  hexists_reply = λ k f d. reply_of _ d d (fits d hashes k);
  hset_reply = λ k ps d. reply_of _ _ d (has_pairs ps && fits d hashes k);
  hset_view = λ k ps d. hset-view k d ps;
  hset_live =
      λ k ps d j. live_of _ _ d (has_pairs ps && fits d hashes k) k j (live-hold k j hashes d);
  hset_fits = λ k ps d L j.
      fits_of _ _ d (has_pairs ps && fits d hashes k) k j hashes L (admits-hold k j hashes L d)
        (λ e. fits-same k j hashes L d (has_pairs-fits ps _ e));
  sadd_reply = λ k x d. reply_of _ _ d (fits d sets k);
  sadd_view = λ k x d. view_of _ _ d (fits d sets k) (view-sadd k d x);
  sadd_live = λ k x d j. live_of _ _ d (fits d sets k) k j (live-hold k j sets d);
  sadd_fits = λ k x d L j.
      fits_of _ _ d (fits d sets k) k j sets L (admits-hold k j sets L d) (fits-same k j sets L d);
  rpush_reply = λ k x d. reply_of _ _ d (fits d lists k);
  rpush_view = λ k x d. view_of _ _ d (fits d lists k) (refl);
  rpush_live = λ k x d j. live_of _ _ d (fits d lists k) k j (live-hold k j lists d);
  rpush_fits = λ k x d L j.
      fits_of _ _ d (fits d lists k) k j lists L (admits-hold k j lists L d)
        (fits-same k j lists L d);
  hdel_reply = λ k f d. reply_of _ _ d (fits d hashes k);
  hdel_view = λ k f d. view_of _ _ d (fits d hashes k) (view-hdel k d f);
  hdel_live = λ k f d j. relive_of _ _ d (fits d hashes k) k j refl;
  hdel_fits = λ k f d L j. refit_of _ _ d (fits d hashes k) k j hashes L refl;
  srem_reply = λ k x d. reply_of _ _ d (fits d sets k);
  srem_view = λ k x d. view_of _ _ d (fits d sets k) (view-srem k d x);
  srem_live = λ k x d j. relive_of _ _ d (fits d sets k) k j refl;
  srem_fits = λ k x d L j. refit_of _ _ d (fits d sets k) k j sets L refl;
  lpop_reply = λ k d. reply_of _ _ d (fits d lists k);
  lpop_view = λ k d. view_of _ _ d (fits d lists k) (refl);
  lpop_live = λ k d j. relive_of _ _ d (fits d lists k) k j refl;
  lpop_fits = λ k d L j. refit_of _ _ d (fits d lists k) k j lists L refl;
  ltrim_reply = λ k n d. reply_of _ _ d (fits d lists k);
  ltrim_view = λ k n d. view_of _ _ d (fits d lists k) (refl);
  ltrim_live = λ k n d j. relive_of _ _ d (fits d lists k) k j refl;
  ltrim_fits = λ k n d L j. refit_of _ _ d (fits d lists k) k j lists L refl;
  lrem_reply = λ k x d. reply_of _ _ d (fits d lists k);
  lrem_view = λ k x d. view_of _ _ d (fits d lists k) (refl);
  lrem_live = λ k x d j. relive_of _ _ d (fits d lists k) k j refl;
  lrem_fits = λ k x d L j. refit_of _ _ d (fits d lists k) k j lists L refl;
}

-- What it shows, and which kinds of value a key may have.
pub memory-view : (d : Memory) → memory-Documented.view d ≡ view d
unfolding memory-Documented
memory-view d = refl

pub memory-fits : (d : Memory) (K : Kind) (k : Text) → memory-Documented.fits d K k ≡ fits d K k
unfolding memory-Documented
memory-fits d K k = refl

pub memory-live : (d : Memory) (k : Text) → memory-Documented.live d k ≡ live d k
unfolding memory-Documented
memory-live d k = refl
