-- ===== src/Redis/Memory.antt =====
-- A Redis server in memory: it shows that what Documented.antt states can hold, and the examples run
-- on it.
pub mod Laws
use chatroom.Base.{
  ℕ, zero, suc, ◌+◌, ◌-◌, ◌≡◌, refl, sym, ap, ◌∙◌, Text, text, eq_text, eq_text_iff, text_eq,
  nat_eq, Bool, true, false, not, ◌&&◌, ◌||◌, List, [], ◌∷◌, ◌++◌, Option, none, some, length,
  lookup, erase, lookup-erase, if◌then◌else◌, arith, ◌==◌,
}
use chatroom.Redis.{Redis, Reply, Index, first, last, ok, error}
use chatroom.Redis.Documented.{
  Documented, Kind, texts, hashes, sets, lists, View, is_some, one_if, over, distinct, contains,
  created, without_first, rest_of, head_of, last_entries, with_fields, without_field, with_member,
  with_items, with_value, same_kind, has_pairs,
}

-- `held`: the kind of what a key holds.
pub record Memory : Type 0 where
  pub held : Text → Option Kind
  pub value : Text → Option Text
  pub pairs : Text → List (Text × Text)
  pub members : Text → List Text
  pub items : Text → List Text

abbrev pub empty_memory : Memory
empty_memory = record {
  held = λ k. none;
  value = λ k. none;
  pairs = λ k. [];
  members = λ k. [];
  items = λ k. [];
}

abbrev pub admits : Option Kind → Kind → Bool
admits none L = true
admits (some K) L = same_kind K L

abbrev pub fits : Memory → Kind → Text → Bool
fits d L k = admits (d.held k) L

abbrev pub live : Memory → Text → Bool
live d k = is_some (d.held k)

abbrev pub view : Memory → View
view d = record {
  value = d.value;
  field = λ k f. lookup f (d.pairs k);
  member = λ k x. contains x (d.members k);
  items = d.items;
}

-- A list of pairs with one pair for each name.
abbrev tidy : List (Text × Text) → List (Text × Text)
tidy [] = []
tidy ((g, v) ∷ rest) = (g, v) ∷ erase g (tidy rest)

abbrev without : Text → List Text → List Text
without x [] = []
without x (y ∷ ys) = let rest = without x ys in if eq_text y x then rest else y ∷ rest

abbrev written : List (Text × Text) → List (Text × Text) → List (Text × Text)
written [] old = old
written ((g, v) ∷ rest) old = written rest ((g, v) ∷ old)

-- What the writing commands leave.
abbrev hold : Kind → Text → Memory → Memory
hold K k d = record d { held = λ j. if eq_text k j then some K else d.held j }

abbrev put_pairs : Text → List (Text × Text) → Memory → Memory
put_pairs k ps d = record d { pairs = λ j. if eq_text k j then ps else d.pairs j }

abbrev put_members : Text → List Text → Memory → Memory
put_members k xs d = record d { members = λ j. if eq_text k j then xs else d.members j }

abbrev put_items : Text → List Text → Memory → Memory
put_items k xs d = record d { items = λ j. if eq_text k j then xs else d.items j }

abbrev put_value : Text → Option Text → Option Kind → Memory → Memory
put_value k o K d = record {
  held = λ j. if eq_text k j then K else d.held j;
  value = λ j. if eq_text k j then o else d.value j;
  pairs = λ j. if eq_text k j then [] else d.pairs j;
  members = λ j. if eq_text k j then [] else d.members j;
  items = λ j. if eq_text k j then [] else d.items j;
}

-- A command on a value of kind K.
abbrev typed : {A : Type 0} → Kind → Text → Memory → A → Memory → Reply A × Memory
typed K k d a d' = if fits d K k then (ok a, d') else (error, d)

abbrev range : Index → Index → List Text → List Text
range (last n) (last (suc zero)) xs = last_entries n xs
range _ _ xs = xs

abbrev name_of : Option Kind → Text
name_of none = text "none"
name_of (some texts) = text "string"
name_of (some hashes) = text "hash"
name_of (some sets) = text "set"
name_of (some lists) = text "list"

abbrev pub memory : Redis Memory
memory = record {
  exists = λ k d. (ok (live d k), d);
  type_of = λ k d. (ok (name_of (d.held k)), d);
  del = λ k d. (ok (one_if (live d k)), put_value k none none d);
  get = λ k d. typed texts k d (d.value k) d;
  set = λ k v d. (ok true, put_value k (some v) (some texts) d);
  set_ex = λ k v n d. (ok true, put_value k (some v) (some texts) d);
  hset = λ k ps d.
      if has_pairs ps && fits d hashes k
      then (
        ok (created ps (λ f. lookup f (d.pairs k))),
        hold hashes k (put_pairs k (written ps (d.pairs k)) d),
      )
      else (error, d);
  hget = λ k f d. typed hashes k d (lookup f (d.pairs k)) d;
  hgetall = λ k d. typed hashes k d (tidy (d.pairs k)) d;
  hdel = λ k f d.
      typed hashes k d (one_if (is_some (lookup f (d.pairs k))))
        (put_pairs k (erase f (d.pairs k)) d);
  hexists = λ k f d. typed hashes k d (is_some (lookup f (d.pairs k))) d;
  sadd = λ k x d.
      typed sets k d (one_if (not (contains x (d.members k))))
        (hold sets k (put_members k (x ∷ d.members k) d));
  srem = λ k x d.
      typed sets k d (one_if (contains x (d.members k)))
        (put_members k (without x (d.members k)) d);
  smembers = λ k d. typed sets k d (d.members k) d;
  rpush = λ k x d.
      typed lists k d (length (d.items k) + 1) (hold lists k (put_items k (d.items k ++ x ∷ []) d));
  lpop = λ k d. typed lists k d (head_of (d.items k)) (put_items k (rest_of (d.items k)) d);
  ltrim = λ k i j d. typed lists k d true (put_items k (range i j (d.items k)) d);
  lrange = λ k i j d. typed lists k d (range i j (d.items k)) d;
  lrem = λ k n x d.
      typed lists k d (one_if (contains x (d.items k)))
        (put_items k (without_first x (d.items k)) d);
  -- no key is ever found
  scan = λ cursor pattern n d. (ok (0, []), d);
}

module _ {A : Type 0} (a : A) (d' d : Memory) where
  abbrev either_way : Bool → Reply A × Memory
  either_way b = if b then (ok a, d') else (error, d)

  reply_of : (b : Bool) → (either_way b).0 ≡ (if b then ok a else error)
  reply_of true = refl
  reply_of false = refl

  view_of : (b : Bool) {v : View} → view d' ≡ v → view (either_way b).1 ≡ (if b then v else view d)
  view_of true e = e
  view_of false e = refl

  live_of :
      (b : Bool) (k j : Text)
      → live d' j ≡ (if eq_text k j then true else live d j)
      → live (either_way b).1 j ≡ (if eq_text k j && b then true else live d j)
  live_of true k j e = ground (arith, e)
  live_of false k j e = ground arith

  relive_of :
      (b : Bool) (k j : Text)
      → live d' j ≡ live d j
      → live (either_way b).1 j ≡ (if eq_text k j && b then live (either_way b).1 j else live d j)
  relive_of true k j e = ground (arith, e)
  relive_of false k j e = ground arith

  refit_of :
      (b : Bool) (k j : Text) (K L : Kind)
      → fits d' L j ≡ fits d L j
      → fits (either_way b).1 L j
        ≡ (if eq_text k j && not (same_kind K L) then fits (either_way b).1 L j else fits d L j)
  refit_of true k j K L e = ground (arith, e)
  refit_of false k j K L e = ground arith

  fits_of :
      (b : Bool) (k j : Text) (K L : Kind)
      → fits d' L j ≡ (if eq_text k j then same_kind K L else fits d L j)
      → (b ≡ true → eq_text k j ≡ true → same_kind K L ≡ true → fits d L j ≡ true)
      → fits (either_way b).1 L j
        ≡ (if eq_text k j && not (same_kind K L) then fits (either_way b).1 L j else fits d L j)
  fits_of true k j K L e h = ground (arith, e, h)
  fits_of false k j K L e h = ground arith

module _ {A B : Type 0} (a : A) (d : Memory) (f : Memory → B) where
  same_of : (b : Bool) → f (either_way a d d b).1 ≡ f d
  same_of true = refl
  same_of false = refl

same_kind_sound : (K L : Kind) → same_kind K L ≡ true → K ≡ L
same_kind_sound texts texts e = refl
same_kind_sound hashes hashes e = refl
same_kind_sound sets sets e = refl
same_kind_sound lists lists e = refl
same_kind_sound texts hashes e = ground arith
same_kind_sound texts sets e = ground arith
same_kind_sound texts lists e = ground arith
same_kind_sound hashes texts e = ground arith
same_kind_sound hashes sets e = ground arith
same_kind_sound hashes lists e = ground arith
same_kind_sound sets texts e = ground arith
same_kind_sound sets hashes e = ground arith
same_kind_sound sets lists e = ground arith
same_kind_sound lists texts e = ground arith
same_kind_sound lists hashes e = ground arith
same_kind_sound lists sets e = ground arith

admits-hold :
    (k j : Text) (K L : Kind) (d : Memory)
    → fits (hold K k d) L j ≡ (if eq_text k j then same_kind K L else fits d L j)
admits-hold k j K L d = ground arith

live-hold :
    (k j : Text) (K : Kind) (d : Memory)
    → live (hold K k d) j ≡ (if eq_text k j then true else live d j)
live-hold k j K d = ground arith

fits-same :
    (k j : Text) (K L : Kind) (d : Memory)
    → fits d K k ≡ true
    → eq_text k j ≡ true
    → same_kind K L ≡ true
    → fits d L j ≡ true
fits-same k j K L d e h h' =
    ap (fits d L) (sym ((eq_text_iff k j).0 h))
    ∙ ap (λ X. fits d X k) (sym (same_kind_sound K L h'))
    ∙ e

-- What the commands leave to be read.
lookup-written :
    (ps old : List (Text × Text)) (h : Text → Option Text)
    → ((f : Text) → lookup f old ≡ h f)
    → (f : Text) → lookup f (written ps old) ≡ over ps h f
unfolding lookup
lookup-written [] old h e f = e f
lookup-written ((g, v) ∷ rest) old h e f =
    lookup-written rest ((g, v) ∷ old) (λ x. if eq_text g x then some v else h x)
      (λ x. ap (λ o. if eq_text g x then some v else o) (e x)) f

lookup-tidy : (ps : List (Text × Text)) (f : Text) → lookup f (tidy ps) ≡ lookup f ps
unfolding lookup
lookup-tidy [] f = refl
lookup-tidy ((g, v) ∷ rest) f = ground (arith, lookup-erase g f (tidy rest), lookup-tidy rest f)

distinct-erase :
    (g : Text) (ps : List (Text × Text)) → distinct ps ≡ true → distinct (erase g ps) ≡ true
unfolding erase
distinct-erase g [] h = refl
distinct-erase g ((f, v) ∷ rest) h = ground (arith, lookup-erase g f rest, distinct-erase g rest)

distinct-tidy : (ps : List (Text × Text)) → distinct (tidy ps) ≡ true
distinct-tidy [] = refl
distinct-tidy ((g, v) ∷ rest) = ground (
  arith,
  lookup-erase g g (tidy rest),
  (eq_text_iff g g).1 refl,
  distinct-erase g (tidy rest) (distinct-tidy rest),
)

contains-without :
    (x : Text) (xs : List Text) (y : Text)
    → contains y (without x xs) ≡ (if eq_text x y then false else contains y xs)
contains-without x [] y = ground arith
contains-without x (z ∷ zs) y =
    ground (arith, contains-without x zs y, eq_text_iff x y, eq_text_iff z x, eq_text_iff z y)
