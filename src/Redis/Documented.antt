-- ===== src/Redis/Documented.antt =====
-- What the documentation of Redis says of the commands, as far as the theorems rely on it: each
-- command's reply and its effect on what a client can read. Where the key holds a value of another
-- kind, the command fails and changes nothing.
use chatroom.Base.{
  ℕ, ◌+◌, ◌-◌, ◌≡◌, Text, text, eq_text, text_eq, Bool, true, false, not, ◌&&◌, ◌||◌, List, [], ◌∷◌,
  ◌++◌, Option, none, some, length, drop, lookup, if◌then◌else◌,
}
use chatroom.Redis.{Redis, Index, first, last, ok, error}

pub data Kind : Type 0 where
  texts hashes sets lists : Kind

-- What the reading commands show. A key that is not there reads as empty.
pub record View : Type 0 where
  pub value : Text → Option Text
  pub field : Text → Text → Option Text
  pub member : Text → Text → Bool
  pub items : Text → List Text

abbrev pub is_some {ℓ} : {A : Type ℓ} → Option A → Bool
is_some none = false
is_some (some a) = true

abbrev pub one_if : Bool → ℕ
one_if true = 1
one_if false = 0

module _ {ℓ} {V : Type ℓ} where
  -- The pairs that HSET writes, the last of a name winning, over what was there.
  abbrev pub over : List (Text × V) → (Text → Option V) → Text → Option V
  over [] h f = h f
  over ((g, v) ∷ rest) h f = over rest (λ e. if eq_text g e then some v else h e) f

-- Whether no name is there twice.
abbrev pub distinct : {V : Type 0} → List (Text × V) → Bool
distinct [] = true
distinct ((g, v) ∷ rest) = not (is_some (lookup g rest)) && distinct rest

abbrev pub contains : Text → List Text → Bool
contains x [] = false
contains x (y ∷ ys) = eq_text y x || contains x ys

-- How many fields HSET creates.
abbrev pub created : List (Text × Text) → (Text → Option Text) → ℕ
created [] h = 0
created ((g, v) ∷ rest) h =
    one_if (not (is_some (h g))) + created rest (λ e. if eq_text g e then some v else h e)

abbrev pub without_first : Text → List Text → List Text
without_first x [] = []
without_first x (y ∷ ys) = if eq_text y x then ys else y ∷ without_first x ys

abbrev pub rest_of : List Text → List Text
rest_of [] = []
rest_of (x ∷ xs) = xs

abbrev pub head_of : List Text → Option Text
head_of [] = none
head_of (x ∷ xs) = some x

-- The last n entries of a list.
abbrev pub last_entries : ℕ → List Text → List Text
last_entries n xs = drop (length xs - n) xs

-- HSET without a pair is refused.
abbrev pub has_pairs : {V : Type 0} → List (Text × V) → Bool
has_pairs [] = false
has_pairs (p ∷ ps) = true

-- What the writing commands do to the view.
abbrev pub with_fields : Text → List (Text × Text) → View → View
with_fields k ps v = record v {
  field = λ j f. if eq_text k j then over ps (v.field k) f else v.field j f;
}

abbrev pub without_field : Text → Text → View → View
without_field k g v = record v {
  field = λ j f. if eq_text k j && eq_text g f then none else v.field j f;
}

abbrev pub with_member : Text → Text → Bool → View → View
with_member k x b v = record v {
  member = λ j y. if eq_text k j && eq_text x y then b else v.member j y;
}

abbrev pub with_items : Text → List Text → View → View
with_items k xs v = record v { items = λ j. if eq_text k j then xs else v.items j }

-- DEL removes whatever the key held, and SET replaces it.
abbrev pub with_value : Text → Option Text → View → View
with_value k o v = record {
  value = λ j. if eq_text k j then o else v.value j;
  field = λ j f. if eq_text k j then none else v.field j f;
  member = λ j x. if eq_text k j then false else v.member j x;
  items = λ j. if eq_text k j then [] else v.items j;
}

abbrev pub same_kind : Kind → Kind → Bool
same_kind texts texts = true
same_kind hashes hashes = true
same_kind sets sets = true
same_kind lists lists = true
same_kind _ _ = false

-- `live`: whether the key exists. `fits d K k`: the key is not there or holds a value of kind K.
-- What is not promised is an unknown: `relive` says whether a key is there after a removal from it,
-- and `refit` which other kinds a key fits after a write.
pub record Documented {Db : Type 0} (r : Redis Db) : Type 0 where
  pub view : Db → View
  pub live : Db → Text → Bool
  pub fits : Db → Kind → Text → Bool
  pub relive : Db → Text → Bool
  pub refit : Db → Kind → Text → Bool
  -- reads
  pub exists_reply : (k : Text) (d : Db) → (r.exists k d).0 ≡ ok (live d k)
  pub exists_view : (k : Text) (d : Db) → view (r.exists k d).1 ≡ view d
  pub exists_live : (k : Text) (d : Db) → live (r.exists k d).1 ≡ live d
  pub exists_fits : (k : Text) (d : Db) → fits (r.exists k d).1 ≡ fits d
  pub type_of_absent : (k : Text) (d : Db) → live d k ≡ false → (r.type_of k d).0 ≡ ok (text "none")
  pub type_of_view : (k : Text) (d : Db) → view (r.type_of k d).1 ≡ view d
  pub type_of_live : (k : Text) (d : Db) → live (r.type_of k d).1 ≡ live d
  pub type_of_fits : (k : Text) (d : Db) → fits (r.type_of k d).1 ≡ fits d
  pub get_reply :
      (k : Text) (d : Db)
      → (r.get k d).0 ≡ (if fits d texts k then ok ((view d).value k) else error)
  pub get_view : (k : Text) (d : Db) → view (r.get k d).1 ≡ view d
  pub get_live : (k : Text) (d : Db) → live (r.get k d).1 ≡ live d
  pub get_fits : (k : Text) (d : Db) → fits (r.get k d).1 ≡ fits d
  pub hget_reply :
      (k f : Text) (d : Db)
      → (r.hget k f d).0 ≡ (if fits d hashes k then ok ((view d).field k f) else error)
  pub hget_view : (k f : Text) (d : Db) → view (r.hget k f d).1 ≡ view d
  pub hget_live : (k f : Text) (d : Db) → live (r.hget k f d).1 ≡ live d
  pub hget_fits : (k f : Text) (d : Db) → fits (r.hget k f d).1 ≡ fits d
  pub hexists_reply :
      (k f : Text) (d : Db)
      → (r.hexists k f d).0 ≡ (if fits d hashes k then ok (is_some ((view d).field k f)) else error)
  pub hexists_view : (k f : Text) (d : Db) → view (r.hexists k f d).1 ≡ view d
  pub hexists_live : (k f : Text) (d : Db) → live (r.hexists k f d).1 ≡ live d
  pub hexists_fits : (k f : Text) (d : Db) → fits (r.hexists k f d).1 ≡ fits d
  -- Every field once, in an order that is not promised.
  pub hgetall_reply :
      (k : Text) (d : Db)
      → fits d hashes k ≡ true
      → (ps : List (Text × Text)) × ((r.hgetall k d).0 ≡ ok ps)
        × ((f : Text) → lookup f ps ≡ (view d).field k f)
        × (distinct ps ≡ true)
  pub hgetall_view : (k : Text) (d : Db) → view (r.hgetall k d).1 ≡ view d
  pub hgetall_live : (k : Text) (d : Db) → live (r.hgetall k d).1 ≡ live d
  pub hgetall_fits : (k : Text) (d : Db) → fits (r.hgetall k d).1 ≡ fits d
  pub smembers_reply :
      (k : Text) (d : Db)
      → fits d sets k ≡ true
      → (xs : List Text) × ((r.smembers k d).0 ≡ ok xs)
        × ((x : Text) → contains x xs ≡ (view d).member k x)
  pub smembers_view : (k : Text) (d : Db) → view (r.smembers k d).1 ≡ view d
  pub smembers_live : (k : Text) (d : Db) → live (r.smembers k d).1 ≡ live d
  pub smembers_fits : (k : Text) (d : Db) → fits (r.smembers k d).1 ≡ fits d
  -- The entries from the n-th before the end, or all where there are fewer.
  pub lrange_reply :
      (k : Text) (n : ℕ) (d : Db)
      → (r.lrange k (last n) (last 1) d).0
        ≡ (if fits d lists k then ok (last_entries n ((view d).items k)) else error)
  pub lrange_all_reply :
      (k : Text) (d : Db)
      → (r.lrange k (first 0) (last 1) d).0
        ≡ (if fits d lists k then ok ((view d).items k) else error)
  pub lrange_view : (k : Text) (i j : Index) (d : Db) → view (r.lrange k i j d).1 ≡ view d
  pub lrange_live : (k : Text) (i j : Index) (d : Db) → live (r.lrange k i j d).1 ≡ live d
  pub lrange_fits : (k : Text) (i j : Index) (d : Db) → fits (r.lrange k i j d).1 ≡ fits d
  -- writes
  pub hset_reply :
      (k : Text) (ps : List (Text × Text)) (d : Db)
      → (r.hset k ps d).0
        ≡ (if has_pairs ps && fits d hashes k then ok (created ps ((view d).field k)) else error)
  pub hset_view :
      (k : Text) (ps : List (Text × Text)) (d : Db)
      → view (r.hset k ps d).1 ≡ (if fits d hashes k then with_fields k ps (view d) else view d)
  pub hset_live :
      (k : Text) (ps : List (Text × Text)) (d : Db) (j : Text)
      → live (r.hset k ps d).1 j
        ≡ (if eq_text k j && (has_pairs ps && fits d hashes k) then true else live d j)
  pub hset_fits :
      (k : Text) (ps : List (Text × Text)) (d : Db) (L : Kind) (j : Text)
      → fits (r.hset k ps d).1 L j ≡ (
          if eq_text k j && not (same_kind hashes L)
          then refit (r.hset k ps d).1 L j
          else fits d L j)
  pub hdel_reply :
      (k f : Text) (d : Db)
      → (r.hdel k f d).0
        ≡ (if fits d hashes k then ok (one_if (is_some ((view d).field k f))) else error)
  pub hdel_view :
      (k f : Text) (d : Db)
      → view (r.hdel k f d).1 ≡ (if fits d hashes k then without_field k f (view d) else view d)
  pub hdel_live :
      (k f : Text) (d : Db) (j : Text)
      → live (r.hdel k f d).1 j
        ≡ (if eq_text k j && fits d hashes k then relive (r.hdel k f d).1 j else live d j)
  pub hdel_fits :
      (k f : Text) (d : Db) (L : Kind) (j : Text)
      → fits (r.hdel k f d).1 L j ≡ (
          if eq_text k j && not (same_kind hashes L)
          then refit (r.hdel k f d).1 L j
          else fits d L j)
  pub sadd_reply :
      (k x : Text) (d : Db)
      → (r.sadd k x d).0
        ≡ (if fits d sets k then ok (one_if (not ((view d).member k x))) else error)
  pub sadd_view :
      (k x : Text) (d : Db)
      → view (r.sadd k x d).1 ≡ (if fits d sets k then with_member k x true (view d) else view d)
  pub sadd_live :
      (k x : Text) (d : Db) (j : Text)
      → live (r.sadd k x d).1 j ≡ (if eq_text k j && fits d sets k then true else live d j)
  pub sadd_fits :
      (k x : Text) (d : Db) (L : Kind) (j : Text)
      → fits (r.sadd k x d).1 L j
        ≡ (if eq_text k j && not (same_kind sets L) then refit (r.sadd k x d).1 L j else fits d L j)
  pub srem_reply :
      (k x : Text) (d : Db)
      → (r.srem k x d).0 ≡ (if fits d sets k then ok (one_if ((view d).member k x)) else error)
  pub srem_view :
      (k x : Text) (d : Db)
      → view (r.srem k x d).1 ≡ (if fits d sets k then with_member k x false (view d) else view d)
  pub srem_live :
      (k x : Text) (d : Db) (j : Text)
      → live (r.srem k x d).1 j
        ≡ (if eq_text k j && fits d sets k then relive (r.srem k x d).1 j else live d j)
  pub srem_fits :
      (k x : Text) (d : Db) (L : Kind) (j : Text)
      → fits (r.srem k x d).1 L j
        ≡ (if eq_text k j && not (same_kind sets L) then refit (r.srem k x d).1 L j else fits d L j)
  pub rpush_reply :
      (k x : Text) (d : Db)
      → (r.rpush k x d).0 ≡ (if fits d lists k then ok (length ((view d).items k) + 1) else error)
  pub rpush_view :
      (k x : Text) (d : Db)
      → view (r.rpush k x d).1
        ≡ (if fits d lists k then with_items k ((view d).items k ++ x ∷ []) (view d) else view d)
  pub rpush_live :
      (k x : Text) (d : Db) (j : Text)
      → live (r.rpush k x d).1 j ≡ (if eq_text k j && fits d lists k then true else live d j)
  pub rpush_fits :
      (k x : Text) (d : Db) (L : Kind) (j : Text)
      → fits (r.rpush k x d).1 L j ≡ (
          if eq_text k j && not (same_kind lists L)
          then refit (r.rpush k x d).1 L j
          else fits d L j)
  pub lpop_reply :
      (k : Text) (d : Db)
      → (r.lpop k d).0 ≡ (if fits d lists k then ok (head_of ((view d).items k)) else error)
  pub lpop_view :
      (k : Text) (d : Db)
      → view (r.lpop k d).1
        ≡ (if fits d lists k then with_items k (rest_of ((view d).items k)) (view d) else view d)
  pub lpop_live :
      (k : Text) (d : Db) (j : Text)
      → live (r.lpop k d).1 j
        ≡ (if eq_text k j && fits d lists k then relive (r.lpop k d).1 j else live d j)
  pub lpop_fits :
      (k : Text) (d : Db) (L : Kind) (j : Text)
      → fits (r.lpop k d).1 L j
        ≡ (if eq_text k j && not (same_kind lists L) then refit (r.lpop k d).1 L j else fits d L j)
  pub ltrim_reply :
      (k : Text) (n : ℕ) (d : Db)
      → (r.ltrim k (last n) (last 1) d).0 ≡ (if fits d lists k then ok (true) else error)
  pub ltrim_view :
      (k : Text) (n : ℕ) (d : Db)
      → view (r.ltrim k (last n) (last 1) d).1 ≡ (
          if fits d lists k
          then with_items k (last_entries n ((view d).items k)) (view d)
          else view d)
  pub ltrim_live :
      (k : Text) (n : ℕ) (d : Db) (j : Text)
      → live (r.ltrim k (last n) (last 1) d).1 j ≡ (
          if eq_text k j && fits d lists k
          then relive (r.ltrim k (last n) (last 1) d).1 j
          else live d j)
  pub ltrim_fits :
      (k : Text) (n : ℕ) (d : Db) (L : Kind) (j : Text)
      → fits (r.ltrim k (last n) (last 1) d).1 L j ≡ (
          if eq_text k j && not (same_kind lists L)
          then refit (r.ltrim k (last n) (last 1) d).1 L j
          else fits d L j)
  pub lrem_reply :
      (k x : Text) (d : Db)
      → (r.lrem k 1 x d).0
        ≡ (if fits d lists k then ok (one_if (contains x ((view d).items k))) else error)
  pub lrem_view :
      (k x : Text) (d : Db)
      → view (r.lrem k 1 x d).1 ≡ (
          if fits d lists k
          then with_items k (without_first x ((view d).items k)) (view d)
          else view d)
  pub lrem_live :
      (k x : Text) (d : Db) (j : Text)
      → live (r.lrem k 1 x d).1 j
        ≡ (if eq_text k j && fits d lists k then relive (r.lrem k 1 x d).1 j else live d j)
  pub lrem_fits :
      (k x : Text) (d : Db) (L : Kind) (j : Text)
      → fits (r.lrem k 1 x d).1 L j ≡ (
          if eq_text k j && not (same_kind lists L)
          then refit (r.lrem k 1 x d).1 L j
          else fits d L j)
  pub set_reply : (k v : Text) (d : Db) → (r.set k v d).0 ≡ ok (true)
  pub set_view : (k v : Text) (d : Db) → view (r.set k v d).1 ≡ with_value k (some v) (view d)
  pub set_live :
      (k v : Text) (d : Db) (j : Text)
      → live (r.set k v d).1 j ≡ (if eq_text k j then true else live d j)
  pub set_fits :
      (k v : Text) (d : Db) (L : Kind) (j : Text)
      → fits (r.set k v d).1 L j ≡ (if eq_text k j then same_kind texts L else fits d L j)
  -- the value goes by itself after so many seconds; until then it reads as set
  pub set_ex_reply : (k v : Text) (n : ℕ) (d : Db) → (r.set_ex k v n d).0 ≡ ok (true)
  pub set_ex_view :
      (k v : Text) (n : ℕ) (d : Db) → view (r.set_ex k v n d).1 ≡ with_value k (some v) (view d)
  pub set_ex_live :
      (k v : Text) (n : ℕ) (d : Db) (j : Text)
      → live (r.set_ex k v n d).1 j ≡ (if eq_text k j then true else live d j)
  pub set_ex_fits :
      (k v : Text) (n : ℕ) (d : Db) (L : Kind) (j : Text)
      → fits (r.set_ex k v n d).1 L j ≡ (if eq_text k j then same_kind texts L else fits d L j)
  pub del_reply : (k : Text) (d : Db) → (r.del k d).0 ≡ ok (one_if (live d k))
  pub del_view : (k : Text) (d : Db) → view (r.del k d).1 ≡ with_value k none (view d)
  pub del_live :
      (k : Text) (d : Db) (j : Text)
      → live (r.del k d).1 j ≡ (if eq_text k j then false else live d j)
  pub del_fits :
      (k : Text) (d : Db) (L : Kind) (j : Text)
      → fits (r.del k d).1 L j ≡ (if eq_text k j then true else fits d L j)
