-- ===== src/FileServer/Queue.antt =====
-- The files that wait from a sender for a receiver (Redis and the disk), as a queue of contents.
use chatroom.Base.{
  ℕ, ◌≡◌, refl, sym, ap, ◌∙◌, Text, eq_text_iff, eq_text_refl, text_eq, false, List, [], ◌∷◌, ◌++◌,
  Option, some, lookup, assign, lookup-assign, if◌then◌else◌, map, arith, ◌==◌, append_assoc,
}
use chatroom.Redis.Documented.{Documented, contains, without_first}
use chatroom.RedisClient.Kinded.Files.{names_key}
use chatroom.FileServer.State.{Ftp, FtpServices, ftp_redis, bytes_to}
use chatroom.FileServer.Sockets.Sending.{concat}

-- The contents of the named files.
abbrev pub contents : List (Text × Text) → List Text → List (Option Text)
contents disk names = map (λ name. lookup name disk) names

-- The files that wait for `to_name` from `from_name`, the oldest first: `none` is a name without
-- a file.
abbrev pub waiting :
    {Db : Type 0} ⦃s : FtpServices Db⦄ (doc : Documented s.redis)
    → Text
    → Text
    → Ftp Db
    → List (Option Text)
waiting doc from_name to_name w =
    contents w.disk ((doc.view w.db).items (names_key from_name to_name))

-- Writing a file that is not named changes none of the contents.
pub contents-assign :
    (p bytes : Text) (disk : List (Text × Text)) (names : List Text)
    → contains p names ≡ false
    → contents (assign p bytes disk) names ≡ contents disk names
contents-assign p bytes disk [] h = refl
contents-assign p bytes disk (q ∷ names) h = ground (
  arith,
  lookup-assign p q bytes disk,
  eq_text_iff p q,
  eq_text_iff q p,
  contents-assign p bytes disk names,
)

pub contents-append :
    (disk : List (Text × Text)) (xs ys : List Text)
    → contents disk (xs ++ ys) ≡ contents disk xs ++ contents disk ys
contents-append disk [] ys = refl
contents-append disk (x ∷ xs) ys = ap (◌∷◌ (lookup x disk)) (contents-append disk xs ys)

-- A new file behind the others.
pub contents_new :
    (p bytes : Text) (disk : List (Text × Text)) (names : List Text)
    → contains p names ≡ false
    → contents (assign p bytes (assign p [] disk)) (names ++ p ∷ [])
      ≡ contents disk names ++ some bytes ∷ []
contents_new p bytes disk names h =
    contents-append (assign p bytes (assign p [] disk)) names (p ∷ [])
    ∙ ap (λ xs. xs ++ lookup p (assign p bytes (assign p [] disk)) ∷ [])
        (contents-assign p bytes (assign p [] disk) names h ∙ contents-assign p [] disk names h)
    ∙ ap (λ o. contents disk names ++ o ∷ [])
        (lookup-assign p p bytes (assign p [] disk) ∙ rw (eq_text_refl p) refl)

-- The name of the oldest file, and what is left without it.
pub oldest :
    (disk : List (Text × Text)) (names : List Text) {bytes : Text} {rest : List (Option Text)}
    → contents disk names ≡ some bytes ∷ rest
    → (name : Text) × (more : List Text) × (names ≡ name ∷ more)
      × (lookup name disk ≡ some bytes)
      × (contents disk more ≡ rest)
      × (without_first name names ≡ more)
oldest disk [] h = absurd (cc)
oldest disk (name ∷ more) h = (name, more, refl, cc, cc, rw (eq_text_refl name) refl)

pub bytes_to-append :
    (fd : ℕ) (xs ys : List (ℕ × Text)) → bytes_to fd (xs ++ ys) ≡ bytes_to fd xs ++ bytes_to fd ys
unfolding bytes_to
bytes_to-append fd [] ys = refl
bytes_to-append fd ((j, piece) ∷ xs) ys =
    ap (◌++◌ (if j == fd then piece else [])) (bytes_to-append fd xs ys)
    ∙ sym (append_assoc (if j == fd then piece else []) (bytes_to fd xs) (bytes_to fd ys))

-- Pieces that went to one socket.
pub bytes_to-pieces :
    (fd : ℕ) (pieces : List Text) → bytes_to fd (map (λ piece. (fd, piece)) pieces) ≡ concat pieces
unfolding bytes_to
bytes_to-pieces fd [] = refl
bytes_to-pieces fd (piece ∷ pieces) = rw (bytes_to-pieces fd pieces) (ground arith)
