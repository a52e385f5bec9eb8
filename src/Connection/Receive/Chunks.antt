-- ===== src/Connection/Receive/Chunks.antt =====
-- How readMessage of connection.cc puts together what it reads.
use chatroom.Base.{
  ◌≡◌, sym, ap, ◌∙◌, ℕ, suc, ◌+◌, ◌<◌, Text, true, List, [], ◌∷◌, ◌++◌, append-nil, append_assoc,
  some, arith, length, lookup, assign, lookup-assign, nat_eq, ==_refl, ◌>>=◌, M, pure, then_step,
}
use chatroom.Protocol.{u32_mod, pack}
use chatroom.Protocol.Framing.{unpack_partial}
use chatroom.World.{World, Connection, Services}
use chatroom.Connection.Receive.{
  fresh_chat, buffer_of, set_buffer, append_chunks, read_frames, read_message, ReadEnd, would_block,
  end_of_file, read_error,
}

abbrev pub joined : List Text → Text
joined [] = []
joined (chunk ∷ rest) = chunk ++ joined rest

-- Writing an entry twice, and writing what is there.
module _ {V : Type 0} where
  assign-assign : (k : ℕ) (v v' : V) (m : List (ℕ × V)) → assign k v (assign k v' m) ≡ assign k v m
  unfolding assign
  assign-assign k v v' [] = ground (arith, ==_refl k)
  assign-assign k v v' ((j, u) ∷ m) = ground (arith, ==_refl k, assign-assign k v v' m)

  assign_there : (k : ℕ) (v : V) (m : List (ℕ × V)) → lookup k m ≡ some v → assign k v m ≡ m
  unfolding lookup assign
  assign_there k v [] h = ground arith
  assign_there k v ((j, u) ∷ m) h = ground (arith, assign_there k v m)

found : (fd : ℕ) (c : Connection) (m : List (ℕ × Connection)) → lookup fd (assign fd c m) ≡ some c
found fd c m = ground (arith, lookup-assign fd fd c m, ==_refl fd)

module _ {Db : Type 0} where
  abbrev buffered : World Db → ℕ → Connection → Text → World Db
  buffered w fd c text = record w {
    connections = assign fd (record c { buffer = text }) w.connections;
  }

  buffer_of_lem :
      (w : World Db) (fd : ℕ) {c : Connection}
      → lookup fd w.connections ≡ some c
      → buffer_of fd w ≡ some (c.buffer, w)
  unfolding buffer_of
  buffer_of_lem w fd there = ground (arith, there)

  set_buffer_lem :
      (w : World Db) (fd : ℕ) {c : Connection} (text : Text)
      → lookup fd w.connections ≡ some c
      → set_buffer fd text w ≡ some (tt, buffered w fd c text)
  unfolding set_buffer
  set_buffer_lem w fd text there = ground (arith, there)

module _ {Db : Type 0} ⦃s : Services Db⦄ where
  append_chunks_lem :
      (chunks : List Text) (w : World Db) (fd : ℕ) {c : Connection}
      → lookup fd w.connections ≡ some c
      → append_chunks fd chunks w ≡ some (tt, buffered w fd c (c.buffer ++ joined chunks))
  unfolding append_chunks pure
  append_chunks_lem [] w fd {c} there =
      ap (λ m. some (tt, record w { connections = m }))
        (sym (
          ap (λ t. assign fd (record c { buffer = t }) w.connections) (append-nil c.buffer)
          ∙ assign_there fd c w.connections there))
  append_chunks_lem (chunk ∷ rest) w fd {c} there =
      then_step (buffer_of fd) _ (buffer_of_lem w fd there)
      ∙ then_step (set_buffer fd (c.buffer ++ chunk)) _
          (set_buffer_lem w fd (c.buffer ++ chunk) there)
      ∙ append_chunks_lem rest (buffered w fd c (c.buffer ++ chunk)) fd (found fd _ w.connections)
      ∙ ap (λ m. some (tt, record w { connections = m }))
          (assign-assign fd _ _ w.connections
            ∙ ap (λ t. assign fd (record c { buffer = t }) w.connections)
                (append_assoc c.buffer chunk (joined rest)))

  append_joined :
      (chunks : List Text) (w : World Db) (fd : ℕ) {c : Connection}
      → lookup fd w.connections ≡ some c
      → append_chunks fd chunks w ≡ append_chunks fd (joined chunks ∷ []) w
  append_joined chunks w fd {c} there =
      append_chunks_lem chunks w fd there
      ∙ sym (
          append_chunks_lem (joined chunks ∷ []) w fd there
          ∙ ap (λ t. some (tt, buffered w fd c (c.buffer ++ t))) (append-nil (joined chunks)))

  alike :
      {A B : Type 0} (m m' : M (World Db) A) (f : A → M (World Db) B) (w : World Db)
      → m w ≡ m' w
      → (m >>= f) w ≡ (m' >>= f) w
  unfolding ◌>>=◌
  alike m m' f w e = ground (arith, e)

  -- For a socket that has a connection, however the reading of the bytes ends, readMessage does
  -- the same when they arrive in several pieces as when they arrive in one.
  pub read_message_joined :
      (fuel fd : ℕ) (chunks : List Text) (end : ReadEnd) (w : World Db) {c : Connection}
      → lookup fd w.connections ≡ some c
      → read_message fuel fd chunks end w ≡ read_message fuel fd (joined chunks ∷ []) end w
  unfolding read_message
  read_message_joined fuel fd chunks end_of_file w there =
      alike (append_chunks fd chunks) _ _ w (append_joined chunks w fd there)
  read_message_joined fuel fd chunks would_block w there =
      alike (append_chunks fd chunks) _ _ w (append_joined chunks w fd there)
  read_message_joined fuel fd chunks read_error w there =
      alike (append_chunks fd chunks) _ _ w (append_joined chunks w fd there)

  -- Where the buffer of a connection and the pieces that arrive are a proper start of a packed
  -- payload that fits in a frame, and the socket then has no more, readMessage handles nothing
  -- and keeps the connection: the pieces are appended to the buffer and nothing else changes.
  pub read_message_waits :
      (fuel fd : ℕ) (chunks : List Text) (p missing : Text) (w : World Db) (c : Connection)
      → lookup fd w.connections ≡ some c
      → length p + 4 < u32_mod
      → (c.buffer ++ joined chunks) ++ missing ≡ pack p
      → 0 < length missing
      → read_message (suc fuel) fd chunks would_block w
        ≡ some (
          true,
          record w {
            connections = assign fd (record c { buffer = c.buffer ++ joined chunks }) w.connections;
          },
        )
  unfolding read_message read_frames pure
  read_message_waits fuel fd chunks p missing w c there fits e short =
      let v = buffered w fd c (c.buffer ++ joined chunks) in
      let there_v = found fd (record c { buffer = c.buffer ++ joined chunks }) w.connections in
      then_step (append_chunks fd chunks) _ (append_chunks_lem chunks w fd there)
      ∙ then_step (read_frames (suc fuel) fd) _ (
          then_step (buffer_of fd) _ (buffer_of_lem v fd there_v)
          ∙ rw
              (unpack_partial s.parse p (c.buffer ++ joined chunks) missing fresh_chat fits e short)
              (then_step (set_buffer fd (c.buffer ++ joined chunks)) _
                  (set_buffer_lem v fd (c.buffer ++ joined chunks) there_v)
                ∙ ap (λ m. some (tt, record w { connections = m }))
                    (assign-assign fd _ _ w.connections)))
