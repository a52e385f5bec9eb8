-- ===== src/FileServer/Sockets.antt =====
-- Dataconnect.cc: the loops over accept, recv and send, on the outcomes that these calls will have.
-- `none` is a loop that is not done after them.
pub mod Sending
use chatroom.Base.{
  ℕ, zero, suc, Text, true, false, List, [], ◌∷◌, ◌++◌, Option, none, some, take, drop, length,
  if◌then◌else◌, ltb,
}
use chatroom.FileServer.State.{Recv, Sent}

-- accept_data: both branches for a negative number go on with the loop.
unfoldable pub accept_loop : List (Option ℕ) → Option (ℕ × List (Option ℕ))
accept_loop [] = none
accept_loop (none ∷ rest) = accept_loop rest
accept_loop (some fd ∷ rest) = some (fd, rest)

-- recive_file: what is written to the file, and the outcomes that are left.
unfoldable pub recv_loop : List Recv → Option (Text × List Recv)
recv_loop [] = none
recv_loop (Recv.arrived bytes ∷ rest) = elim (recv_loop rest) [
  | none ↦ none
  | some (more, left) ↦ some (bytes ++ more, left)
]
recv_loop (Recv.closed ∷ rest) = some ([], rest)
recv_loop (Recv.would_block ∷ rest) = recv_loop rest
recv_loop (Recv.failed ∷ rest) = some ([], rest)

-- send_file, the loop over one block: the pieces that were sent. After an error the rest of the
-- block is left out.
unfoldable pub send_loop : List Sent → Text → Option (List Text × List Sent)
send_loop script [] = some ([], script)
send_loop [] (x ∷ xs) = none
send_loop (Sent.took n ∷ rest) (x ∷ xs) = elim (send_loop rest (drop n xs)) [
  | none ↦ none
  | some (pieces, left) ↦ some (take (suc n) (x ∷ xs) ∷ pieces, left)
]
send_loop (Sent.would_block ∷ rest) (x ∷ xs) = send_loop rest (x ∷ xs)
send_loop (Sent.failed ∷ rest) (x ∷ xs) = some ([], rest)

-- send_file, the loop over the blocks of 1024 bytes: it ends with a read that comes to the end of
-- the file. The fuel is the number of blocks.
unfoldable pub send_blocks : ℕ → List Sent → Text → Option (List Text × List Sent)
unfolding send_loop
send_blocks zero script bytes = none
send_blocks (suc fuel) script bytes = elim (send_loop script (take 1024 bytes)) [
  | none ↦ none
  | some (pieces, left) ↦ elim (ltb (length bytes) 1024) [
    | true ↦ some (pieces, left)
    | false ↦ elim (send_blocks fuel left (drop 1024 bytes)) [
      | none ↦ none
      | some (more, left') ↦ some (pieces ++ more, left')
    ]
  ]
]
