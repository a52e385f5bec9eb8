-- ===== src/Tests/Frames.antt =====
-- Examples of frames and of the uuid.
use chatroom.Base.{
  suc, ◌+◌, ◌-◌, ◌≡◌, refl, Text, Bool, true, [], ◌∷◌, ◌++◌, none, some, arith, map, length, drop,
  take, Returns,
}
use chatroom.Protocol.{u32_mod, htonl_bytes, ntohl_bytes, pack, parse_msg, unpack, frames}
use chatroom.Protocol.Framing.{unpack_wrapped, frames_stuck, frames-stream, stream}
use chatroom.Protocol.Uuid.{generate_uuid}
use chatroom.Protocol.Uuid.Shape.{generate_uuid_lem, uuid_of}
use chatroom.Tests.{services, world}

abbrev echo : Text → Bool × Text
echo bytes = (true, bytes)

abbrev hello : Text
hello = b'h' ∷ b'i' ∷ []

abbrev short : Text
short = 0 ∷ 0 ∷ 0 ∷ 2 ∷ b'h' ∷ []

-- The length 2 ^ 32 - 4
abbrev wrapping : Text
wrapping = 255 ∷ 255 ∷ 255 ∷ 252 ∷ []

unpack_wrapped_example : unpack echo wrapping [] ≡ (
  true,
  drop (0xffff_fffc + 4 - u32_mod) wrapping,
  parse_msg echo (take 0xffff_fffc (drop 4 wrapping)),
)
unfolding ntohl_bytes
unpack_wrapped_example =
    unpack_wrapped echo 0xffff_fffc wrapping [] refl (omega arith) (omega arith) (omega arith)

frames_stuck_example : frames echo [] 5 wrapping ≡ none
unfolding ntohl_bytes
frames_stuck_example = frames_stuck echo 5 wrapping [] refl (omega arith)

frames-stream_example :
    frames echo [] (suc (length (hello ∷ hello ∷ []))) (stream (hello ∷ hello ∷ []) ++ short)
    ≡ some (map (parse_msg echo) (hello ∷ hello ∷ []), short)
unfolding pack htonl_bytes
frames-stream_example =
    frames-stream echo (hello ∷ hello ∷ []) hello short (b'i' ∷ []) []
      (omega arith, (omega arith, tt)) (omega arith) refl (omega arith)

generate_uuid_lem_example : Returns generate_uuid (world []) (λ u w'.
    (u ≡ uuid_of (λ k. services.hex_digit ((world []).draws + k)))
    × (length u ≡ 36)
    × (w' ≡ record (world []) { draws = (world []).draws + 32 }))
generate_uuid_lem_example = generate_uuid_lem (λ n. omega arith) (world [])
