-- ===== src/Frames.antt =====
-- The frames of the TTYA relay: `TTYAFrameDecoder` of packages/core/src/protocol/ttya-auth.ts, and
-- `encodeFrame` of packages/web/src/bridge.ts, from the encoded message on.
pub mod Reader
pub mod Bytewise
pub mod RoundTrip
mod Examples
use network_self_md.Prelude.{
  ℕ, zero, suc, ◌+◌, ◌-◌, ◌*◌, min, Bool, true, false, ◌||◌, Option, none, some, List, [], ◌∷◌,
  ◌++◌, Bytes, length, take, drop, ltb, leb, ◌==◌, if◌then◌else◌,
}
use network_self_md.Prelude.Results.{Result, ok, err, ◌>>=◌, ◌>>◌, require}
use network_self_md.Bytes.{big_endian, u32}

abbrev pub max_ttya_frame_size : ℕ
max_ttya_frame_size = 65536

-- The bytes of `header` up to `headerOffset`; and the length of `payload`, where one is being read,
-- with its bytes up to `payloadOffset`.
pub record TtyaFrameDecoder : Type 0 where
  pub header : Bytes
  pub payload : Option (ℕ × Bytes)

pub data FrameError : Type 0 where
  invalid_frame_length : ℕ → FrameError
  frame_too_large : FrameError

abbrev pub new : TtyaFrameDecoder
new = record { header = []; payload = none }

-- `DataView.getUint32(0, false)`.
abbrev pub get_uint32 : Bytes → ℕ
get_uint32 (a ∷ b ∷ c ∷ d ∷ _) = ((a * 256 + b) * 256 + c) * 256 + d
get_uint32 _ = 0

abbrev pub is_frame_length : ℕ → Bool
is_frame_length n = if n == 0 then false else leb n max_ttya_frame_size

-- What one pass of the loop leaves of the chunk, and the frame that it completed.
pub record Pass : Type 0 where
  pub decoder : TtyaFrameDecoder
  pub rest : Bytes
  pub frames : List Bytes

pub fill_payload : ℕ → Bytes → Bytes → Pass
fill_payload size got chunk =
    let count = min (size - length got) (length chunk) in
    let grown = got ++ take count chunk in
    if length grown == size
    then record { decoder = new; rest = drop count chunk; frames = grown ∷ [] }
    else record {
      decoder = record { header = []; payload = some (size, grown) };
      rest = drop count chunk;
      frames = [];
    }

-- One pass of the loop in `push`, over a chunk that is not empty.
pub pass : TtyaFrameDecoder → Bytes → Result FrameError Pass
unfolding fill_payload
pass d chunk = elim d.payload [
  | some (size, got) ↦ ok (fill_payload size got chunk)
  | none ↦
      let count = min (4 - length d.header) (length chunk) in
      let header = d.header ++ take count chunk in
      if ltb (length header) 4
      then ok (record {
        decoder = record { header = header; payload = none };
        rest = drop count chunk;
        frames = [];
      })
      else if is_frame_length (get_uint32 header)
      then ok (fill_payload (get_uint32 header) [] (drop count chunk))
      else err (invalid_frame_length (get_uint32 header))
]

-- The loop, with as many passes as the chunk has bytes; `frames` are those of the passes before.
pub passes :
    ℕ → TtyaFrameDecoder → Bytes → List Bytes → Result FrameError (TtyaFrameDecoder × List Bytes)
unfolding pass
passes fuel d [] frames = ok (d, frames)
passes zero d (b ∷ bs) frames = ok (d, frames)
passes (suc fuel) d (b ∷ bs) frames = do
  p ← pass d (b ∷ bs)
  passes fuel p.decoder p.rest (frames ++ p.frames)

-- `push`. Where it throws, the decoder is reset, and the frames that this chunk completed before
-- are lost.
unfoldable pub push : TtyaFrameDecoder → Bytes → Result FrameError (TtyaFrameDecoder × List Bytes)
unfolding passes
push d chunk = passes (length chunk) d chunk []

unfoldable pub reset : TtyaFrameDecoder → TtyaFrameDecoder
reset d = new

-- `encodeFrame`, of the text that `JSON.stringify` gave.
unfoldable pub encode_frame : Bytes → Result FrameError Bytes
encode_frame payload = do
  require (is_frame_length (length payload)) frame_too_large
  ok (u32 (length payload) ++ payload)
