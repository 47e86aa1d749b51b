-- ===== src/Frames/RoundTrip.antt =====
-- The stream of encoded frames, cut into chunks anywhere, gives the frames back.
use mathlib.Core.List.{append_assoc, append-nil}
use network_self_md.Prelude.{
  ℕ, ◌≤◌, ◌<◌, ◌≡◌, refl, sym, ap, ◌∙◌, Bool, true, false, some, List, [], ◌∷◌, ◌++◌, arith, Bytes,
  length, ==-self, if◌then◌else◌,
}
use network_self_md.Prelude.Results.{Result, ok, err, ◌>>=◌, require, bind_assoc}
use network_self_md.Bytes.{big_endian, u32}
use network_self_md.Frames.{
  TtyaFrameDecoder, FrameError, invalid_frame_length, frame_too_large, new, get_uint32,
  is_frame_length, push, encode_frame,
}
use network_self_md.Frames.Bytewise.{push-read}
use network_self_md.Frames.Reader.{
  IsReading, in_header, Read, read, read-header, read-payload, read-append, read-frames,
  read-IsReading, Leaves, after,
}

-- The chunks that arrive, one push for each, with all the frames that they gave. Where a push throws
-- the connection is given up; the frames of the pushes before are then not looked at here.
pub push_each :
    TtyaFrameDecoder → List Bytes → List Bytes → Result FrameError (TtyaFrameDecoder × List Bytes)
push_each d [] frames = ok (d, frames)
push_each d (chunk ∷ chunks) frames = push d chunk >>= λ r. push_each r.0 chunks (frames ++ r.1)

abbrev pub concat : List Bytes → Bytes
concat [] = []
concat (chunk ∷ chunks) = chunk ++ concat chunks

-- The frames that a sender puts on the stream.
unfoldable pub encode_each : List Bytes → Result FrameError Bytes
encode_each [] = ok []
encode_each (payload ∷ payloads) = do
  frame ← encode_frame payload
  rest ← encode_each payloads
  ok (frame ++ rest)

bind-Leaves :
    (P : TtyaFrameDecoder → Type 0) (o : Read) (f g : TtyaFrameDecoder × List Bytes → Read)
    → Leaves P o
    → ((r : TtyaFrameDecoder × List Bytes) → P r.0 → f r ≡ g r)
    → o >>= f ≡ o >>= g
bind-Leaves P (ok r) f g l h = h r l
bind-Leaves P (err e) f g l h = refl

-- Chunks that follow one another are read as the one stream that they are cut from.
push_each-concat :
    (chunks : List Bytes) (d : TtyaFrameDecoder) (frames : List Bytes)
    → IsReading d
    → push_each d chunks frames ≡ read d (concat chunks) frames
unfolding push_each read
push_each-concat [] d frames r = refl
push_each-concat (chunk ∷ chunks) d frames r = rw (push-read d chunk r) (
    bind-Leaves IsReading (read d chunk []) _ _ (read-IsReading d chunk [] r)
      (λ q h. push_each-concat chunks q.0 (frames ++ q.1) h)
    ∙ sym (
        read-append chunk d (concat chunks) frames
        ∙ ap (λ l. read d chunk l >>= λ q. read q.0 (concat chunks) q.1) (sym (append-nil frames))
        ∙ ap (λ o. o >>= λ q. read q.0 (concat chunks) q.1) (read-frames chunk d frames [])
        ∙ bind_assoc (read d chunk []) _ _))

get_uint32-u32 : (n : ℕ) → n ≤ 65536 → get_uint32 (u32 n) ≡ n
unfolding big_endian
get_uint32-u32 n l = omega arith

is_frame_length-bounds : (n : ℕ) → is_frame_length n ≡ true → (0 < n) × (n ≤ 65536)
is_frame_length-bounds n h = ground arith

read-frame :
    (payload rest : Bytes) (frames : List Bytes)
    → is_frame_length (length payload) ≡ true
    → read new ((u32 (length payload) ++ payload) ++ rest) frames
      ≡ read new rest (frames ++ payload ∷ [])
unfolding big_endian
read-frame payload rest frames h =
    let n : ℕ = length payload in
    let (some_bytes, fits) = is_frame_length-bounds n h in
    let same : get_uint32 (u32 n) ≡ n = get_uint32-u32 n fits in
    read-header (u32 n) [] (payload ++ rest) frames (omega arith) (omega arith)
    ∙ ap
        (λ m.
          (if is_frame_length m
            then ok (record { header = []; payload = some (m, []) }, [])
            else err (invalid_frame_length m))
          >>= after (payload ++ rest) frames)
        same
    ∙ rw (h, append-nil frames)
        (read-payload payload [] n rest frames some_bytes (omega arith) ∙ rw (==-self n))

ok-injective : (a b : Bytes) (o : Result FrameError Bytes) → o ≡ ok a → o ≡ ok b → a ≡ b
ok-injective a b o h k = cc (h, k)

-- The stream of one payload and more: the frame, and the stream of the others.
split_stream :
    (payload : Bytes) (stream : Bytes) (o : Result FrameError Bytes) (b : Bool)
    → ((require b frame_too_large >>= λ u. ok (u32 (length payload) ++ payload)) >>= λ frame.
        o >>= λ rest. ok (frame ++ rest))
      ≡ ok stream
    → (b ≡ true)
      × ((rest : Bytes) × ((o ≡ ok rest) × (stream ≡ (u32 (length payload) ++ payload) ++ rest)))
split_stream payload stream (ok rest) true h =
    (refl, (rest, (refl, sym (ok-injective _ _ _ refl h))))
split_stream payload stream (err e) true h = absurd (cc h)
split_stream payload stream o false h = absurd (cc h)

read-stream :
    (payloads : List Bytes) (stream : Bytes) (frames : List Bytes)
    → encode_each payloads ≡ ok stream
    → read new stream frames ≡ ok (new, frames ++ payloads)
unfolding read encode_each encode_frame
read-stream [] stream frames h = rw (sym (ok-injective [] stream _ refl h), append-nil frames)
read-stream (payload ∷ payloads) stream frames h =
    let (good, (rest, (others, cut))) =
      split_stream payload stream (encode_each payloads) (is_frame_length (length payload)) h in
    rw cut (
      read-frame payload rest frames good
      ∙ read-stream payloads rest (frames ++ payload ∷ []) others
      ∙ ap (λ l. ok (new, l)) (append_assoc frames (payload ∷ []) payloads))

-- The stream of any payloads that the encoder took, cut into chunks anywhere, is decoded to these
-- payloads in order, and the decoder then stands as it was made.
pub push_each-encode_each :
    (payloads chunks : List Bytes)
    → encode_each payloads ≡ ok (concat chunks)
    → push_each new chunks [] ≡ ok (new, payloads)
push_each-encode_each payloads chunks h =
    push_each-concat chunks new [] (in_header [] (omega arith))
    ∙ read-stream payloads (concat chunks) [] h

-- A stream is cut into chunks in two ways, and is read from the same decoder. Where the chunks of one
-- way are all read, so are those of the other, with the same frames and the same decoder at the end.
-- Where one of the pushes of one way throws, so does one of the other, with the same error. Which
-- frames came before that error is not compared.
pub push_each-recut :
    (chunks chunks' : List Bytes) (d : TtyaFrameDecoder)
    → IsReading d
    → concat chunks ≡ concat chunks'
    → ((r : TtyaFrameDecoder × List Bytes)
        → push_each d chunks [] ≡ ok r
        → push_each d chunks' [] ≡ ok r)
      × ((e : FrameError) → push_each d chunks [] ≡ err e → push_each d chunks' [] ≡ err e)
push_each-recut chunks chunks' d reading same =
    let equal : push_each d chunks' [] ≡ push_each d chunks [] =
      push_each-concat chunks' d [] reading
      ∙ ap (λ s. read d s []) (sym same)
      ∙ sym (push_each-concat chunks d [] reading) in
    (λ r h. equal ∙ h, λ e h. equal ∙ h)
