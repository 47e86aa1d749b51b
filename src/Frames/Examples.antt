-- ===== src/Frames/Examples.antt =====
-- Two frames on a stream that is cut inside a header and inside a payload.
use network_self_md.Prelude.{◌≡◌, refl, arith, List, [], ◌∷◌, Bytes}
use network_self_md.Prelude.Results.{ok, err}
use network_self_md.Bytes.{big_endian}
use network_self_md.Frames.{TtyaFrameDecoder, FrameError, new, encode_frame}
use network_self_md.Frames.Reader.{in_header}
use network_self_md.Frames.RoundTrip.{
  push_each, concat, encode_each, push_each-recut, push_each-encode_each,
}

abbrev payloads : List Bytes
payloads = (7 ∷ 8 ∷ []) ∷ (9 ∷ []) ∷ []

abbrev chunks : List Bytes
chunks = (0 ∷ 0 ∷ []) ∷ (0 ∷ 2 ∷ 7 ∷ []) ∷ [] ∷ (8 ∷ 0 ∷ 0 ∷ 0 ∷ 1 ∷ []) ∷ (9 ∷ []) ∷ []

push_each-encode_each_example : push_each new chunks [] ≡ ok (new, payloads)
push_each-encode_each_example = push_each-encode_each payloads chunks encoded
  where
    encoded : encode_each payloads ≡ ok (concat chunks)
    encoded = unfold encode_each encode_frame big_endian in refl

abbrev whole : List Bytes
whole = concat chunks ∷ []

push_each-recut_example :
    ((r : TtyaFrameDecoder × List Bytes)
      → push_each new chunks [] ≡ ok r
      → push_each new whole [] ≡ ok r)
    × ((e : FrameError) → push_each new chunks [] ≡ err e → push_each new whole [] ≡ err e)
push_each-recut_example = push_each-recut chunks whole new (in_header [] (omega arith)) refl
