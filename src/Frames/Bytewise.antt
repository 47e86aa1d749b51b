-- ===== src/Frames/Bytewise.antt =====
-- A push reads its chunk byte by byte, however many bytes its passes take at once.
use mathlib.Core.List.{append-nil}
use network_self_md.Prelude.{
  ℕ, zero, suc, ◌-◌, ◌≤◌, ◌<◌, ◌≡◌, refl, sym, ap, ◌∙◌, min, false, none, some, inl, inr, List, [],
  ◌∷◌, ◌++◌, arith, Bytes, length, length-append, length-take, length-drop, take, drop,
  take-append-drop, ltb, ltb→lt, ≢→==, ==→≢, ◌==◌, Bool-cases,
}
use network_self_md.Prelude.Results.{Result, ok, err, ◌>>=◌}
use network_self_md.Frames.{
  TtyaFrameDecoder, FrameError, get_uint32, is_frame_length, Pass, fill_payload, pass, passes, push,
}
use network_self_md.Frames.Reader.{
  IsReading, in_header, in_payload, Read, read_header, read_payload, read, read-header,
  read-payload, after, is_frame_length-pos,
}

-- A pass that reads the bytes of its chunk up to its rest.
pub record Reads (d : TtyaFrameDecoder) (chunk : Bytes) (p : Pass) : Type 0 where
  pub reading : IsReading p.decoder
  pub shorter : length p.rest ≤ length chunk
  pub consumes : 1 ≤ length chunk → length p.rest < length chunk
  pub reads :
      (frames : List Bytes) → read d chunk frames ≡ read p.decoder p.rest (frames ++ p.frames)

abbrev room : ℕ → Bytes → Bytes → ℕ
room size got chunk = min (size - length got) (length chunk)

read-room :
    (size : ℕ) (got chunk : Bytes) (frames : List Bytes)
    → length got < size
    → 1 ≤ length chunk
    → read (record { header = []; payload = some (size, got) }) chunk frames
      ≡ read_payload size (got ++ take (room size got chunk) chunk)
        >>= after (drop (room size got chunk) chunk) frames
read-room size got chunk frames l some_bytes =
    ap (λ c. read (record { header = []; payload = some (size, got) }) c frames)
      (sym (take-append-drop (room size got chunk) chunk))
    ∙ read-payload (take (room size got chunk) chunk) got size (drop (room size got chunk) chunk)
        frames (omega (arith, length-take (room size got chunk) chunk))
        (omega (arith, length-take (room size got chunk) chunk))

fill_payload-Reads :
    (size : ℕ) (got chunk : Bytes)
    → length got < size
    → 1 ≤ length chunk
    → Reads (record { header = []; payload = some (size, got) }) chunk (fill_payload size got chunk)
unfolding fill_payload
fill_payload-Reads size got chunk l some_bytes =
    let left = length-drop (room size got chunk) chunk in
    let taken = length-take (room size got chunk) chunk in
    let joined = length-append got (take (room size got chunk) chunk) in
    elim (Bool-cases (length (got ++ take (room size got chunk) chunk) == size)) [
      | inl full ↦ rw full (record {
        reading = in_header [] (omega arith);
        shorter = omega (arith, left);
        consumes = λ h. omega (arith, left);
        reads = λ frames. read-room size got chunk frames l some_bytes ∙ rw full;
      })
      | inr part ↦ rw part (record {
        reading = in_payload size _ (omega (arith, taken, joined, (==→≢ _ _ part)));
        shorter = omega (arith, left);
        consumes = λ h. omega (arith, left);
        reads = λ frames. read-room size got chunk frames l some_bytes ∙ rw part;
      })
    ]

-- A header that is complete may come with none of the payload.
fill_payload-rest :
    (size : ℕ) (chunk : Bytes)
    → 0 < size
    → Reads (record { header = []; payload = some (size, []) }) chunk (fill_payload size [] chunk)
unfolding fill_payload read
fill_payload-rest size [] l =
    let empty : (0 == size) ≡ false = ≢→== 0 size (omega arith) in
    let none_taken : min (size - 0) 0 ≡ 0 = omega arith in
    rw (none_taken, empty)
      (record {
        reading = in_payload size [] l;
        shorter = omega arith;
        consumes = λ h. absurd (omega arith);
        reads = λ frames. rw (append-nil frames);
      })
fill_payload-rest size (b ∷ bs) l = fill_payload-Reads size [] (b ∷ bs) l (omega arith)

abbrev Follows : TtyaFrameDecoder → Bytes → Result FrameError Pass → Type 0
Follows d chunk (ok p) = Reads d chunk p
Follows d chunk (err e) = (frames : List Bytes) → read d chunk frames ≡ err e

abbrev head_room : Bytes → Bytes → ℕ
head_room h chunk = min (4 - length h) (length chunk)

read-head_room :
    (h chunk : Bytes) (frames : List Bytes)
    → length h < 4
    → 1 ≤ length chunk
    → read (record { header = h; payload = none }) chunk frames
      ≡ read_header (h ++ take (head_room h chunk) chunk)
        >>= after (drop (head_room h chunk) chunk) frames
read-head_room h chunk frames l some_bytes =
    ap (λ c. read (record { header = h; payload = none }) c frames)
      (sym (take-append-drop (head_room h chunk) chunk))
    ∙ read-header (take (head_room h chunk) chunk) h (drop (head_room h chunk) chunk) frames
        (omega (arith, length-take (head_room h chunk) chunk))
        (omega (arith, length-take (head_room h chunk) chunk))

pass-Follows :
    (d : TtyaFrameDecoder) (chunk : Bytes)
    → IsReading d
    → 1 ≤ length chunk
    → Follows d chunk (pass d chunk)
unfolding pass
pass-Follows d chunk (in_payload size got l) some_bytes =
    fill_payload-Reads size got chunk l some_bytes
pass-Follows d chunk (in_header h l) some_bytes =
    let left = length-drop (head_room h chunk) chunk in
    let header = h ++ take (head_room h chunk) chunk in
    elim (Bool-cases (ltb (length header) 4)) [
      | inl short ↦ rw short (record {
        reading = in_header _ (ltb→lt _ _ short);
        shorter = omega (arith, left);
        consumes = λ k. omega (arith, left);
        reads = λ frames. read-head_room h chunk frames l some_bytes ∙ rw short;
      })
      | inr whole ↦ elim (Bool-cases (is_frame_length (get_uint32 header))) [
        | inr bad ↦
            rw (whole, bad) (λ frames. read-head_room h chunk frames l some_bytes ∙ rw (whole, bad))
        | inl good ↦
            let fill =
              fill_payload-rest (get_uint32 header) (drop (head_room h chunk) chunk)
                (is_frame_length-pos (get_uint32 header) good) in
            rw (whole, good)
              (record {
                reading = fill.reading;
                shorter = omega (arith, left, fill.shorter);
                consumes = λ k. omega (arith, left, fill.shorter);
                reads = λ frames.
                    read-head_room h chunk frames l some_bytes
                    ∙ rw (whole, good, append-nil frames) (fill.reads frames);
              })
      ]
    ]

-- What follows a pass, whether it throws or not.
follow :
    (d : TtyaFrameDecoder) (chunk : Bytes) (frames : List Bytes) (o : Result FrameError Pass)
    (rest : Pass → Read)
    → Follows d chunk o
    → ((p : Pass) → Reads d chunk p → rest p ≡ read p.decoder p.rest (frames ++ p.frames))
    → (o >>= rest) ≡ read d chunk frames
follow d chunk frames (err e) rest f h = sym (f frames)
follow d chunk frames (ok p) rest f h = h p f ∙ sym (f.reads frames)

passes-read :
    (fuel : ℕ) (d : TtyaFrameDecoder) (chunk : Bytes) (frames : List Bytes)
    → IsReading d
    → length chunk ≤ fuel
    → passes fuel d chunk frames ≡ read d chunk frames
unfolding passes read
passes-read fuel d [] frames r l = refl
passes-read zero d (b ∷ bs) frames r l = absurd (omega arith)
passes-read (suc fuel) d (b ∷ bs) frames r l =
    follow d (b ∷ bs) frames (pass d (b ∷ bs)) _ (pass-Follows d (b ∷ bs) r (omega arith)) (λ p f.
      passes-read fuel p.decoder p.rest (frames ++ p.frames) f.reading
        (omega (arith, f.consumes (omega arith))))

-- Between two bytes, a push reads exactly the bytes of its chunk, one after another.
pub push-read :
    (d : TtyaFrameDecoder) (chunk : Bytes) → IsReading d → push d chunk ≡ read d chunk []
unfolding push
push-read d chunk r = passes-read (length chunk) d chunk [] r (omega arith)
