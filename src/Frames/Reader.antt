-- ===== src/Frames/Reader.antt =====
-- The decoder as an automaton that reads one byte at a time.
use mathlib.Core.List.{append_assoc, append-nil}
use network_self_md.Prelude.{
  ℕ, ◌+◌, ◌≤◌, ◌<◌, ◌≡◌, refl, sym, ap, ◌∙◌, true, false, none, some, inl, inr, List, [], ◌∷◌, ◌++◌,
  arith, Bytes, length, length-append, ltb, lt→ltb, ltb→lt, ≢→==, ==→≢, ◌==◌, if◌then◌else◌,
  Bool-cases,
}
use network_self_md.Prelude.Results.{Result, ok, err, ◌>>=◌, bind-ext, bind_assoc}
use network_self_md.Frames.{
  TtyaFrameDecoder, FrameError, invalid_frame_length, new, get_uint32, is_frame_length,
}

-- A decoder between two bytes.
pub data IsReading : TtyaFrameDecoder → Type 0 where
  in_header : (h : Bytes) → length h < 4 → IsReading (record { header = h; payload = none })
  in_payload :
      (size : ℕ) (got : Bytes)
      → length got < size
      → IsReading (record { header = []; payload = some (size, got) })

abbrev pub Read : Type 0
Read = Result FrameError (TtyaFrameDecoder × List Bytes)

abbrev pub read_header : Bytes → Read
read_header h =
    if ltb (length h) 4
    then ok (record { header = h; payload = none }, [])
    else if is_frame_length (get_uint32 h)
    then ok (record { header = []; payload = some (get_uint32 h, []) }, [])
    else err (invalid_frame_length (get_uint32 h))

abbrev pub read_payload : ℕ → Bytes → Read
read_payload size got =
    if length got == size
    then ok (new, got ∷ [])
    else ok (record { header = []; payload = some (size, got) }, [])

unfoldable pub read_byte : TtyaFrameDecoder → ℕ → Read
read_byte d b = elim d.payload [
  | none ↦ read_header (d.header ++ b ∷ [])
  | some (size, got) ↦ read_payload size (got ++ b ∷ [])
]

-- The bytes in turn; the frames so far come first.
unfoldable pub read : TtyaFrameDecoder → Bytes → List Bytes → Read
unfolding read_byte
read d [] frames = ok (d, frames)
read d (b ∷ bs) frames = read_byte d b >>= λ r. read r.0 bs (frames ++ r.1)

abbrev pub after : Bytes → List Bytes → TtyaFrameDecoder × List Bytes → Read
after rest frames r = read r.0 rest (frames ++ r.1)

-- Bytes that complete a header, or less, are read at once.
pub read-header :
    (xs h : Bytes) (rest : Bytes) (frames : List Bytes)
    → 1 ≤ length xs
    → length h + length xs ≤ 4
    → read (record { header = h; payload = none }) (xs ++ rest) frames
      ≡ read_header (h ++ xs) >>= after rest frames
unfolding read read_byte
read-header [] h rest frames some_bytes fits = absurd (omega arith)
read-header (x ∷ []) h rest frames some_bytes fits = refl
read-header (x ∷ y ∷ ys) h rest frames some_bytes fits =
    let short : ltb (length (h ++ x ∷ [])) 4 ≡ true =
      lt→ltb _ _ (omega (arith, length-append h (x ∷ []))) in
    rw (short, append-nil frames)
      (read-header (y ∷ ys) (h ++ x ∷ []) rest frames (omega arith)
          (omega (arith, length-append h (x ∷ [])))
        ∙ ap (λ l. read_header l >>= after rest frames) (append_assoc h (x ∷ []) (y ∷ ys)))

-- So are bytes that complete a payload, or less.
pub read-payload :
    (xs got : Bytes) (size : ℕ) (rest : Bytes) (frames : List Bytes)
    → 1 ≤ length xs
    → length got + length xs ≤ size
    → read (record { header = []; payload = some (size, got) }) (xs ++ rest) frames
      ≡ read_payload size (got ++ xs) >>= after rest frames
unfolding read read_byte
read-payload [] got size rest frames some_bytes fits = absurd (omega arith)
read-payload (x ∷ []) got size rest frames some_bytes fits = refl
read-payload (x ∷ y ∷ ys) got size rest frames some_bytes fits =
    let short : (length (got ++ x ∷ []) == size) ≡ false =
      ≢→== _ _ (omega (arith, length-append got (x ∷ []))) in
    rw (short, append-nil frames)
      (read-payload (y ∷ ys) (got ++ x ∷ []) size rest frames (omega arith)
          (omega (arith, length-append got (x ∷ [])))
        ∙ ap (λ l. read_payload size l >>= after rest frames) (append_assoc got (x ∷ []) (y ∷ ys)))

pub is_frame_length-pos : (n : ℕ) → is_frame_length n ≡ true → 0 < n
is_frame_length-pos n h = ground arith

pub read-append :
    (xs : Bytes) (d : TtyaFrameDecoder) (ys : Bytes) (frames : List Bytes)
    → read d (xs ++ ys) frames ≡ read d xs frames >>= λ r. read r.0 ys r.1
unfolding read
read-append [] d ys frames = refl
read-append (x ∷ xs) d ys frames =
    bind-ext (read_byte d x) _ _ (λ r. read-append xs r.0 ys (frames ++ r.1))
    ∙ sym (bind_assoc (read_byte d x) _ _)

-- Frames that were there before stay in front.
pub read-frames :
    (bs : Bytes) (d : TtyaFrameDecoder) (old frames : List Bytes)
    → read d bs (old ++ frames) ≡ read d bs frames >>= λ r. ok (r.0, old ++ r.1)
unfolding read
read-frames [] d old frames = refl
read-frames (b ∷ bs) d old frames =
    bind-ext (read_byte d b) _ _
      (λ r. ap (read r.0 bs) (append_assoc old frames r.1) ∙ read-frames bs r.0 old (frames ++ r.1))
    ∙ sym (bind_assoc (read_byte d b) _ _)

-- What holds of a decoder that a read returned.
abbrev pub Leaves : (TtyaFrameDecoder → Type 0) → Read → Type 0
Leaves P (ok r) = P r.0
Leaves P (err e) = Unit {0}

Leaves->>= :
    (P : TtyaFrameDecoder → Type 0) (o : Read) (k : TtyaFrameDecoder × List Bytes → Read)
    → Leaves P o
    → ((r : TtyaFrameDecoder × List Bytes) → P r.0 → Leaves P (k r))
    → Leaves P (o >>= k)
Leaves->>= P (ok r) k h g = g r h
Leaves->>= P (err e) k h g = tt

read_byte-IsReading :
    (d : TtyaFrameDecoder) (b : ℕ) → IsReading d → Leaves IsReading (read_byte d b)
unfolding read_byte
read_byte-IsReading d b (in_payload size got l) =
    elim (Bool-cases (length (got ++ b ∷ []) == size)) [
      | inl full ↦ rw full (in_header [] (omega arith))
      | inr part ↦
          rw part (in_payload size _ (omega (arith, length-append got (b ∷ []), ==→≢ _ _ part)))
    ]
read_byte-IsReading d b (in_header h l) = elim (Bool-cases (ltb (length (h ++ b ∷ [])) 4)) [
  | inl short ↦ rw short (in_header _ (ltb→lt _ _ short))
  | inr whole ↦ elim (Bool-cases (is_frame_length (get_uint32 (h ++ b ∷ [])))) [
    | inl good ↦ rw (whole, good) (in_payload _ [] (is_frame_length-pos _ good))
    | inr bad ↦ rw (whole, bad) tt
  ]
]

pub read-IsReading :
    (d : TtyaFrameDecoder) (bs : Bytes) (frames : List Bytes)
    → IsReading d
    → Leaves IsReading (read d bs frames)
unfolding read
read-IsReading d [] frames r = r
read-IsReading d (b ∷ bs) frames r =
    Leaves->>= IsReading (read_byte d b) _ (read_byte-IsReading d b r)
      (λ q h. read-IsReading q.0 bs (frames ++ q.1) h)
