-- ===== src/Protocol/Codec8/Framing.antt =====
-- TCP framing of codec8.ts: `extractFrame` splits whole frames off the stream, however it arrives.
use fleet_tracking_system.Common.{
  ℕ, ◌+◌, ◌≤◌, ◌<◌, List, ◌∷◌, ◌++◌, ◌≡◌, arith, Option, none, some, length, take, drop, ltb,
  nat_eq, if◌then◌else◌, Bool-cases, inl, inr, length-append, length-take, length-drop,
  take-append_le, drop-append_le, take-append_eq, drop-append_eq, take-append-drop,
}
use fleet_tracking_system.Protocol.Fault.{ok}
use fleet_tracking_system.Protocol.Reader.{Reader, u32, be16}
use fleet_tracking_system.Protocol.Reader.RoundTrip.{read_be-append, read_be-total}
use fleet_tracking_system.Protocol.Frame.{framed, framed-append, length-framed, size-header}
use fleet_tracking_system.Protocol.Codec8.{extract_frame}

u32-append :
    (r more : Reader) {v : ℕ} {s : Reader} → u32 r ≡ ok (v, s) → u32 (r ++ more) ≡ ok (v, s ++ more)
unfolding u32
u32-append r more h = read_be-append 4 0 r more h

u32-total : (r : Reader) → 4 ≤ length r → (v : ℕ) × (s : Reader) × (u32 r ≡ ok (v, s))
unfolding u32
u32-total r h = read_be-total 4 0 r h

size-framed :
    (n : ℕ) (field : List ℕ) (c : ℕ) (rest : List ℕ)
    → n < 4294967296
    → u32 (drop 4 (framed n field c ++ rest)) ≡ ok (n, field ++ (0 ∷ 0 ∷ (be16 c ++ rest)))
size-framed n field c rest h = rw framed-append (size-header n _ h)

-- A packet in front of the stream is split off, and all that follows it is left.
pub extract_frame-framed :
    (field : List ℕ) (c : ℕ) (rest : List ℕ)
    → length field < 4294967296
    → extract_frame (framed (length field) field c ++ rest)
      ≡ ok (some (framed (length field) field c, rest))
unfolding extract_frame
extract_frame-framed field c rest h =
    let f = framed (length field) field c in
    ground (
      arith,
      size-framed (length field) field c rest h,
      length-framed (length field) field c,
      length-append f rest,
      take-append_eq (8 + length field + 4) f rest,
      drop-append_eq (8 + length field + 4) f rest,
    )

-- Framing never throws.
pub extract_frame-total :
    (buf : List ℕ) → (o : Option (List ℕ × List ℕ)) × (extract_frame buf ≡ ok o)
unfolding extract_frame
extract_frame-total buf = elim (Bool-cases (ltb (length buf) 8)) [
  | inl short ↦ (none, ground arith)
  | inr long ↦
      let (n, s, e) = u32-total (drop 4 buf) (ground (arith, length-drop 4 buf)) in
      (
        (if ltb (length buf) (8 + n + 4)
            then none
            else some (take (8 + n + 4) buf, drop (8 + n + 4) buf)),
        ground arith,
      )
]

-- A frame and what is left make up the buffer, and a frame has 12 bytes at least.
pub extract_frame_sound :
    (buf : List ℕ) {frame rest : List ℕ}
    → extract_frame buf ≡ ok (some (frame, rest))
    → (frame ++ rest ≡ buf) × (12 ≤ length frame) × (length rest + 12 ≤ length buf)
unfolding extract_frame
extract_frame_sound buf h = elim (Bool-cases (ltb (length buf) 8)) [
  | inl short ↦ ground arith
  | inr long ↦
      let (n, s, e) = u32-total (drop 4 buf) (ground (arith, length-drop 4 buf)) in
      ground (
        arith,
        take-append-drop (8 + n + 4) buf,
        length-take (8 + n + 4) buf,
        length-drop (8 + n + 4) buf,
      )
]

-- Bytes that arrive later go to what is left: the frame that is split off stays the same.
pub extract_frame-append :
    (buf more : List ℕ) {frame rest : List ℕ}
    → extract_frame buf ≡ ok (some (frame, rest))
    → extract_frame (buf ++ more) ≡ ok (some (frame, rest ++ more))
unfolding extract_frame
extract_frame-append buf more h = elim (Bool-cases (ltb (length buf) 8)) [
  | inl short ↦ ground arith
  | inr long ↦
      let (n, s, e) = u32-total (drop 4 buf) (ground (arith, length-drop 4 buf)) in
      ground (
        arith,
        length-append buf more,
        drop-append_le 4 buf more,
        u32-append (drop 4 buf) more e,
        take-append_le (8 + n + 4) buf more,
        drop-append_le (8 + n + 4) buf more,
      )
]
