-- ===== src/Ingestion/Handlers/Drain.antt =====
-- The loop of `drain` in session.ts: it leaves no whole frame behind.
use fleet_tracking_system.Common.{
  ℕ, zero, suc, ◌+◌, ◌<◌, List, ◌++◌, ◌≡◌, sym, ◌∙◌, arith, Option, none, some, Text, length,
  nat_eq, inl, inr, length-append,
}
use fleet_tracking_system.Protocol.Fault.{Result, ok, err, Fault}
use fleet_tracking_system.Protocol.Codec8.{extract_frame}
use fleet_tracking_system.Protocol.Codec8.Framing.{
  extract_frame-total, extract_frame_sound, extract_frame-append,
}
use fleet_tracking_system.Ingestion.Dedupe.{Deduper}
use fleet_tracking_system.Ingestion.Exec.{◌>>◌}
use fleet_tracking_system.Ingestion.Records.Laws.{Result-cases}
use fleet_tracking_system.Ingestion.Session.{
  State, outside, modify, resolve_oldest, set_buffer, handle_codec12, extracted,
}
use fleet_tracking_system.Ingestion.Handlers.{handle_frame, drain_frames, drain_all}

-- The session with bytes added behind its buffer.
unfoldable pub extend : {S : Type 0} → List ℕ → State S → State S
extend more s = record s { session = record (s.session) { buffer = s.session.buffer ++ more } }

-- A result with its state extended.
unfoldable pub extend_result : {S A : Type 0} → List ℕ → Result A × State S → Result A × State S
extend_result more (r, s) = (r, extend more s)

module _ (d : Deduper) (sha1_hex : Text → Text) where
  open d use {State as Seen}

  -- Handling a frame reads nothing of the buffer and leaves it alone.
  handle_frame-extend :
      (imei : Text) (frame more : List ℕ) (s : State Seen)
      → handle_frame d sha1_hex imei frame (extend more s)
        ≡ extend_result more (handle_frame d sha1_hex imei frame s)
  unfolding handle_frame handle_codec12 modify resolve_oldest outside extend extend_result
  handle_frame-extend imei frame more s = ground arith

  handle_frame-buffer :
      (imei : Text) (frame : List ℕ) (s : State Seen)
      → (handle_frame d sha1_hex imei frame s).1.session.buffer ≡ s.session.buffer
  unfolding handle_frame handle_codec12 modify resolve_oldest outside
  handle_frame-buffer imei frame s = ground arith

  step-frames :
      (n : ℕ) (imei : Text) (s : State Seen) {frame rest : List ℕ}
      → extract_frame s.session.buffer ≡ ok (some (frame, rest))
      → drain_frames d sha1_hex (suc n) imei s
        ≡ (do handle_frame d sha1_hex imei frame; drain_frames d sha1_hex n imei)
            (record s { session = set_buffer rest s.session })
  unfolding drain_frames extracted modify
  step-frames n imei s h = ground arith

  step-done :
      (n : ℕ) (imei : Text) (s : State Seen)
      → extract_frame s.session.buffer ≡ ok none
      → drain_frames d sha1_hex (suc n) imei s ≡ (ok tt, s)
  unfolding drain_frames extracted
  step-done n imei s h = ground arith

  -- One frame that is handled without a throw, and the loop after it.
  step-ok :
      (n : ℕ) (imei : Text) (s : State Seen) {frame rest : List ℕ} {s' : State Seen}
      → extract_frame s.session.buffer ≡ ok (some (frame, rest))
      → handle_frame d sha1_hex imei frame (record s { session = set_buffer rest s.session })
        ≡ (ok tt, s')
      → drain_frames d sha1_hex (suc n) imei s ≡ drain_frames d sha1_hex n imei s'
  step-ok n imei s h e = ground (arith, step-frames n imei s h)

  step-err :
      (n : ℕ) (imei : Text) (s : State Seen) {frame rest : List ℕ} {x : Fault} {s' : State Seen}
      → extract_frame s.session.buffer ≡ ok (some (frame, rest))
      → handle_frame d sha1_hex imei frame (record s { session = set_buffer rest s.session })
        ≡ (err x, s')
      → drain_frames d sha1_hex (suc n) imei s ≡ (err x, s')
  step-err n imei s h e = ground (arith, step-frames n imei s h)

  -- What the first round meets: no frame, a frame that throws, or a frame that is handled.
  data Round (imei : Text) (s : State Seen) : Type 0 where
    over : extract_frame s.session.buffer ≡ ok none → Round imei s
    thrown :
        (frame rest : List ℕ) (x : Fault) (s' : State Seen)
        → extract_frame s.session.buffer ≡ ok (some (frame, rest))
        → handle_frame d sha1_hex imei frame (record s { session = set_buffer rest s.session })
          ≡ (err x, s')
        → Round imei s
    handled :
        (frame rest : List ℕ) (s' : State Seen)
        → extract_frame s.session.buffer ≡ ok (some (frame, rest))
        → handle_frame d sha1_hex imei frame (record s { session = set_buffer rest s.session })
          ≡ (ok tt, s')
        → s'.session.buffer ≡ rest
        → length rest < length s.session.buffer
        → Round imei s

  Round-of :
      (imei : Text) (s : State Seen) (o : Option (List ℕ × List ℕ))
      → extract_frame s.session.buffer ≡ ok o
      → Round imei s
  unfolding set_buffer
  Round-of imei s none e = over e
  Round-of imei s (some (frame, rest)) e =
      let s1 : State Seen = record s { session = set_buffer rest s.session } in
      let h = handle_frame d sha1_hex imei frame s1 in
      elim (Result-cases h.0) [
        | inl (u, eu) ↦
            handled frame rest h.1 e (ground arith) (handle_frame-buffer imei frame s1)
              (ground (arith, extract_frame_sound s.session.buffer e))
        | inr (x, ex) ↦ thrown frame rest x h.1 e (ground arith)
      ]

  Round-total : (imei : Text) (s : State Seen) → Round imei s
  Round-total imei s = let (o, e) = extract_frame-total s.session.buffer in Round-of imei s o e

  -- When the loop returns, with more rounds than the buffer has bytes, no whole frame is left in the
  -- buffer.
  pub drain_frames_done :
      (n : ℕ) (imei : Text) (s : State Seen)
      → length s.session.buffer < n
      → (drain_frames d sha1_hex n imei s).0 ≡ ok tt
      → extract_frame (drain_frames d sha1_hex n imei s).1.session.buffer ≡ ok none
  drain_frames_done zero imei s hn h = absurd (omega arith)
  drain_frames_done (suc n) imei s hn h = elim (Round-total imei s) [
    | over e ↦ rw (step-done n imei s e) e
    | thrown frame rest x s' e ex ↦ ground (arith, step-err n imei s e ex)
    | handled frame rest s' e eh eb l ↦
        ground (arith, step-ok n imei s e eh, drain_frames_done n imei s' (ground arith))
  ]

  -- More rounds than the buffer has bytes change nothing.
  drain_frames_fuel :
      (n m : ℕ) (imei : Text) (s : State Seen)
      → length s.session.buffer < n
      → length s.session.buffer < m
      → drain_frames d sha1_hex n imei s ≡ drain_frames d sha1_hex m imei s
  drain_frames_fuel zero m imei s hn hm = absurd (omega arith)
  drain_frames_fuel (suc n) zero imei s hn hm = absurd (omega arith)
  drain_frames_fuel (suc n) (suc m) imei s hn hm = elim (Round-total imei s) [
    | over e ↦ step-done n imei s e ∙ sym (step-done m imei s e)
    | thrown frame rest x s' e ex ↦ step-err n imei s e ex ∙ sym (step-err m imei s e ex)
    | handled frame rest s' e eh eb l ↦
        step-ok n imei s e eh
        ∙ drain_frames_fuel n m imei s' (ground arith) (ground arith)
        ∙ sym (step-ok m imei s e eh)
  ]

  handle_frame-later :
      (imei : Text) (more frame rest : List ℕ) (s : State Seen) {s' : State Seen}
      → handle_frame d sha1_hex imei frame (record s { session = set_buffer rest s.session })
        ≡ (ok tt, s')
      → handle_frame d sha1_hex imei frame
          (record (extend more s) { session = set_buffer (rest ++ more) (extend more s).session })
        ≡ (ok tt, extend more s')
  handle_frame-later imei more frame rest s e =
      let s1 : State Seen = record s { session = set_buffer rest s.session } in
      unfold extend set_buffer extend_result in
      ground (arith, e, handle_frame-extend imei frame more s1)

  extract_frame-extend :
      (more : List ℕ) (s : State Seen) {frame rest : List ℕ}
      → extract_frame s.session.buffer ≡ ok (some (frame, rest))
      → extract_frame (extend more s).session.buffer ≡ ok (some (frame, rest ++ more))
  unfolding extend
  extract_frame-extend more s e = extract_frame-append s.session.buffer more e

  length-extend :
      (more : List ℕ) (s : State Seen)
      → length (extend more s).session.buffer ≡ length s.session.buffer + length more
  unfolding extend
  length-extend more s = length-append s.session.buffer more

  drain_frames-extend :
      (n k m : ℕ) (imei : Text) (more : List ℕ) (s s' : State Seen)
      → length s.session.buffer < n
      → length (extend more s).session.buffer < k
      → length (extend more s').session.buffer < m
      → drain_frames d sha1_hex n imei s ≡ (ok tt, s')
      → drain_frames d sha1_hex k imei (extend more s)
        ≡ drain_frames d sha1_hex m imei (extend more s')
  drain_frames-extend zero k m imei more s s' hn hk hm h = absurd (omega arith)
  drain_frames-extend (suc n) zero m imei more s s' hn hk hm h = absurd (omega arith)
  drain_frames-extend (suc n) (suc k) m imei more s s' hn hk hm h = elim (Round-total imei s) [
    | over e ↦
        let same : s ≡ s' = ground (arith, step-done n imei s e) in
        rw (← same) (drain_frames_fuel (suc k) m imei (extend more s) hk (rw same hm))
    | thrown frame rest x s1 e ex ↦ absurd (ground (arith, step-err n imei s e ex))
    | handled frame rest s1 e eh eb l ↦
        step-ok k imei (extend more s) (extract_frame-extend more s e)
          (handle_frame-later imei more frame rest s eh)
        ∙ drain_frames-extend n k m imei more s1 s' (ground arith)
            (ground (arith, length-extend more s, length-extend more s1)) hm
            (sym (step-ok n imei s e eh) ∙ h)
  ]

  -- Draining a buffer and then what has arrived behind it is draining all of it at once: where a
  -- device's bytes are cut into chunks does not matter, as long as no frame throws.
  pub drain_all-extend :
      (imei : Text) (more : List ℕ) (s s' : State Seen)
      → drain_all d sha1_hex imei s ≡ (ok tt, s')
      → drain_all d sha1_hex imei (extend more s) ≡ drain_all d sha1_hex imei (extend more s')
  unfolding drain_all
  drain_all-extend imei more s s' h =
      drain_frames-extend _ _ _ imei more s s' (omega arith) (omega arith) (omega arith) h
