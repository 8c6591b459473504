-- ===== src/Idempotency/Recorder.antt =====
-- What the recordingWriter keeps of a response.
use status_hub.Prelude.{
  ℕ, ◌+◌, ◌≤◌, ◌≡◌, refl, sym, ap, ◌∙◌, ◌++◌, ◌∷◌, [], List, length, length-append, if◌then◌else◌,
  arith, leb, Text,
}
use status_hub.Idempotency.{
  Write, write_header, write, RecordingWriter, new_recorder, max_recorded_body, apply_write_header,
  apply_write, apply_writes,
}

module _ (rec : RecordingWriter) where
  apply_write_header-bytes :
      (status : ℕ)
      → ((apply_write_header status rec).body ≡ rec.body)
        × ((apply_write_header status rec).sent ≡ rec.sent)
  unfolding apply_write_header
  apply_write_header-bytes status = ground arith

  apply_write-bytes :
      (b : Text)
      → ((apply_write b rec).sent ≡ rec.sent ++ b)
        × ((apply_write b rec).body ≡ (
            if leb (length rec.body + length b) max_recorded_body then rec.body ++ b else rec.body))
  unfolding apply_write apply_write_header
  apply_write-bytes b = ground arith

-- What was sent stays sent.
apply_writes-grows :
    (ws : List Write) (rec : RecordingWriter) → length rec.sent ≤ length (apply_writes ws rec).sent
unfolding apply_writes
apply_writes-grows [] rec = omega arith
apply_writes-grows (write_header status ∷ ws) rec =
    let (_, sent) = apply_write_header-bytes rec status in
    omega (arith, apply_writes-grows ws (apply_write_header status rec), ap length sent)
apply_writes-grows (write b ∷ ws) rec =
    let (sent, _) = apply_write-bytes rec b in
    omega
      (arith, apply_writes-grows ws (apply_write b rec), ap length sent, length-append rec.sent b)

apply_writes-full :
    (ws : List Write) (rec : RecordingWriter)
    → rec.body ≡ rec.sent
    → length (apply_writes ws rec).sent ≤ max_recorded_body
    → (apply_writes ws rec).body ≡ (apply_writes ws rec).sent
unfolding apply_writes
apply_writes-full [] rec h small = h
apply_writes-full (write_header status ∷ ws) rec h small =
    let (body, sent) = apply_write_header-bytes rec status in
    apply_writes-full ws (apply_write_header status rec) (body ∙ h ∙ sym sent) small
apply_writes-full (write b ∷ ws) rec h small =
    let (sent, body) = apply_write-bytes rec b in
    let fits : length rec.body + length b ≤ max_recorded_body = omega (
      arith,
      apply_writes-grows ws (apply_write b rec),
      small,
      ap length sent,
      length-append rec.sent b,
      ap length h,
    ) in
    apply_writes-full ws (apply_write b rec) (body ∙ kept fits ∙ ap (λ t. t ++ b) h ∙ sym sent)
      small
  where
    kept :
        length rec.body + length b ≤ max_recorded_body
        → (if leb (length rec.body + length b) max_recorded_body then rec.body ++ b else rec.body)
          ≡ rec.body ++ b
    kept fits = ground (arith, fits)

-- The whole of a response that fits is kept.
pub recorded-full :
    (ws : List Write)
    → length (apply_writes ws new_recorder).sent ≤ max_recorded_body
    → (apply_writes ws new_recorder).body ≡ (apply_writes ws new_recorder).sent
recorded-full ws small = apply_writes-full ws new_recorder refl small

apply_writes-bounded :
    (ws : List Write) (rec : RecordingWriter)
    → length rec.body ≤ max_recorded_body
    → length (apply_writes ws rec).body ≤ max_recorded_body
unfolding apply_writes
apply_writes-bounded [] rec h = h
apply_writes-bounded (write_header status ∷ ws) rec h =
    let (body, _) = apply_write_header-bytes rec status in
    apply_writes-bounded ws (apply_write_header status rec) (omega (arith, ap length body, h))
apply_writes-bounded (write b ∷ ws) rec h =
    let (_, body) = apply_write-bytes rec b in
    apply_writes-bounded ws (apply_write b rec) (chunk (ap length body))
  where
    chunk :
        length (apply_write b rec).body
          ≡ length (
              if leb (length rec.body + length b) max_recorded_body
              then rec.body ++ b
              else rec.body)
        → length (apply_write b rec).body ≤ max_recorded_body
    chunk e = ground (arith, e, h, length-append rec.body b)

pub recorded-bounded :
    (ws : List Write) → length (apply_writes ws new_recorder).body ≤ max_recorded_body
recorded-bounded ws = apply_writes-bounded ws new_recorder (omega arith)
