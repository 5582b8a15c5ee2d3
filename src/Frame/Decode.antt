-- ===== src/Frame/Decode.antt =====
-- What __builtin_decode_len of yasio/io_service.cpp promises to do_read.
use yasio.Base.{
  ℕ, suc, ◌+◌, ◌≤◌, ◌≡◌, ◌≢◌, inl, inr, refl, ap, sym, subst, ◌∙◌, List, [], ◌∷◌, ◌++◌, length,
  take, drop, length-append, length-drop, take-append_le, drop-append_le, take_all, drop_all, min,
  leb_false→lt, arith, Bool-cases, leb, leb→le, le→leb, le→ltb_false, lt→ltb, if◌then◌else◌,
}
use yasio.Base.Outcome.{ok}
use yasio.Base.Int.{pos, negsuc, pos_part}
use yasio.Frame.{
  set_last_errno, begin_packet, unpack, is_minus_one, UnpackParams, decode_field, decode_at,
  builtin_decode_len, Transport, Progress, got, read_packets,
}
use yasio.Frame.Stream.{IsFraming}

-- The bytes of the field do not change when more bytes arrive.
field-append :
    (offset size : ℕ) (d v : List ℕ)
    → offset + size ≤ length d
    → take size (drop offset (d ++ v)) ≡ take size (drop offset d)
field-append offset size d v h =
    ap (take size) (drop-append_le offset d v (omega arith))
    ∙ take-append_le size (drop offset d) v (omega (arith, length-drop offset d))

-- Where the decoder answers, it has seen the whole field.
decode_at-seen :
    (p : UnpackParams) (offset : ℕ) (d : List ℕ)
    → decode_at p (pos offset) d ≢ pos 0
    → offset + p.length_field_length ≤ length d
unfolding decode_at
decode_at-seen p offset d h = elim (Bool-cases (leb (offset + p.length_field_length) (length d))) [
  | inl q ↦ leb→le _ _ q
  | inr q ↦ elim (h (rw q refl)) [ ]
]

pub decode_at-append :
    (p : UnpackParams) (offset : ℕ) (d v : List ℕ)
    → offset + p.length_field_length ≤ length d
    → decode_at p (pos offset) (d ++ v) ≡ decode_at p (pos offset) d
unfolding decode_at
decode_at-append p offset d v h =
    rw
      (le→leb (offset + p.length_field_length) (length (d ++ v)) (omega (arith, length-append d v)))
      (rw (le→leb (offset + p.length_field_length) (length d) h)
        (ap (decode_field p) (field-append offset p.length_field_length d v h)))

-- With a length field at offset ≥ 0 that reaches beyond the bytes to strip, the built-in decoder is
-- a framing: its answer is settled once the field has arrived.
pub builtin_decode_len-IsFraming :
    (p : UnpackParams) (offset : ℕ)
    → p.length_field_offset ≡ pos offset
    → p.initial_bytes_to_strip ≤ offset + p.length_field_length
    → IsFraming (builtin_decode_len p) p.initial_bytes_to_strip
unfolding builtin_decode_len
builtin_decode_len-IsFraming p offset e s =
    subst (λ z. IsFraming (λ d. decode_at p z d) p.initial_bytes_to_strip) (sym e)
      (record {
        settled = λ u v h. decode_at-append p offset u v (decode_at-seen p offset u h);
        head_is_there = λ u n h.
            omega (arith, decode_at-seen p offset u (λ q. omega (arith, ap pos_part (sym h ∙ q))));
      })

-- Nothing is held and no packet is begun.
abbrev pub idle : Transport → Transport
idle t = record t { held = []; expected_size = negsuc 0; expected_packet = [] }

begin_datagram :
    (strip v : ℕ) (vs : List ℕ) (t : Transport)
    → (r : Progress) × (begin_packet (idle t) (pos (suc (length vs))) (v ∷ vs) strip ≡ ok r)
      × (r.alive ≡ leb strip (length (v ∷ vs)))
      × (r.packets ≡ (if leb strip (length (v ∷ vs)) then drop strip (v ∷ vs) ∷ [] else []))
      × (r.transport.held ≡ [])
unfolding begin_packet unpack set_last_errno
begin_datagram strip v vs t = elim (Bool-cases (leb strip (suc (length vs)))) [
  | inl q ↦ rw q (
      rw (le→ltb_false strip (suc (length vs)) (leb→le _ _ q)) (
        rw (le→leb strip (min (suc (length vs)) (suc (length vs))) (omega (arith, leb→le _ _ q))) (
          rw (le→leb (suc (length vs)) (suc (length vs)) (omega arith)) (
            _,
            refl,
            refl,
            ap (λ w. drop strip (v ∷ w) ∷ []) (take_all (length vs) vs (omega arith)),
            drop_all (length vs) vs (omega arith),
          ))))
  | inr q ↦
      rw q (rw (lt→ltb (suc (length vs)) strip (leb_false→lt _ _ q)) (_, refl, refl, refl, refl))
]

-- Without a length field every read is a packet of its own: what has come, less the bytes to
-- strip, unless it is shorter than these, which closes the connection.
pub read_packets-datagram :
    (p : UnpackParams) (offset v : ℕ) (vs : List ℕ) (t : Transport)
    → p.length_field_offset ≡ negsuc offset
    → (r : Progress) × (read_packets
          (builtin_decode_len p)
          p.initial_bytes_to_strip
          (idle t)
          (got (v ∷ vs))
        ≡ ok r)
      × (r.alive ≡ leb p.initial_bytes_to_strip (length (v ∷ vs)))
      × (r.packets ≡ (
          if leb p.initial_bytes_to_strip (length (v ∷ vs))
          then drop p.initial_bytes_to_strip (v ∷ vs) ∷ []
          else []))
      × (r.transport.held ≡ [])
unfolding builtin_decode_len read_packets is_minus_one
read_packets-datagram p offset v vs t e = rw e (begin_datagram p.initial_bytes_to_strip v vs t)
