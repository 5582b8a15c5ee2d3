-- ===== src/Frame/Messages.antt =====
-- The packets that a peer sends with `push` and `pop`, seen by do_read.
use yasio.Base.{
  ℕ, suc, ◌+◌, ◌-◌, ◌^◌, ◌≤◌, ◌<◌, ◌≡◌, inl, refl, ap, sym, subst, ◌∙◌, List, [], ◌∷◌, ◌++◌, map,
  length, take, drop, length-append, take_prefix, drop_prefix, append_assoc, concat, arith, false,
  All, le→leb, lt→leb_false,
}
use yasio.Base.Outcome.{ok}
use yasio.Base.Int.{pos, ◌+ℤ◌, ltb_ℤ, signed32}
use yasio.Endian.Bytes.{of_le, be_bytes, length-be_bytes}
use yasio.Endian.{Width, w8, w16, w32, w64, size_of, network_to_host_int, network_convert}
use yasio.Endian.Laws.{
  Fits, le_bytes-host_to_network, le_bytes-host_to_network_int, network_convert-IsConvert,
}
use yasio.Frame.{UnpackParams, decode_field, decode_at, builtin_decode_len, Transport, Progress}
use yasio.Frame.Stream.{IsFraming, Frames, rest, frame}
use yasio.Frame.Run.{run}
use yasio.Stream.Buffer.{Buffer, IsBuffer}
use yasio.Stream.Writer.Append.{Appends}
use yasio.Stream.Writer.Prefix.{prefixed, prefixed-Appends}
use yasio.Frame.Decode.{builtin_decode_len-IsFraming, idle}
use yasio.Frame.Complete.{Frames-unique, run-Drains, no_bytes}

-- A payload behind its length in network order, which does not count itself.
abbrev pub message : Width → List ℕ → List ℕ
message w vs = be_bytes (size_of w) (length vs) ++ vs

-- The unpack params for such messages.
abbrev pub message_params : Width → ℕ → ℕ → UnpackParams
message_params w max strip = record {
  max_frame_length = pos max;
  length_field_offset = pos 0;
  length_field_length = size_of w;
  length_adjustment = pos (size_of w);
  initial_bytes_to_strip = strip;
  no_bswap = false;
}

-- The length field holds at most four bytes, and the frame is not longer than is allowed.
abbrev pub IsSendable : Width → ℕ → List ℕ → Type 0
IsSendable w max vs = Fits w (length vs) × (size_of w + length vs ≤ max)

network_order :
    (size v : ℕ)
    → 1 ≤ size
    → size ≤ 4
    → v < 2 ^ 32
    → v < 256 ^ size
    → network_to_host_int (of_le (be_bytes size v)) size ≡ v
network_order size v l h w f =
    ap (λ b. network_to_host_int (of_le b) size) (sym (le_bytes-host_to_network_int size v l h w))
    ∙ network_convert-IsConvert.fromint-toint size v l h f

size_of-positive : (w : Width) → 1 ≤ size_of w
size_of-positive w8 = omega arith
size_of-positive w16 = omega arith
size_of-positive w32 = omega arith
size_of-positive w64 = omega arith

decoded :
    (n size max : ℕ)
    → size + n ≤ max
    → max < 2 ^ 31
    → ltb_ℤ (pos max) (signed32 n +ℤ pos size) ≡ false
unfolding ◌+ℤ◌
decoded n size max h k = ground arith

added : (n size : ℕ) → n < 2 ^ 31 → signed32 n +ℤ pos size ≡ pos (size + n)
unfolding ◌+ℤ◌
added n size h = ground arith

decode_field-message :
    (w : Width) (max strip n : ℕ)
    → size_of w ≤ 4
    → max < 2 ^ 31
    → Fits w n
    → size_of w + n ≤ max
    → decode_field (message_params w max strip) (be_bytes (size_of w) n) ≡ pos (size_of w + n)
unfolding decode_field
decode_field-message w max strip n h m f l =
    rw (network_order (size_of w) n (size_of-positive w) h (omega arith) f)
      (rw (decoded n (size_of w) max l m) (added n (size_of w) (omega arith)))

-- The decoder finds the length of the message that the stream begins with.
builtin_decode_len-message :
    (w : Width) (max strip : ℕ) (vs rest_of : List ℕ)
    → size_of w ≤ 4
    → max < 2 ^ 31
    → IsSendable w max vs
    → builtin_decode_len (message_params w max strip) (message w vs ++ rest_of)
      ≡ pos (size_of w + length vs)
unfolding builtin_decode_len decode_at
builtin_decode_len-message w max strip vs rest_of h m (f, l) =
    rw (le→leb (0 + size_of w) (length (message w vs ++ rest_of)) long) (
      ap (decode_field (message_params w max strip)) field
      ∙ decode_field-message w max strip (length vs) h m f l)
  where
    long : 0 + size_of w ≤ length (message w vs ++ rest_of)
    long = omega (
      arith,
      length-append (message w vs) rest_of,
      length-append (be_bytes (size_of w) (length vs)) vs,
      length-be_bytes (size_of w) (length vs),
    )

    field : take (size_of w) (message w vs ++ rest_of) ≡ be_bytes (size_of w) (length vs)
    field =
        ap (take (size_of w)) (append_assoc (be_bytes (size_of w) (length vs)) vs rest_of)
        ∙ take_prefix (size_of w) (be_bytes (size_of w) (length vs)) (vs ++ rest_of)
            (sym (length-be_bytes (size_of w) (length vs)))

length-message : (w : Width) (vs : List ℕ) → length (message w vs) ≡ size_of w + length vs
length-message w vs = omega (
  arith,
  length-append (be_bytes (size_of w) (length vs)) vs,
  length-be_bytes (size_of w) (length vs),
)

abbrev pub messages : Width → List (List ℕ) → List ℕ
messages w vss = concat (map (message w) vss)

-- The message is a frame of its own.
message-Frames :
    (w : Width) (max strip n : ℕ) (vs y z : List ℕ) (ps : List (List ℕ))
    → size_of w ≤ 4
    → max < 2 ^ 31
    → strip ≤ size_of w
    → IsSendable w max vs
    → suc n ≡ size_of w + length vs
    → Frames (builtin_decode_len (message_params w max strip)) strip y ps z
    → Frames
        (builtin_decode_len (message_params w max strip))
        strip
        (message w vs ++ y)
        (drop strip (message w vs) ∷ ps)
        z
message-Frames w max strip n vs y z ps h m s f e g =
    subst
      (λ p.
        Frames (builtin_decode_len (message_params w max strip)) strip (message w vs ++ y)
          (drop strip p ∷ ps) z)
      (take_prefix (suc n) (message w vs) y (e ∙ sym (length-message w vs)))
      (frame (message w vs ++ y) n ps z
        (
          builtin_decode_len-message w max strip vs y h m f ∙ ap pos (sym e),
          omega arith,
          omega (arith, length-append (message w vs) y, length-message w vs),
        )
        (subst (λ p. Frames (builtin_decode_len (message_params w max strip)) strip p ps z)
          (sym (drop_prefix (suc n) (message w vs) y (e ∙ sym (length-message w vs)))) g))

messages-Frames :
    (w : Width) (max strip : ℕ) (vss : List (List ℕ))
    → size_of w ≤ 4
    → max < 2 ^ 31
    → strip ≤ size_of w
    → All (IsSendable w max) vss
    → Frames
        (builtin_decode_len (message_params w max strip))
        strip
        (messages w vss)
        (map (λ vs. drop strip (message w vs)) vss)
        []
messages-Frames w max strip [] h m s a = rest []
messages-Frames w max strip (vs ∷ vss) h m s (f, a) =
    message-Frames w max strip (size_of w + length vs - 1) vs (messages w vss) [] _ h m s f
      (omega (arith, size_of-positive w)) (messages-Frames w max strip vss h m s a)

message_params-IsFraming :
    (w : Width) (max strip : ℕ)
    → strip ≤ size_of w
    → IsFraming (builtin_decode_len (message_params w max strip)) strip
message_params-IsFraming w max strip s =
    builtin_decode_len-IsFraming (message_params w max strip) 0 refl (omega arith)

no_message :
    (w : Width) (max strip : ℕ) → builtin_decode_len (message_params w max strip) [] ≡ pos 0
unfolding builtin_decode_len decode_at
no_message w max strip =
    rw (lt→leb_false 0 (0 + size_of w) (omega (arith, size_of-positive w))) refl

-- Messages that are sent one after the other arrive as they were sent: in order, none lost, none
-- joined with another, and without the bytes to strip, whatever the reads that brought the bytes, where
-- the field has at most four bytes, no more bytes are stripped than it has, every message keeps to
-- `max_frame_length`, which is less than 2 ^ 31, the transport holds nothing at first, and more empty
-- reads follow than there are bytes; and the reads do not throw.
pub messages-arrive :
    (w : Width) (max strip : ℕ) (vss cs : List (List ℕ)) (k : ℕ) (t : Transport)
    → size_of w ≤ 4
    → max < 2 ^ 31
    → strip ≤ size_of w
    → All (IsSendable w max) vss
    → concat cs ≡ messages w vss
    → length (messages w vss) < k
    → (p : Progress) × (run
          (builtin_decode_len (message_params w max strip))
          strip
          (idle t)
          (cs ++ no_bytes k)
        ≡ ok p)
      × (p.packets ≡ map (λ vs. drop strip (message w vs)) vss)
messages-arrive w max strip vss cs k t h m s a e l =
    let d =
      run-Drains (builtin_decode_len (message_params w max strip)) strip cs k (idle t) []
        (message_params-IsFraming w max strip s) (inl (refl, refl, refl))
        (omega (arith, l, ap length e)) in
    let g =
      subst (λ x. Frames (builtin_decode_len (message_params w max strip)) strip x d.0.packets d.1)
        e d.3 in
    (
      d.0,
      d.2,
      (Frames-unique (builtin_decode_len (message_params w max strip)) strip g
          (messages-Frames w max strip vss h m s a) d.4 (inl (inl (no_message w max strip)))).0,
    )

-- `push`, the payload and `pop` put a message behind what was written before, in network order and
-- over every buffer with room for it, where the length of the payload fits the length field.
pub prefixed-message :
    (b : Buffer) (l : IsBuffer b) (s : b.State) (w : Width) (vs : List ℕ) (n : ℕ)
    → Fits w (length vs)
    → l.Room s (size_of w + (length vs + n))
    → Appends b l network_convert s n (prefixed b l network_convert s w vs) (message w vs)
prefixed-message b l s w vs n f r =
    subst (λ x. Appends b l network_convert s n (prefixed b l network_convert s w vs) (x ++ vs))
      (le_bytes-host_to_network w (length vs) f) (prefixed-Appends b l network_convert s w vs n f r)
