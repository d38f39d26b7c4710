-- ===== src/Opcd/Intake/Laws.antt =====
-- What the intake of a datagram hands on is a frame that parses, and no frame is lost.
use wlan_opc.Base.{
  ℕ, ◌+◌, ◌-◌, ◌≤◌, ◌≡◌, ap, sym, ◌∙◌, ◌≢◌, inl, inr, ◌⊎◌, true, none, some, [], ◌∷◌, ◌++◌, Bytes,
  ◌==◌, leb, length, take, drop, length-take, length-append, take-append-drop, Bool-cases,
  Option-cases, arith,
}
use wlan_opc.Protocol.Codec.{Header, be16_read, fixed_header_unpack}
use wlan_opc.Protocol.Frame.{frame_len_valid, frame_parse}
use wlan_opc.Protocol.Frame.Laws.{frame_parse_sound}
use wlan_opc.Opcd.Intake.{opcd_intake_frame_len}

-- A header is read from the first eight bytes.
unpack-prefix :
    (frame tail : Bytes)
    → 8 ≤ length frame
    → fixed_header_unpack (frame ++ tail) ≡ fixed_header_unpack frame
unfolding fixed_header_unpack be16_read
unpack-prefix (a ∷ b ∷ c ∷ d ∷ e ∷ f ∷ g ∷ h ∷ rest) tail le = ground arith
unpack-prefix frame tail le = absurd (omega arith)

-- The intake of a datagram whose header is read.
intake_of :
    (frame : Bytes) (hdr : Header) (n : ℕ)
    → fixed_header_unpack frame ≡ some hdr
    → n ≡ 8 + hdr.length_field
    → (n ≡ 8) ⊎ ((64 ≤ n) × (n ≤ 1424))
    → n ≤ length frame
    → opcd_intake_frame_len frame ≡ n
unfolding opcd_intake_frame_len
intake_of frame hdr n e size extent room = rw (e, opcd_intake_frame_len) (ground arith)

-- A size that the intake answers.
intake_inv :
    (frame : Bytes) (hdr : Header)
    → fixed_header_unpack frame ≡ some hdr
    → opcd_intake_frame_len frame ≢ 0
    → (opcd_intake_frame_len frame ≡ 8 + hdr.length_field)
      × (frame_len_valid (opcd_intake_frame_len frame) ≡ true)
      × (opcd_intake_frame_len frame ≤ length frame)
unfolding opcd_intake_frame_len frame_len_valid
intake_inv frame hdr e nonzero =
    let h : Header = hdr in
    let nz = rw (e, opcd_intake_frame_len) at nonzero in
    rw (e, opcd_intake_frame_len) (ground arith)

-- A frame that parses is taken whole from a datagram that starts with it, whatever bytes follow.
pub opcd_intake_frame_len-append :
    (frame tail : Bytes) {hdr : Header} {body : Bytes}
    → frame_parse frame ≡ some (hdr, body)
    → opcd_intake_frame_len (frame ++ tail) ≡ length frame
opcd_intake_frame_len-append frame tail {hdr} {body} e =
    let (unpacked, total, extent) = frame_parse_sound frame e in
    intake_of (frame ++ tail) hdr (length frame) (unpack-prefix frame tail (omega arith) ∙ unpacked)
      (omega arith) (ground arith) (omega (arith, length-append frame tail))

parse_of :
    (frame : Bytes) (hdr : Header)
    → fixed_header_unpack frame ≡ some hdr
    → frame_len_valid (length frame) ≡ true
    → length frame ≡ 8 + hdr.length_field
    → (body : Bytes) × (frame_parse frame ≡ some (hdr, body))
unfolding frame_parse
parse_of frame hdr e valid size =
    let len : (hdr.length_field == (length frame - 8)) ≡ true = ground arith in
    elim (Bool-cases (leb 64 (length frame))) [
      | inl t ↦ (drop 64 frame, rw (valid, e, len, t))
      | inr t ↦ ([], rw (valid, e, len, t))
    ]

intake_none : (d : Bytes) → fixed_header_unpack d ≡ none → opcd_intake_frame_len d ≡ 0
unfolding opcd_intake_frame_len
intake_none d e = rw (e, opcd_intake_frame_len)

-- The header of the part that is taken is the header of the datagram.
unpack-take :
    (n : ℕ) (d : Bytes)
    → 8 ≤ n
    → n ≤ length d
    → (length (take n d) ≡ n) × (fixed_header_unpack (take n d) ≡ fixed_header_unpack d)
unpack-take n d lo hi =
    let size : length (take n d) ≡ n = omega (arith, length-take n d) in
    (
      size,
      sym (unpack-prefix (take n d) (drop n d) (omega arith))
          ∙ ap fixed_header_unpack (take-append-drop n d),
    )

-- When the intake of a datagram answers a size other than 0, the bytes up to there are all in the
-- datagram and parse as a frame with the datagram's header.
pub opcd_intake_frame_len-parses :
    (d : Bytes)
    → opcd_intake_frame_len d ≢ 0
    → (opcd_intake_frame_len d ≤ length d)
      × (hdr : Header) × (body : Bytes) × (fixed_header_unpack d ≡ some hdr)
      × (frame_parse (take (opcd_intake_frame_len d) d) ≡ some (hdr, body))
opcd_intake_frame_len-parses d nonzero = elim (Option-cases (fixed_header_unpack d)) [
  | inl e ↦ absurd (nonzero (intake_none d e))
  | inr (hdr, e) ↦
      let n = opcd_intake_frame_len d in
      let (size, valid, room) = intake_inv d hdr e nonzero in
      let (len, unpacked) = unpack-take n d (omega arith) room in
      let (body, parsed) = parse_of (take n d) hdr (unpacked ∙ e) (rw len valid) (len ∙ size) in
      (room, hdr, body, e, parsed)
]
