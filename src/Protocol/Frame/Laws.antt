-- ===== src/Protocol/Frame/Laws.antt =====
-- Building and parsing agree, and what exactly parses.
use wlan_opc.Base.{
  ℕ, ◌+◌, ◌-◌, ◌≤◌, ◌≡◌, refl, ap, ◌∙◌, ◌⊎◌, inl, inr, true, leb, Option, none, some, [], ◌++◌,
  ◌==◌, if◌then◌else◌, length, drop, Bytes, length-append, eq→==, ==_iff, guard-eq-some,
  >>=-eq-some, Bool-cases, le→leb, arith,
}
use mathlib.Core.List.{append-nil}
use wlan_opc.Protocol.Ids.{protocol_version}
use wlan_opc.Protocol.Codec.{
  IsU8, IsU16, Header, fixed_header_unpack, fixed_header_pack, header_pack, be16_write,
}
use wlan_opc.Protocol.Codec.RoundTrip.{
  IsWireHeader, length-header_pack, drop-header_pack, fixed_header_unpack-header_pack,
  fixed_header_unpack-pack,
}
use wlan_opc.Protocol.Frame.{frame_build, empty_frame_build, frame_len_valid, frame_parse}

abbrev pub header : (cmd_type req_id seq_no length_field : ℕ) → Header
header cmd_type req_id seq_no length_field = record {
  protocol_version = protocol_version;
  command_type = cmd_type;
  req_indication_id = req_id;
  sequence_number = seq_no;
  length_field = length_field;
}

frame_len_valid_full : (n : ℕ) → 64 ≤ n → n ≤ 1424 → frame_len_valid n ≡ true
unfolding frame_len_valid
frame_len_valid_full n lo hi = ground arith

-- The parser on a frame that holds the common header.
frame_parse_full :
    (frame : Bytes) (hdr : Header)
    → fixed_header_unpack frame ≡ some hdr
    → 64 ≤ length frame
    → length frame ≤ 1424
    → frame_parse frame
      ≡ (if hdr.length_field == (length frame - 8) then some (hdr, drop 64 frame) else none)
unfolding frame_parse
frame_parse_full frame hdr e lo hi = elim (Bool-cases (hdr.length_field == (length frame - 8))) [
  | inl t ↦ rw (frame_len_valid_full (length frame) lo hi, e, t, le→leb 64 (length frame) lo)
  | inr t ↦ rw (frame_len_valid_full (length frame) lo hi, e, t)
]

length-fixed_header_pack : (h : Header) → length (fixed_header_pack h ++ []) ≡ 8
unfolding fixed_header_pack be16_write
length-fixed_header_pack h = refl

frame_parse_empty :
    (h : Header)
    → IsWireHeader h
    → h.length_field ≡ 0
    → frame_parse (fixed_header_pack h ++ []) ≡ some (h, [])
unfolding frame_parse frame_len_valid fixed_header_pack be16_write
frame_parse_empty h w z = rw (fixed_header_unpack-pack h [] w, eq→== h.length_field 0 z)

module _ (frame_room cmd req seq len : ℕ) (body : Bytes) where
  -- A frame is built exactly when the body fits the protocol and the buffer.
  pub frame_build-eq_some :
      length body ≤ 1360
      → 64 + length body ≤ frame_room
      → frame_build frame_room cmd req seq len body
        ≡ some (header_pack (header cmd req seq len) ++ body)
  unfolding frame_build
  frame_build-eq_some fits room = ground arith

  -- A built frame parses, with its header and body back, exactly when its length field says 56 more
  -- than the size of the body; otherwise the parse fails. The header's fields fit their widths.
  pub frame_parse-frame_build :
      {frame : Bytes}
      → IsU8 cmd
      → IsU16 req
      → IsU16 seq
      → IsU16 len
      → frame_build frame_room cmd req seq len body ≡ some frame
      → frame_parse frame
        ≡ (if len == (56 + length body) then some (header cmd req seq len, body) else none)
  unfolding frame_build
  frame_parse-frame_build {frame} c r s l e =
      let h : Header = header cmd req seq len in
      let w : IsWireHeader h = record {
        version = omega arith;
        kind = c;
        id = r;
        seq = s;
        len = l;
      } in
      let eq : frame ≡ header_pack h ++ body = ground arith in
      let fits : length body ≤ 1360 = ground arith in
      let size : length frame ≡ 64 + length body =
        rw eq (omega (arith, length-append (header_pack h) body, length-header_pack h)) in
      let payload : drop 64 frame ≡ body = rw eq (drop-header_pack h body) in
      let rest : length frame - 8 ≡ 56 + length body = omega arith in
      let parsed =
        frame_parse_full frame h (rw eq (fixed_header_unpack-header_pack h body w)) (omega arith)
          (omega arith) in
      rw (rest, payload) at parsed

-- A built frame with an empty body is 8 bytes long and parses, with its header back and no body, when
-- the header's fields fit their widths.
pub frame_parse-empty_frame_build :
    (frame_room cmd req seq : ℕ) {frame : Bytes}
    → IsU8 cmd
    → IsU16 req
    → IsU16 seq
    → empty_frame_build frame_room cmd req seq ≡ some frame
    → (length frame ≡ 8) × (frame_parse frame ≡ some (header cmd req seq 0, []))
unfolding empty_frame_build
frame_parse-empty_frame_build frame_room cmd req seq {frame} c r s e =
    let h : Header = header cmd req seq 0 in
    let w : IsWireHeader h = record {
      version = omega arith;
      kind = c;
      id = r;
      seq = s;
      len = omega arith;
    } in
    let eq : frame ≡ fixed_header_pack h ++ [] = rw append-nil (ground arith) in
    rw eq (length-fixed_header_pack h, frame_parse_empty h w refl)

pub empty_frame_build-eq_some :
    (frame_room cmd req seq : ℕ)
    → 8 ≤ frame_room
    → empty_frame_build frame_room cmd req seq ≡ some (fixed_header_pack (header cmd req seq 0))
unfolding empty_frame_build
empty_frame_build-eq_some frame_room cmd req seq room = ground arith

frame_len_valid_cases : (n : ℕ) → frame_len_valid n ≡ true → (n ≡ 8) ⊎ ((64 ≤ n) × (n ≤ 1424))
unfolding frame_len_valid
frame_len_valid_cases n h = ground arith

body_extent :
    (n : ℕ) (h hdr : Header) (rest body : Bytes)
    → (n ≡ 8) ⊎ ((64 ≤ n) × (n ≤ 1424))
    → if◌then◌else◌ {A = Option (Header × Bytes)} (leb 64 n) (some (h, rest)) (some (h, []))
      ≡ some (hdr, body)
    → (h ≡ hdr) × (((n ≡ 8) × (body ≡ [])) ⊎ ((64 ≤ n) × (n ≤ 1424) × (body ≡ rest)))
body_extent n h hdr rest body (inl e) eq = ground arith
body_extent n h hdr rest body (inr (lo, hi)) eq = (ground arith, inr (lo, hi, ground arith))

-- A frame that parses carries the header returned, its length field is 8 less than its size, and it
-- is either 8 bytes with no body or 64 to 1424 bytes with the body behind the first 64.
pub frame_parse_sound :
    (frame : Bytes) {hdr : Header} {body : Bytes}
    → frame_parse frame ≡ some (hdr, body)
    → (fixed_header_unpack frame ≡ some hdr)
      × (hdr.length_field + 8 ≡ length frame)
      × (((length frame ≡ 8) × (body ≡ []))
          ⊎ ((64 ≤ length frame) × (length frame ≤ 1424) × (body ≡ drop 64 frame)))
unfolding frame_parse
frame_parse_sound frame {hdr} {body} e =
    let (valid, e1) = guard-eq-some (frame_len_valid (length frame)) _ e in
    let (h, unpacked, e2) = >>=-eq-some (fixed_header_unpack frame) _ e1 in
    let (len, e3) = guard-eq-some (h.length_field == (length frame - 8)) _ e2 in
    let sizes = frame_len_valid_cases (length frame) valid in
    let declared : h.length_field ≡ length frame - 8 = (==_iff _ _).0 len in
    let total : h.length_field + 8 ≡ length frame = omega (arith, declared, sizes) in
    let (same, extent) = body_extent (length frame) h hdr (drop 64 frame) body sizes e3 in
    (unpacked ∙ ap some same, rw (← same) total, extent)
