-- ===== src/Protocol/Commands/Wire.antt =====
-- A body that is sent under a type and an identifier is what the matching parse returns.
use wlan_opc.Base.{
  ℕ, ◌+◌, ◌++◌, ◌≤◌, ◌≡◌, refl, sym, ap, ◌∙◌, Option, some, ◌>>=◌, leb, ◌==◌, length, Bytes, true,
  length-append, length-drop, >>=-eq-some, guard-eq-some, ==_iff, leb→le, eq_of_some, inl, inr,
  arith, eq→==, le→leb,
}
use wlan_opc.Protocol.Codec.{IsU8, IsU16, Header, header_pack}
use wlan_opc.Protocol.Codec.RoundTrip.{length-header_pack}
use wlan_opc.Protocol.Frame.{frame_build, frame_parse}
use wlan_opc.Protocol.Frame.Laws.{
  frame_build-eq_some, frame_parse-frame_build, header, frame_parse_sound,
}
use wlan_opc.Protocol.Commands.{parse_as}

parse_as-parsed :
    (cmd req seq min len : ℕ) (body frame : Bytes)
    → frame_parse frame ≡ some (header cmd req seq len, body)
    → min ≤ length body
    → parse_as cmd req min frame ≡ some body
unfolding parse_as
parse_as-parsed cmd req seq min len body frame e m =
    rw (e, eq→== cmd cmd refl, eq→== req req refl, le→leb min (length body) m)

-- `n` is the size of the body, `min` what the parse asks for.
pub frame_build_sent :
    (frame_room cmd req seq min n len : ℕ) (body : Bytes)
    → length body ≡ n
    → IsU8 cmd × IsU16 req × (n ≤ 1360) × (min ≤ n) × (len ≡ 56 + n)
    → IsU16 seq
    → 64 + n ≤ frame_room
    → (frame : Bytes) × (frame_build frame_room cmd req seq len body ≡ some frame)
      × (parse_as cmd req min frame ≡ some body)
      × (length frame ≡ 64 + n)
frame_build_sent frame_room cmd req seq min n len body size (c, r, fits, m, l) s room =
    let hdr = header_pack (header cmd req seq len) in
    let frame = hdr ++ body in
    let built = frame_build-eq_some frame_room cmd req seq len body (omega arith) (omega arith) in
    let parsed =
      frame_parse-frame_build frame_room cmd req seq len body c r s (omega arith) built in
    let declared : (len == (56 + length body)) ≡ true =
      eq→== len (56 + length body) (omega arith) in
    (
      frame,
      built,
      parse_as-parsed cmd req seq min len body frame (rw declared at parsed) (omega arith),
      omega (arith, length-append hdr body, length-header_pack (header cmd req seq len)),
    )

pub parse_as-frame_build {ℓ} :
    {A : Type ℓ} (frame_room cmd req seq min n len : ℕ) (body : Bytes) (read : Bytes → A)
    → length body ≡ n
    → IsU8 cmd × IsU16 req × (n ≤ 1360) × (min ≤ n) × (len ≡ 56 + n)
    → IsU16 seq
    → 64 + n ≤ frame_room
    → (frame_build frame_room cmd req seq len body >>= λ frame.
        parse_as cmd req min frame >>= λ b. some (read b))
      ≡ some (read body)
parse_as-frame_build frame_room cmd req seq min n len body read size facts s room =
    let (_, built, parsed, _) =
      frame_build_sent frame_room cmd req seq min n len body size facts s room in
    rw (built, parsed)

-- What a successful parse has checked.
pub parse_as_sound :
    (cmd id min : ℕ) (frame : Bytes) {body : Bytes}
    → parse_as cmd id min frame ≡ some body
    → (hdr : Header) × (frame_parse frame ≡ some (hdr, body))
      × (hdr.command_type ≡ cmd)
      × (hdr.req_indication_id ≡ id)
      × (min ≤ length body)
unfolding parse_as
parse_as_sound cmd id min frame {body} e =
    let ((hdr, b), parsed, e1) = >>=-eq-some (frame_parse frame) _ e in
    let (kind, e2) = guard-eq-some (hdr.command_type == cmd) _ e1 in
    let (ident, e3) = guard-eq-some (hdr.req_indication_id == id) _ e2 in
    let (long, e4) = guard-eq-some (leb min (length b)) _ e3 in
    let same : b ≡ body = eq_of_some e4 in
    (
      hdr,
      parsed ∙ ap (λ (x : Bytes). some (hdr, x)) same,
      (==_iff _ _).0 kind,
      (==_iff _ _).0 ident,
      rw (← same) (leb→le min (length b) long),
    )

-- A body that is not empty is the frame behind its 64-byte header.
pub parse_as_size :
    (cmd id min : ℕ) (frame : Bytes) {body : Bytes}
    → parse_as cmd id min frame ≡ some body
    → 1 ≤ length body
    → length frame ≡ 64 + length body
parse_as_size cmd id min frame {body} e pos =
    let (hdr, parsed, _, _, _) = parse_as_sound cmd id min frame e in
    elim (frame_parse_sound frame parsed).2 [
      | inl (_, empty) ↦ absurd (omega (arith, ap length empty))
      | inr (lo, _, rest) ↦ omega (arith, ap length rest, length-drop 64 frame)
    ]

-- A frame that passes the checks of two kinds of message has one type, one identifier and one body:
-- the two kinds are the same but for the smallest size they ask for.
pub parse_as_unique :
    (cmd id min cmd' id' min' : ℕ) (frame : Bytes) {body body' : Bytes}
    → parse_as cmd id min frame ≡ some body
    → parse_as cmd' id' min' frame ≡ some body'
    → (cmd ≡ cmd') × (id ≡ id') × (body ≡ body')
parse_as_unique cmd id min cmd' id' min' frame {body} {body'} e e' =
    let (h, p, kind, ident, _) = parse_as_sound cmd id min frame e in
    let (h', p', kind', ident', _) = parse_as_sound cmd' id' min' frame e' in
    let both : ◌≡◌ {A = Option (Header × Bytes)} (some (h, body)) (some (h', body')) = sym p ∙ p' in
    let same : h ≡ h' = cc in
    (
      sym kind ∙ ap (λ (x : Header). x.command_type) same ∙ kind',
      sym ident ∙ ap (λ (x : Header). x.req_indication_id) same ∙ ident',
      cc,
    )
