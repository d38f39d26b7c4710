-- ===== src/Opcd/IplistText/Values.antt =====
-- The value of each key is read back.
use wlan_opc.Base.{
  ℕ, zero, suc, ◌+◌, ◌-◌, ◌≤◌, ◌≡◌, refl, inl, inr, true, false, some, [], ◌∷◌, ◌++◌, Bytes, length,
  length-append, length-take, get_or-append, take-append, zeros, ◌==◌, ltb, leb, Bool-cases, arith,
  All, take,
}
use wlan_opc.Protocol.CString.{bounded_strnlen}
use wlan_opc.Protocol.Commands.Records.{IpcfgEntry}
use wlan_opc.Opcd.Validators.{opc_char, valid_opc_charset}
use wlan_opc.Opcd.IplistText.{essid_text}
use wlan_opc.Opcd.IplistText.Parse.{has_byte, parse_essid}
use wlan_opc.Opcd.IplistText.Lines.{IsClean}

-- A byte that the charset of the protocol has.
abbrev pub IsOpc : ℕ → Type 0
IsOpc c = opc_char c ≡ true

pub text-IsOpc :
    (n : ℕ) (s : Bytes) → valid_opc_charset s ≡ true → All IsOpc (take (bounded_strnlen s n) s)
unfolding valid_opc_charset bounded_strnlen
text-IsOpc zero s h = tt
text-IsOpc (suc n) [] h = tt
text-IsOpc (suc n) (c ∷ s) h = elim (Bool-cases (c == 0)) [
  | inl z ↦ simp z tt
  | inr nz ↦ elim (Bool-cases (opc_char c)) [
    | inl ok ↦ let h' = simp (nz, ok) at h in simp nz (ok, text-IsOpc n s h')
    | inr bad ↦ let h' = simp (nz, bad) at h in absurd (cc)
  ]
]

-- What is kept of a text, and zeros behind it, is in the charset too.
pub valid_opc_charset-text :
    (n k : ℕ) (s : Bytes)
    → valid_opc_charset s ≡ true
    → valid_opc_charset (take (bounded_strnlen s n) s ++ zeros (suc k)) ≡ true
unfolding valid_opc_charset bounded_strnlen
valid_opc_charset-text zero k s h = refl
valid_opc_charset-text (suc n) k [] h = refl
valid_opc_charset-text (suc n) k (c ∷ s) h = elim (Bool-cases (c == 0)) [
  | inl z ↦ simp z refl
  | inr nz ↦ elim (Bool-cases (opc_char c)) [
    | inl ok ↦ let h' = simp (nz, ok) at h in simp (nz, ok) (valid_opc_charset-text n k s h')
    | inr bad ↦ let h' = simp (nz, bad) at h in absurd (cc)
  ]
]

pub opc_char-IsClean : (s : Bytes) → All IsOpc s → All IsClean s
opc_char-IsClean [] h = tt
opc_char-IsClean (c ∷ s) h =
    let ok = h.0 in
    (
      record { nul = λ e. ground arith; newline = λ e. ground arith; return = λ e. ground arith },
      opc_char-IsClean s h.1,
    )

has_quote : (s : Bytes) → All IsOpc s → has_byte b'"' s ≡ false
has_quote [] h = refl
has_quote (c ∷ s) h = let ok = h.0 in ground (arith, has_quote s h.1)

bounded_strnlen_le :
    (s : Bytes) (n : ℕ) → (bounded_strnlen s n ≤ n) × (bounded_strnlen s n ≤ length s)
unfolding bounded_strnlen
bounded_strnlen_le s zero = (omega arith, omega arith)
bounded_strnlen_le [] (suc n) = (omega arith, omega arith)
bounded_strnlen_le (c ∷ s) (suc n) =
    let (a, b) = bounded_strnlen_le s n in (ground arith, ground arith)

pub length-essid_text : (e : IpcfgEntry) → length (essid_text e) ≡ bounded_strnlen e.essid 31
length-essid_text e =
    omega (arith, length-take (bounded_strnlen e.essid 31) e.essid, bounded_strnlen_le e.essid 31)

pub essid_text_le : (e : IpcfgEntry) → length (essid_text e) ≤ 31
essid_text_le e = omega (arith, length-essid_text e, bounded_strnlen_le e.essid 31)

-- A quoted text is read into a padded field.
pub parse_essid-quoted :
    (s : Bytes)
    → length s ≤ 31
    → All IsOpc s
    → parse_essid (b'"' ∷ (s ++ (b'"' ∷ []))) ≡ some (s ++ zeros (32 - length s))
unfolding parse_essid
parse_essid-quoted s le ok =
    let len : length (s ++ (b'"' ∷ [])) ≡ length s + 1 = length-append s (b'"' ∷ []) in
    let e1 : suc (length s + 1) - 2 ≡ length s = omega arith in
    let e2 : suc (length s + 1) - 1 ≡ suc (length s) = omega arith in
    let t1 : leb 2 (suc (length s + 1)) ≡ true = ground arith in
    let t2 : ltb (length s) 32 ≡ true = ground arith in
    rw
      (
        len,
        e1,
        e2,
        take-append (length s) s (b'"' ∷ []) refl,
        get_or-append s b'"' [] 0,
        has_quote s ok,
        t1,
        t2,
      )
      refl
