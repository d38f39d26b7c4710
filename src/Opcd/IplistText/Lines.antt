-- ===== src/Opcd/IplistText/Lines.antt =====
-- A line of clean bytes is found whole.
use wlan_opc.Base.{
  ℕ, ◌+◌, ◌/◌, ◌%◌, ◌≤◌, ◌<◌, ◌≡◌, ◌≢◌, refl, ap, inl, inr, true, false, some, [], ◌∷◌, ◌++◌, Bytes,
  length, ◌==◌, leb, arith, All, All-append,
}
use wlan_opc.Protocol.CString.{has_nul}
use wlan_opc.Opcd.IplistText.{decimal, ipv4_str}
use wlan_opc.Opcd.IplistText.Digits.{decimal_cases, decimal-starts, scan_digits-decimal}
use wlan_opc.Opcd.IplistText.Parse.{
  IplistText, lines, strip_return, parse_nonblank, parse_lines, parse_line, parse_number,
}

-- Not NUL, not the end of a line.
pub record IsClean (c : ℕ) : Type 0 where
  pub nul : c ≢ 0
  pub newline : c ≢ 10
  pub return : c ≢ 13

digit-IsClean : (d : ℕ) → IsClean (48 + d)
digit-IsClean d = record {
  nul = λ e. omega arith;
  newline = λ e. omega arith;
  return = λ e. omega arith;
}

pub decimal-IsClean : (v : ℕ) → v < 1000 → All IsClean (decimal v)
decimal-IsClean v h = elim (decimal_cases v h) [
  | inl (a, e) ↦ rw e (digit-IsClean _, tt)
  | inr (inl (a, b, e)) ↦ rw e (digit-IsClean _, (digit-IsClean _, tt))
  | inr (inr (a, e)) ↦ rw e (digit-IsClean _, (digit-IsClean _, (digit-IsClean _, tt)))
]

pub literal : (c : ℕ) → leb 14 c ≡ true → IsClean c
literal c h = record {
  nul = λ e. ground arith;
  newline = λ e. ground arith;
  return = λ e. ground arith;
}

pub ipv4_str-IsClean : (ip : ℕ) → ip < 4294967296 → All IsClean (ipv4_str ip)
unfolding ipv4_str
ipv4_str-IsClean ip h =
    let dot = literal b'.' refl in
    All-append IsClean (decimal (ip / 16777216)) _ (decimal-IsClean _ (omega arith)) (
      dot,
      All-append IsClean (decimal (ip / 65536 % 256)) _ (decimal-IsClean _ (omega arith)) (
        dot,
        All-append IsClean (decimal (ip / 256 % 256)) _ (decimal-IsClean _ (omega arith))
            (dot, decimal-IsClean _ (omega arith)),
      ),
    )

pub has_nul_clean : (s : Bytes) → All IsClean s → has_nul (length s) s ≡ false
unfolding has_nul
has_nul_clean [] h = refl
has_nul_clean (c ∷ s) h = let nz = h.0.nul in ground (arith, has_nul_clean s h.1)

strip_return_clean : (s : Bytes) → All IsClean s → strip_return s ≡ s
unfolding strip_return
strip_return_clean [] h = refl
strip_return_clean (c ∷ []) h = let nr = h.0.return in ground arith
strip_return_clean (c ∷ d ∷ s) h = ap (◌∷◌ c) (strip_return_clean (d ∷ s) h.1)

pub lines-clean : (s rest : Bytes) → All IsClean s → lines (s ++ (b'\n' ∷ rest)) ≡ s ∷ lines rest
unfolding lines
lines-clean [] rest h = refl
lines-clean (c ∷ s) rest h =
    let n : (c == 10) ≡ false = (let nn = h.0.newline in ground arith) in
    rw (n, lines-clean s rest h.1) refl

-- A line that holds at least one byte.
pub parse_lines-line :
    (s rest : Bytes) (line : ℕ) (out : IplistText)
    → 1 ≤ length s
    → All IsClean s
    → parse_lines (lines (s ++ (b'\n' ∷ rest))) line out
      ≡ parse_lines (lines rest) (line + 1) (parse_line s line out)
unfolding parse_lines parse_nonblank
parse_lines-line [] rest line out some_byte h = absurd (omega arith)
parse_lines-line (c ∷ s) rest line out some_byte h =
    rw (lines-clean (c ∷ s) rest h, parse_lines, strip_return_clean (c ∷ s) h, parse_nonblank) refl

pub parse_number-decimal :
    (n : ℕ) (value : Bytes)
    → 1 ≤ n
    → n ≤ 128
    → parse_number (decimal n ++ (b'=' ∷ value)) ≡ some (n, value)
unfolding parse_number
parse_number-decimal n value lo hi =
    rw
      (
        scan_digits-decimal 1 n (b'=' ∷ value) (omega arith) refl,
        (decimal-starts n (b'=' ∷ value) (omega arith)).1 lo,
      )
      (ground arith)
