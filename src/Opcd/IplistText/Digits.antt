-- ===== src/Opcd/IplistText/Digits.antt =====
-- Decimal numbers and dotted addresses are read back.
use wlan_opc.Base.{
  ℕ, zero, suc, ◌+◌, ◌-◌, ◌*◌, ◌/◌, ◌%◌, ◌^◌, ◌≤◌, ◌<◌, ◌≡◌, refl, ◌∙◌, ap, inl, inr, true, false,
  ◌⊎◌, some, [], ◌∷◌, ◌++◌, Bytes, ◌==◌, ltb, if◌then◌else◌, Bool-cases, arith,
}
use mathlib.Core.List.{append-nil}
use wlan_opc.Opcd.IplistText.{digits, decimal, ipv4_str}
use wlan_opc.Opcd.IplistText.Parse.{
  is_digit, starts_with, scan_digits, parse_octet, parse_parts, parse_ipv4,
}

-- The three lengths that numbers below 1000 have.
pub decimal_cases :
    (v : ℕ)
    → v < 1000
    → ((v < 10) × (decimal v ≡ (48 + v) ∷ []))
      ⊎ (((10 ≤ v) × (v < 100) × (decimal v ≡ (48 + v / 10) ∷ (48 + v % 10) ∷ []))
          ⊎ ((100 ≤ v) × (decimal v ≡ (48 + v / 100) ∷ (48 + v / 10 % 10) ∷ (48 + v % 10) ∷ [])))
unfolding decimal digits
decimal_cases v h = elim (Bool-cases (ltb v 10)) [
  | inl a ↦ inl (ground arith, simp a refl)
  | inr a ↦ elim (Bool-cases (ltb (v / 10) 10)) [
    | inl b ↦ inr (inl (ground arith, ground arith, simp (a, b) refl))
    | inr b ↦
        let c : ltb (v / 10 / 10) 10 ≡ true = ground arith in
        let d : v / 10 / 10 ≡ v / 100 = omega arith in
        inr (
          inr (
            ground arith,
            simp (a, b, c) (ap (λ (k : ℕ). (48 + k) ∷ (48 + v / 10 % 10) ∷ (48 + v % 10) ∷ []) d),
          ))
  ]
]

scan_digit :
    (room v w d : ℕ) (s : Bytes)
    → d < 10
    → v * 10 + d ≡ w
    → scan_digits (suc room) v ((48 + d) ∷ s) ≡ scan_digits room w s
unfolding scan_digits
scan_digit room v w d s h eq =
    let t : is_digit (48 + d) ≡ true = ground arith in
    let e : v * 10 + (48 + d - 48) ≡ w = omega arith in simp (t, e) refl

pub scan_stop :
    (room v : ℕ) (s : Bytes) → starts_with is_digit s ≡ false → scan_digits room v s ≡ (v, s)
unfolding scan_digits
scan_stop zero v s h = refl
scan_stop (suc room) v [] h = refl
scan_stop (suc room) v (c ∷ s) h = rw (h, if◌then◌else◌) refl

-- Of a number below 1000 the scan takes its digits.
pub scan_digits-decimal :
    (room v : ℕ) (rest : Bytes)
    → v < 1000
    → starts_with is_digit rest ≡ false
    → scan_digits (suc (suc (suc room))) 0 (decimal v ++ rest) ≡ (v, rest)
scan_digits-decimal room v rest h stop = elim (decimal_cases v h) [
  | inl (a, e) ↦ rw e (
      scan_digit (suc (suc room)) 0 v v rest a (omega arith)
      ∙ scan_stop (suc (suc room)) v rest stop)
  | inr (inl (a, b, e)) ↦ rw e (
      scan_digit (suc (suc room)) 0 (v / 10) (v / 10) ((48 + v % 10) ∷ rest) (omega arith)
        (omega arith)
      ∙ scan_digit (suc room) (v / 10) v (v % 10) rest (omega arith) (omega arith)
      ∙ scan_stop (suc room) v rest stop)
  | inr (inr (a, e)) ↦ rw e (
      scan_digit (suc (suc room)) 0 (v / 100) (v / 100) ((48 + v / 10 % 10) ∷ (48 + v % 10) ∷ rest)
        (omega arith) (omega arith)
      ∙ scan_digit (suc room) (v / 100) (v / 10) (v / 10 % 10) ((48 + v % 10) ∷ rest) (omega arith)
          (omega arith)
      ∙ scan_digit room (v / 10) v (v % 10) rest (omega arith) (omega arith)
      ∙ scan_stop room v rest stop)
]

-- The first digit, which is 0 only of the number 0.
pub decimal-starts :
    (v : ℕ) (rest : Bytes)
    → v < 1000
    → (starts_with is_digit (decimal v ++ rest) ≡ true)
      × (1 ≤ v → starts_with (λ c. c == b'0') (decimal v ++ rest) ≡ false)
decimal-starts v rest h = elim (decimal_cases v h) [
  | inl (a, e) ↦ rw e (ground arith, λ pos. ground arith)
  | inr (inl (a, b, e)) ↦ rw e (ground arith, λ pos. ground arith)
  | inr (inr (a, e)) ↦ rw e (ground arith, λ pos. ground arith)
]

parse_octet-decimal :
    (v : ℕ) (rest : Bytes)
    → v < 256
    → starts_with is_digit rest ≡ false
    → parse_octet (decimal v ++ rest) ≡ some (v, rest)
unfolding parse_octet
parse_octet-decimal v rest h stop =
    rw (scan_digits-decimal 0 v rest (omega arith) stop, stop)
      (elim (decimal_cases v (omega arith)) [
        | inl (a, e) ↦ rw e (ground arith)
        | inr (inl (a, b, e)) ↦ rw e (ground arith)
        | inr (inr (a, e)) ↦ rw e (ground arith)
      ])

parse_part :
    (left ip v : ℕ) (rest : Bytes)
    → v < 256
    → ip < 16777216
    → starts_with is_digit rest ≡ false
    → parse_parts (suc left) ip (b'.' ∷ (decimal v ++ rest)) ≡ parse_parts left (ip * 256 + v) rest
unfolding parse_parts
parse_part left ip v rest h small stop =
    let e : (ip * 256) % 2 ^ 32 + v ≡ ip * 256 + v = omega arith in
    rw (parse_octet-decimal v rest h stop, e) refl

parse_end : (ip : ℕ) → parse_parts 0 ip [] ≡ some ip
unfolding parse_parts
parse_end ip = refl

-- An address is read back.
pub parse_ipv4-ipv4_str : (ip : ℕ) → ip < 4294967296 → parse_ipv4 (ipv4_str ip) ≡ some ip
unfolding parse_ipv4 ipv4_str
parse_ipv4-ipv4_str ip h =
    let v3 = ip % 256 in
    let v2 = ip / 256 % 256 in
    let v1 = ip / 65536 % 256 in
    let back : ((ip / 16777216 * 256 + v1) * 256 + v2) * 256 + v3 ≡ ip = omega arith in
    rw (parse_octet-decimal (ip / 16777216) _ (omega arith) refl) (
      parse_part 2 (ip / 16777216) v1 _ (omega arith) (omega arith) refl
      ∙ parse_part 1 (ip / 16777216 * 256 + v1) v2 _ (omega arith) (omega arith) refl
      ∙ rw (← append-nil (decimal v3)) (
          parse_part 0 ((ip / 16777216 * 256 + v1) * 256 + v2) v3 [] (omega arith) (omega arith)
            refl)
      ∙ parse_end _
      ∙ ap some back)
