-- ===== src/Opcd/IplistText/KeyLines.antt =====
-- The line that is written for a key is read back as a value of that key.
use mathlib.Core.List.{append_assoc}
use wlan_opc.Base.{
  ℕ, ◌+◌, ◌≤◌, ◌<◌, ◌≡◌, refl, some, [], ◌∷◌, ◌++◌, Bytes, length, leb, true, arith, All,
  All-append,
}
use wlan_opc.Opcd.IplistText.{
  decimal, keys, key_text, plain_line, ip_address_name, subnet_mask_name, default_gateway_name,
  essid_name, ntp_server_name, key_ip, key_mask, key_gw, key_essid, key_ntp,
}
use wlan_opc.Opcd.IplistText.Digits.{decimal-starts}
use wlan_opc.Opcd.IplistText.Parse.{
  IplistText, lines, parse_lines, parse_line, find_key, take_value,
}
use wlan_opc.Opcd.IplistText.Lines.{
  IsClean, literal, decimal-IsClean, has_nul_clean, parse_lines-line, parse_number-decimal,
}

abbrev IsFound : Bytes → ℕ → Type 0
IsFound name bit =
    (n : ℕ) (value : Bytes)
    → n < 1000
    → find_key keys (key_text name n ++ value) ≡ some (bit, decimal n ++ (b'=' ∷ value))

find_ip_address : IsFound ip_address_name key_ip
unfolding key_text
find_ip_address n value h =
    rw (append_assoc (decimal n) (b'=' ∷ []) value, (decimal-starts n (b'=' ∷ value) h).0) refl

find_subnet_mask : IsFound subnet_mask_name key_mask
unfolding key_text
find_subnet_mask n value h =
    rw (append_assoc (decimal n) (b'=' ∷ []) value, (decimal-starts n (b'=' ∷ value) h).0) refl

find_default_gateway : IsFound default_gateway_name key_gw
unfolding key_text
find_default_gateway n value h =
    rw (append_assoc (decimal n) (b'=' ∷ []) value, (decimal-starts n (b'=' ∷ value) h).0) refl

find_essid : IsFound essid_name key_essid
unfolding key_text
find_essid n value h =
    rw (append_assoc (decimal n) (b'=' ∷ []) value, (decimal-starts n (b'=' ∷ value) h).0) refl

find_ntp_server : IsFound ntp_server_name key_ntp
unfolding key_text
find_ntp_server n value h =
    rw (append_assoc (decimal n) (b'=' ∷ []) value, (decimal-starts n (b'=' ∷ value) h).0) refl

abbrev Letters : Bytes → Type 0
Letters s = All (λ c. leb 14 c ≡ true) s

Letters-IsClean : (s : Bytes) → Letters s → All IsClean s
Letters-IsClean [] h = tt
Letters-IsClean (c ∷ s) h = (literal c h.0, Letters-IsClean s h.1)

key_text-IsClean : (name : Bytes) (n : ℕ) → Letters name → n < 1000 → All IsClean (key_text name n)
unfolding key_text
key_text-IsClean name n l h =
    All-append IsClean name _ (Letters-IsClean name l)
      (All-append IsClean (decimal n) _ (decimal-IsClean n h) (literal b'=' refl, tt))

key_text-nonempty :
    (c : ℕ) (name : Bytes) (n : ℕ) (value : Bytes) → 1 ≤ length (key_text (c ∷ name) n ++ value)
unfolding key_text
key_text-nonempty c name n value = omega arith

-- The line of a key of the table.
parse_key :
    (c : ℕ) (name : Bytes) (bit : ℕ)
    → Letters (c ∷ name)
    → IsFound (c ∷ name) bit
    → (n line : ℕ) (value rest : Bytes) (out : IplistText) → 1 ≤ n
    → n ≤ 128
    → All IsClean value
    → parse_lines (lines ((key_text (c ∷ name) n ++ plain_line value) ++ rest)) line out
      ≡ parse_lines (lines rest) (line + 1) (take_value out bit n line value)
unfolding parse_line
parse_key c name bit l f n line value rest out lo hi v =
    let text = key_text (c ∷ name) n ++ value in
    let clean =
      All-append IsClean (key_text (c ∷ name) n) value
        (key_text-IsClean (c ∷ name) n l (omega arith)) v in
    let whole : (key_text (c ∷ name) n ++ plain_line value) ++ rest ≡ text ++ (b'\n' ∷ rest) =
      simp append_assoc in
    let read : parse_line text line out ≡ take_value out bit n line value =
      rw
        (
          parse_line,
          has_nul_clean text clean,
          f n value (omega arith),
          parse_number-decimal n value lo hi,
        )
        refl in
    rw (whole, ← read)
      (parse_lines-line text rest line out (key_text-nonempty c name n value) clean)

-- A key with what is known of its line.
abbrev pub IsRead : Bytes → ℕ → Type 0
IsRead name bit =
    (n line : ℕ) (value rest : Bytes) (out : IplistText)
    → 1 ≤ n
    → n ≤ 128
    → All IsClean value
    → parse_lines (lines ((key_text name n ++ plain_line value) ++ rest)) line out
      ≡ parse_lines (lines rest) (line + 1) (take_value out bit n line value)

pub IsRead-ip_address : IsRead ip_address_name key_ip
IsRead-ip_address =
    parse_key _ _ key_ip (refl, (refl, (refl, (refl, (refl, (refl, (refl, (refl, (refl, tt)))))))))
      find_ip_address

pub IsRead-subnet_mask : IsRead subnet_mask_name key_mask
IsRead-subnet_mask =
    parse_key _ _ key_mask
      (
        refl,
        (refl, (refl, (refl, (refl, (refl, (refl, (refl, (refl, (refl, (refl, (refl, tt))))))))))),
      )
      find_subnet_mask

pub IsRead-default_gateway : IsRead default_gateway_name key_gw
IsRead-default_gateway =
    parse_key _ _ key_gw
      (
        refl,
        (
          refl,
          (
            refl,
            (
              refl,
              (
                refl,
                (
                  refl,
                  (
                    refl,
                    (refl, (refl, (refl, (refl, (refl, (refl, (refl, (refl, (refl, tt))))))))),
                  ),
                ),
              ),
            ),
          ),
        ),
      )
      find_default_gateway

pub IsRead-essid : IsRead essid_name key_essid
IsRead-essid =
    parse_key _ _ key_essid
      (refl, (refl, (refl, (refl, (refl, (refl, (refl, (refl, (refl, tt))))))))) find_essid

pub IsRead-ntp_server : IsRead ntp_server_name key_ntp
IsRead-ntp_server =
    parse_key _ _ key_ntp (refl, (refl, (refl, (refl, (refl, (refl, (refl, (refl, (refl, tt)))))))))
      find_ntp_server
