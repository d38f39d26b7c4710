-- ===== src/Opcd/IplistLoad/Sound.antt =====
-- Whatever the text, the list that is read from it is sound.
use wlan_opc.Base.{
  ℕ, zero, suc, ◌+◌, ◌-◌, ◌≡◌, set, ◌≢◌, refl, ◌∙◌, ap, ◌⊎◌, inl, inr, Bool, true, false, not, ◌&&◌,
  Option, none, some, List, [], ◌∷◌, Bytes, length, length-set, length-replicate, get_or, ◌==◌,
  ◌/=◌, if◌then◌else◌, Bool-cases, Option-cases, ◌>>=◌, >>=-eq-some, eq_of_some, arith,
}
use Prim.Native.Nat.{bit_and, bit_or}
use wlan_opc.Protocol.Commands.Records.{IpcfgEntry}
use wlan_opc.Protocol.CString.{has_nul}
use wlan_opc.Opcd.State.{IpList, no_entry}
use wlan_opc.Opcd.Validators.{ipcfg_entry_error}
use wlan_opc.Opcd.IpList.Laws.{IsSound}
use wlan_opc.Opcd.IplistText.{keys}
use wlan_opc.Opcd.IplistText.Parse.{
  IplistText, note, reject_slot, take_value, parse_value, parse_line, parse_nonblank, parse_lines,
  strip_return, lines, find_key, parse_number, no_text, ends_with_newline, opc_iplist_text_parse,
}
use wlan_opc.Opcd.IplistLoad.{
  list_rejected, slot_cons, kept_entry, take_lists, iplist_from_text, without_bom,
}

-- The three arrays keep their 128 slots.
record IsWhole (t : IplistText) : Type 0 where
  entry : length t.entry ≡ 128
  keys : length t.keys ≡ 128
  bad : length t.bad ≡ 128

note-IsWhole : (t : IplistText) (line : ℕ) → IsWhole t → IsWhole (note t line)
unfolding note
note-IsWhole t line w = elim (Bool-cases (t.first_error_line /= 0)) [
  | inl e ↦ simp e w
  | inr e ↦ simp e (record { entry = w.entry; keys = w.keys; bad = w.bad })
]

reject_slot-IsWhole : (t : IplistText) (i line : ℕ) → IsWhole t → IsWhole (reject_slot t i line)
reject_slot-IsWhole t i line w =
    note-IsWhole (record t { bad = set t.bad i true }) line
      (record { entry = w.entry; keys = w.keys; bad = length-set t.bad i true ∙ w.bad })

take_value-IsWhole :
    (t : IplistText) (bit n line : ℕ) (s : Bytes) → IsWhole t → IsWhole (take_value t bit n line s)
unfolding take_value
take_value-IsWhole t bit n line s w =
    let i = n - 1 in
    let seen = get_or t.keys i 0 in
    elim (Bool-cases (bit_and seen bit /= 0)) [
      | inl again ↦ simp again (reject_slot-IsWhole t i line w)
      | inr first ↦ elim (Option-cases (parse_value bit s (get_or t.entry i no_entry))) [
        | inl bad ↦ simp (first, bad) (reject_slot-IsWhole t i line w)
        | inr (e, good) ↦
            simp (first, good)
              (record {
                entry = length-set t.entry i (record e { list_number = n }) ∙ w.entry;
                keys = length-set t.keys i (bit_or seen bit) ∙ w.keys;
                bad = w.bad;
              })
      ]
    ]

parse_line-IsWhole :
    (s : Bytes) (line : ℕ) (t : IplistText) → IsWhole t → IsWhole (parse_line s line t)
unfolding parse_line
parse_line-IsWhole s line t w = elim (Bool-cases (has_nul (length s) s)) [
  | inl nul ↦ simp nul (note-IsWhole t line w)
  | inr text ↦ elim (Option-cases (find_key keys s)) [
    | inl none_found ↦ simp (text, none_found) (note-IsWhole t line w)
    | inr (k, found) ↦ elim (Option-cases (parse_number k.1)) [
      | inl bad ↦ simp (text, found, bad) (note-IsWhole t line w)
      | inr (p, good) ↦ simp (text, found, good) (take_value-IsWhole t k.0 p.0 line p.1 w)
    ]
  ]
]

parse_nonblank-IsWhole :
    (s : Bytes) (line : ℕ) (t : IplistText) → IsWhole t → IsWhole (parse_nonblank s line t)
unfolding parse_nonblank
parse_nonblank-IsWhole [] line t w = w
parse_nonblank-IsWhole (c ∷ s) line t w = parse_line-IsWhole (c ∷ s) line t w

parse_lines-IsWhole :
    (ls : List Bytes) (line : ℕ) (t : IplistText) → IsWhole t → IsWhole (parse_lines ls line t)
unfolding parse_lines
parse_lines-IsWhole [] line t w = w
parse_lines-IsWhole (l ∷ ls) line t w =
    parse_lines-IsWhole ls (line + 1) (parse_nonblank (strip_return l) line t)
      (parse_nonblank-IsWhole (strip_return l) line t w)

opc_iplist_text_parse-IsWhole : (s : Bytes) → IsWhole (opc_iplist_text_parse s)
unfolding opc_iplist_text_parse
opc_iplist_text_parse-IsWhole s =
    parse_lines-IsWhole (lines s) 1 (no_text (ends_with_newline s)) (record {
      entry = length-replicate 128 no_entry;
      keys = length-replicate 128 zero;
      bad = length-replicate 128 false;
    })

-- A list of `n` slots whose entries pass every check.
pub record IsChecked (n : ℕ) (l : IpList) : Type 0 where
  pub slots_len : length l.slots ≡ n
  pub present_len : length l.present ≡ n
  pub valid :
      (i : ℕ) → get_or l.present i 0 ≢ 0 → ipcfg_entry_error (get_or l.slots i no_entry) true ≡ 0

pub nil-IsChecked : IsChecked 0 (record { slots = []; present = [] })
nil-IsChecked = record { slots_len = refl; present_len = refl; valid = λ i h. absurd (h refl) }

pub cons-IsChecked :
    (n p : ℕ) (e : IpcfgEntry) (l : IpList)
    → (p ≢ 0 → ipcfg_entry_error e true ≡ 0)
    → IsChecked n l
    → IsChecked (suc n) (slot_cons e p l)
cons-IsChecked n p e l own c = record {
  slots_len = ap suc c.slots_len;
  present_len = ap suc c.present_len;
  valid = go;
}
  where
    go :
        (i : ℕ)
        → get_or (p ∷ l.present) i 0 ≢ 0
        → ipcfg_entry_error (get_or (e ∷ l.slots) i no_entry) true ≡ 0
    go zero h = own h
    go (suc i) h = c.valid i h

pub kept_entry_error :
    (i : ℕ) (e : IpcfgEntry)
    → ipcfg_entry_error e true ≡ 0
    → ipcfg_entry_error (kept_entry i e) true ≡ 0
unfolding ipcfg_entry_error
kept_entry_error i e ok = ok

abbrev slot_then : IpcfgEntry → ℕ → Option IpList → Option IpList
slot_then e p rest = rest >>= λ l. some (slot_cons e p l)

chain-IsChecked :
    (n : ℕ) (e : IpcfgEntry) (p : ℕ) (rest : Option IpList) (l : IpList)
    → ((l' : IpList) → rest ≡ some l' → IsChecked n l')
    → (p ≢ 0 → ipcfg_entry_error e true ≡ 0)
    → slot_then e p rest ≡ some l
    → IsChecked (suc n) l
chain-IsChecked n e p rest l ih ok h =
    let (l', r1, r2) = >>=-eq-some rest (λ l'. some (slot_cons e p l')) h in
    rw (← eq_of_some r2) (cons-IsChecked n p e l' ok (ih l' r1))

-- A slot is left empty, or holds an entry that passes every check.
take_cases :
    (strict : Bool) (i : ℕ) (e : IpcfgEntry) (k : ℕ) (b : Bool) (rest : Option IpList) (l : IpList)
    → (if (k == 0) && not b
        then slot_then no_entry 0 rest
        else if list_rejected e k b
        then (if strict then none else slot_then no_entry 0 rest)
        else if e.ip_address == 0
        then slot_then no_entry 0 rest
        else slot_then (kept_entry i e) 1 rest)
      ≡ some l
    → (slot_then no_entry 0 rest ≡ some l)
      ⊎ ((ipcfg_entry_error e true ≡ 0) × (slot_then (kept_entry i e) 1 rest ≡ some l))
unfolding list_rejected
take_cases strict i e k b rest l h = elim (Bool-cases ((k == 0) && not b)) [
  | inl unnamed ↦ inl (simp unnamed at h)
  | inr named ↦ elim (Bool-cases (list_rejected e k b)) [
    | inl refused ↦ elim (Bool-cases strict) [
      | inl s ↦ let h' = simp (named, refused, s) at h in absurd (cc)
      | inr s ↦ inl (simp (named, refused, s) at h)
    ]
    | inr taken ↦ elim (Bool-cases (e.ip_address == 0)) [
      | inl unset ↦ inl (simp (named, taken, unset) at h)
      | inr given ↦ inr (ground arith, simp (named, taken, given) at h)
    ]
  ]
]

take_lists-IsChecked :
    (strict : Bool) (n i : ℕ) (es : List IpcfgEntry) (ks : List ℕ) (bs : List Bool) (l : IpList)
    → length es ≡ n
    → length ks ≡ n
    → length bs ≡ n
    → take_lists strict i es ks bs ≡ some l
    → IsChecked n l
unfolding take_lists
take_lists-IsChecked strict zero i [] ks bs l a b c e = rw (← eq_of_some e) nil-IsChecked
take_lists-IsChecked strict zero i (x ∷ es) ks bs l a b c e = absurd (omega arith)
take_lists-IsChecked strict (suc n) i [] ks bs l a b c e = absurd (omega arith)
take_lists-IsChecked strict (suc n) i (x ∷ es) [] bs l a b c e = absurd (omega arith)
take_lists-IsChecked strict (suc n) i (x ∷ es) (k ∷ ks) [] l a b c e = absurd (omega arith)
take_lists-IsChecked strict (suc n) i (x ∷ es) (k ∷ ks) (bad ∷ bs) l a b c e =
    let rest = take_lists strict (i + 1) es ks bs in
    let ih = λ (l' : IpList) (r : rest ≡ some l').
      take_lists-IsChecked strict n (i + 1) es ks bs l' (omega arith) (omega arith) (omega arith)
        r in
    let split = take_cases strict i x k bad rest l e in
    elim split [
      | inl emptied ↦ chain-IsChecked n no_entry 0 rest l ih (λ h. absurd (h refl)) emptied
      | inr (ok, kept) ↦
          chain-IsChecked n (kept_entry i x) 1 rest l ih (λ h. kept_entry_error i x ok) kept
    ]

-- Whatever the text, the list that it is read as is sound.
pub iplist_from_text-IsSound :
    (strict : Bool) (s : Bytes) (l : IpList) → iplist_from_text strict s ≡ some l → IsSound l
unfolding iplist_from_text
iplist_from_text-IsSound strict s l e =
    let t = opc_iplist_text_parse (without_bom s) in
    let w = opc_iplist_text_parse-IsWhole (without_bom s) in
    elim (Bool-cases ((t.first_error_line /= 0) && strict)) [
      | inl refused ↦ let e' = simp refused at e in absurd (cc)
      | inr taken ↦
          let c =
            take_lists-IsChecked strict 128 0 t.entry t.keys t.bad l w.entry w.keys w.bad
              (simp taken at e) in
          record { slots_len = c.slots_len; present_len = c.present_len; valid = c.valid }
    ]
