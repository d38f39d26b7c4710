-- ===== src/Opcd/IplistText/RoundTrip.antt =====
-- What was written is read back, slot by slot.
use mathlib.Core.List.{append_assoc}
use wlan_opc.Base.{
  ℕ, suc, ◌+◌, ◌≤◌, ◌≡◌, refl, sym, ◌∙◌, inl, inr, Bool, false, List, [], ◌∷◌, ◌++◌, length,
  length-append, replicate, ◌==◌, if◌then◌else◌, Bool-cases, arith,
}
use wlan_opc.Protocol.Commands.Records.{IpcfgEntry}
use wlan_opc.Opcd.State.{IpList, no_entry}
use wlan_opc.Opcd.IplistText.{key_all}
use wlan_opc.Opcd.IplistText.Parse.{
  IplistText, lines, parse_lines, ends_with_newline, opc_iplist_text_parse,
}
use wlan_opc.Opcd.IplistText.Slots.{Cursor, restored, parse_entry}
use wlan_opc.Opcd.IplistText.Format.{slots_text, AreWritable}

-- The entries and the keys that are read, from list `i + 1` on.
unfoldable pub restored_entries : ℕ → List IpcfgEntry → List ℕ → List IpcfgEntry
restored_entries i [] ps = []
restored_entries i (e ∷ es) [] = []
restored_entries i (e ∷ es) (p ∷ ps) =
    (if p == 0 then no_entry else restored (i + 1) e) ∷ restored_entries (i + 1) es ps

unfoldable pub restored_keys : List ℕ → List ℕ
restored_keys [] = []
restored_keys (p ∷ ps) = (if p == 0 then 0 else key_all) ∷ restored_keys ps

abbrev text_of : (entry : List IpcfgEntry) → (keys : List ℕ) → List Bool → Bool → IplistText
text_of entry keys bad final_newline = record {
  entry = entry;
  keys = keys;
  bad = bad;
  first_error_line = 0;
  final_newline = final_newline;
}

module _ (bad : List Bool) (final_newline : Bool) where
  parse_slots :
      (pre : List IpcfgEntry) (kpre : List ℕ) (es : List IpcfgEntry) (ps : List ℕ) (line : ℕ)
      → length kpre ≡ length pre
      → length ps ≡ length es
      → length pre + length es ≤ 128
      → AreWritable es ps
      → parse_lines (lines (slots_text (length pre) es ps)) line (
          text_of
            (pre ++ replicate (length es) no_entry)
            (kpre ++ replicate (length ps) 0)
            bad
            final_newline)
        ≡ text_of
            (pre ++ restored_entries (length pre) es ps)
            (kpre ++ restored_keys ps)
            bad
            final_newline
  unfolding slots_text restored_entries restored_keys parse_lines lines
  parse_slots pre kpre [] [] line same size room w = refl
  parse_slots pre kpre [] (p ∷ ps) line same size room w = absurd (omega arith)
  parse_slots pre kpre (e ∷ es) [] line same size room w = absurd (omega arith)
  parse_slots pre kpre (e ∷ es) (p ∷ ps) line same size room w =
      let i = length pre in
      let go = λ (x : IpcfgEntry) (k line' : ℕ).
        let len : length (pre ++ (x ∷ [])) ≡ i + 1 = length-append pre (x ∷ []) in
        let ih =
          parse_slots (pre ++ (x ∷ [])) (kpre ++ (k ∷ [])) es ps line'
            (omega (arith, len, length-append kpre (k ∷ []))) (omega arith) (omega (arith, len))
            (λ j. w (suc j)) in
        simp (len, append_assoc) at ih in
      elim (Bool-cases (p == 0)) [
        | inl z ↦ simp z (go no_entry 0 line)
        | inr nz ↦
            let c : Cursor = record {
              pre = pre;
              post = replicate (length es) no_entry;
              kpre = kpre;
              kpost = replicate (length ps) 0;
              bad = bad;
              final_newline = final_newline;
            } in
            simp nz (
              parse_entry c (i + 1) (omega arith) same (omega arith) line e
                (slots_text (i + 1) es ps) (w 0 (ground arith))
              ∙ go (restored (i + 1) e) key_all (line + 1 + 1 + 1 + 1 + 1))
      ]

-- The text of a list is parsed without an error: the slots that are present have all their keys and
-- the values written, no other slot has a key.
pub opc_iplist_text_parse-slots_text :
    (l : IpList)
    → length l.slots ≡ 128
    → length l.present ≡ 128
    → AreWritable l.slots l.present
    → let text = slots_text 0 l.slots l.present in
      opc_iplist_text_parse text ≡ record {
        entry = restored_entries 0 l.slots l.present;
        keys = restored_keys l.present;
        bad = replicate 128 false;
        first_error_line = 0;
        final_newline = ends_with_newline text;
      }
unfolding opc_iplist_text_parse
opc_iplist_text_parse-slots_text l size psize w =
    let text = slots_text 0 l.slots l.present in
    let parsed =
      parse_slots (replicate 128 false) (ends_with_newline text) [] [] l.slots l.present 1 refl
        (psize ∙ sym size) (omega arith) w in
    simp (size, psize) at parsed
