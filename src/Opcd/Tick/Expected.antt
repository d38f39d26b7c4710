-- ===== src/Opcd/Tick/Expected.antt =====
-- opcd/indication.c: what the end of a period is to send, read off the list of the changes that may wait.
use mathlib.Core.List.{append_assoc}
use wlan_opc.Base.{
  ℕ, ◌+◌, ◌%◌, ◌≡◌, refl, sym, ap, ap₂, ◌∙◌, inl, inr, Bool, true, false, not, ◌&&◌, if◌then◌else◌,
  Bool-cases, Option, none, some, List, [], ◌∷◌, ◌++◌, Bytes, get_or, map, arith,
}
use wlan_opc.Opcd.State.{State, Datagram, IndCoalesce}
use wlan_opc.Opcd.Indication.{
  wlan_status_frame, roaming_frame, ap_disconnect_frame, fault_detect_frame, staged_wlan,
  staged_roaming, staged_ap_disconnect,
}

-- Whether the change waits, and its frame with a sequence number.
pub record Change : Type 0 where
  pub waits : Bool
  pub frame : ℕ → Option Bytes

-- The congestion of the resources from `slot` on.
abbrev pub fault_changes : (slot : ℕ) → List Bool → List ℕ → List Change
fault_changes slot [] vals = []
fault_changes slot (p ∷ ps) vals =
    record {
      waits = p;
      frame =
          fault_detect_frame
            (record { congestion_id = slot + 1; current_val = get_or vals slot 0 });
    }
    ∷ fault_changes (slot + 1) ps vals

abbrev pub changes_of : IndCoalesce → List Change
changes_of c =
    record { waits = c.wlan_pending; frame = wlan_status_frame (staged_wlan c) }
    ∷ record { waits = c.roam_pending; frame = roaming_frame (staged_roaming c) }
    ∷ record { waits = c.apd_pending; frame = ap_disconnect_frame (staged_ap_disconnect c) }
    ∷ fault_changes 0 c.fault_pending c.fault_val

abbrev pub changes_all : List IndCoalesce → List Change
changes_all [] = []
changes_all (c ∷ cs) = changes_of c ++ changes_all cs

-- Which changes wait, in the order of `changes_all`.
abbrev pub flags_of : IndCoalesce → List Bool
flags_of c = c.wlan_pending ∷ c.roam_pending ∷ c.apd_pending ∷ c.fault_pending

abbrev pub flags_all : List IndCoalesce → List Bool
flags_all [] = []
flags_all (c ∷ cs) = flags_of c ++ flags_all cs

-- What an element holds, whether it waits or not.
abbrev pub content : IndCoalesce → IndCoalesce
content c = record c {
  wlan_pending = false;
  roam_pending = false;
  apd_pending = false;
  fault_pending = [];
}

abbrev pub to_recipient : State → Bytes → Datagram
to_recipient st frame = record {
  dst_ip = st.indication_recipient_ip;
  dst_port = st.indication_recipient_port;
  payload = frame;
}

abbrev pub handed : (Bytes → Datagram) → Option Bytes → List Datagram
handed to none = []
handed to (some frame) = to frame ∷ []

-- All of the frame was sent.
abbrev pub arrives : (Datagram → Bool) → (Bytes → Datagram) → Option Bytes → Bool
arrives sendto to none = false
arrives sendto to (some frame) = sendto (to frame)

-- Only a change that waits takes a sequence number.
abbrev pub next_after : ℕ → Change → ℕ
next_after seq c = if c.waits then (seq + 1) % 65536 else seq

abbrev pub seq_after : ℕ → List Change → ℕ
seq_after seq [] = seq
seq_after seq (c ∷ cs) = seq_after (next_after seq c) cs

-- The frames of the changes that wait, in order.
abbrev pub expected_sent : (Bytes → Datagram) → (seq : ℕ) → List Change → List Datagram
expected_sent to seq [] = []
expected_sent to seq (c ∷ cs) =
    (if c.waits then handed to (c.frame seq) else []) ++ expected_sent to (next_after seq c) cs

-- A change waits on when it waited and its own frame did not arrive.
abbrev pub expected_waits :
    (Datagram → Bool) → (Bytes → Datagram) → (seq : ℕ) → List Change → List Bool
expected_waits sendto to seq [] = []
expected_waits sendto to seq (c ∷ cs) =
    (c.waits && not (arrives sendto to (c.frame seq)))
    ∷ expected_waits sendto to (next_after seq c) cs

pub seq_after-append :
    (seq : ℕ) (as' bs : List Change) → seq_after seq (as' ++ bs) ≡ seq_after (seq_after seq as') bs
seq_after-append seq [] bs = refl
seq_after-append seq (a ∷ as') bs = seq_after-append (next_after seq a) as' bs

pub expected_sent-append :
    (to : Bytes → Datagram) (seq : ℕ) (as' bs : List Change)
    → expected_sent to seq (as' ++ bs)
      ≡ expected_sent to seq as' ++ expected_sent to (seq_after seq as') bs
expected_sent-append to seq [] bs = refl
expected_sent-append to seq (a ∷ as') bs =
    ap (λ (ds : List Datagram). (if a.waits then handed to (a.frame seq) else []) ++ ds)
      (expected_sent-append to (next_after seq a) as' bs)
    ∙ sym (
        append_assoc (if a.waits then handed to (a.frame seq) else [])
          (expected_sent to (next_after seq a) as')
          (expected_sent to (seq_after (next_after seq a) as') bs))

pub expected_waits-append :
    (sendto : Datagram → Bool) (to : Bytes → Datagram) (seq : ℕ) (as' bs : List Change)
    → expected_waits sendto to seq (as' ++ bs)
      ≡ expected_waits sendto to seq as' ++ expected_waits sendto to (seq_after seq as') bs
expected_waits-append sendto to seq [] bs = refl
expected_waits-append sendto to seq (a ∷ as') bs =
    ap (λ (ws : List Bool). (a.waits && not (arrives sendto to (a.frame seq))) ∷ ws)
      (expected_waits-append sendto to (next_after seq a) as' bs)

abbrev pub one_if : Bool → ℕ
one_if true = 1
one_if false = 0

-- The datagrams that were sent in full.
abbrev pub delivered : (Datagram → Bool) → List Datagram → ℕ
delivered sendto [] = 0
delivered sendto (d ∷ ds) = one_if (sendto d) + delivered sendto ds

abbrev pub count_true : List Bool → ℕ
count_true [] = 0
count_true (b ∷ bs) = one_if b + count_true bs

delivered-append :
    (sendto : Datagram → Bool) (xs ys : List Datagram)
    → delivered sendto (xs ++ ys) ≡ delivered sendto xs + delivered sendto ys
delivered-append sendto [] ys = omega arith
delivered-append sendto (x ∷ xs) ys = omega (arith, delivered-append sendto xs ys)

-- One change is delivered or waits on, when it waited.
change_count :
    (sendto : Datagram → Bool) (to : Bytes → Datagram) (waits : Bool) (frame : Option Bytes)
    → delivered sendto (if waits then handed to frame else [])
        + one_if (waits && not (arrives sendto to frame))
      ≡ one_if waits
change_count sendto to false frame = refl
change_count sendto to true none = refl
change_count sendto to true (some frame) = elim (Bool-cases (sendto (to frame))) [
  | inl sent ↦ simp sent refl
  | inr lost ↦ simp lost refl
]

pub expected_count :
    (sendto : Datagram → Bool) (to : Bytes → Datagram) (seq : ℕ) (cs : List Change)
    → delivered sendto (expected_sent to seq cs) + count_true (expected_waits sendto to seq cs)
      ≡ count_true (map (λ c. c.waits) cs)
expected_count sendto to seq [] = refl
expected_count sendto to seq (c ∷ cs) = omega (
  arith,
  change_count sendto to c.waits (c.frame seq),
  expected_count sendto to (next_after seq c) cs,
  delivered-append sendto,
)

fault_changes_flags :
    (slot : ℕ) (ps : List Bool) (vals : List ℕ)
    → map (λ (c : Change). c.waits) (fault_changes slot ps vals) ≡ ps
fault_changes_flags slot [] vals = refl
fault_changes_flags slot (p ∷ ps) vals = ap (◌∷◌ p) (fault_changes_flags (slot + 1) ps vals)

waits-append :
    (as' bs : List Change)
    → map (λ (c : Change). c.waits) (as' ++ bs)
      ≡ map (λ (c : Change). c.waits) as' ++ map (λ (c : Change). c.waits) bs
waits-append [] bs = refl
waits-append (a ∷ as') bs = ap (◌∷◌ a.waits) (waits-append as' bs)

pub changes_all_flags :
    (cs : List IndCoalesce) → map (λ (c : Change). c.waits) (changes_all cs) ≡ flags_all cs
changes_all_flags [] = refl
changes_all_flags (c ∷ cs) =
    waits-append (changes_of c) (changes_all cs)
    ∙ ap₂
        (λ (fs rest : List Bool).
          (c.wlan_pending ∷ (c.roam_pending ∷ (c.apd_pending ∷ fs))) ++ rest)
        (fault_changes_flags 0 c.fault_pending c.fault_val) (changes_all_flags cs)
