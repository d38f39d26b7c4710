-- ===== src/Opcd/State/Sending.antt =====
-- What the sending of an indication changes.
use wlan_opc.Base.{ℕ, ◌+◌, ◌%◌, ◌≡◌, inl, inr, ◌==◌, Bool-cases}
use Prim.Native.Nat.{bit_and}
use wlan_opc.Opcd.State.{State, next_seq, opcd_ind_init_complete, ind_bit_init_complete}

-- Only the sequence number.
pub opcd_ind_init_complete-state :
    (st : State) (status : ℕ)
    → (seq : ℕ) × ((opcd_ind_init_complete st status).0 ≡ record st { indication_seq = seq })
unfolding opcd_ind_init_complete next_seq
opcd_ind_init_complete-state st status =
    elim (Bool-cases (bit_and st.indication_info_bits ind_bit_init_complete == 0)) [
      | inl e ↦ (st.indication_seq, rw e)
      | inr e ↦ ((st.indication_seq + 1) % 65536, rw e)
    ]
