-- ===== src/Link/Pw0.antt =====
-- What the workerus share with one receiver: its slots, its signal and their acknowledgements. Each
-- step is one write to them, or the end of a scan.
use messaging_cells.Common.{
  ℕ, ◌+◌, ◌<◌, ◌≡◌, ◌≢◌, false, true, Bool, Option, none, some, List, [], ◌∷◌, ◌++◌,
}
use messaging_cells.Kernel.State.{GrpPt, Ack, put_at}

-- Where a sender is in the body of its loop over `out_work`, for a group that goes to the receiver.
pub data Sender : Type 0 where
  away : Sender
  marked : ℕ → Sender
  stored : Sender

-- Where the receiver is: `scanning aa` at the top of the loop of `process_signal`, and `took aa`
-- before it writes the acknowledgement.
pub data Receiver : Type 0 where
  resting : Receiver
  scanning : ℕ → Receiver
  took : ℕ → Receiver

-- By the number of the sender: `slot` is the receiver's `pw0_routed_arr`, `ack` the sender's word for
-- the receiver in its `pw0_routed_ack_arr`. `sent` is what it has stored, in that order; `in_work`
-- is what the receiver has taken.
pub record Link : Type 0 where
  pub sgnl : Bool
  pub slot : ℕ → Option ℕ
  pub ack : ℕ → Ack
  pub snd : ℕ → Sender
  pub rcv : Receiver
  pub in_work : List GrpPt
  pub sent : ℕ → List ℕ

pub data Step (s : Link) : Link → Type 0 where
  -- `loc_dst_ack_pt = mck_busy_ack`
  mark :
      (i a : ℕ)
      → i < 16
      → s.snd i ≡ away
      → s.ack i ≢ Ack.busy
      → Step s (record s { ack = put_at i Ack.busy s.ack; snd = put_at i (marked a) s.snd })
  -- `*rmt_src_pt = glb_mgrp`
  store :
      (i a : ℕ)
      → s.snd i ≡ marked a
      → Step s (record s {
        slot = put_at i (some a) s.slot;
        snd = put_at i stored s.snd;
        sent = put_at i (s.sent i ++ a ∷ []) s.sent;
      })
  -- `*rmt_sg = mc_true`
  raise : (i : ℕ) → s.snd i ≡ stored → Step s (record s { sgnl = true; snd = put_at i away s.snd })
  -- `signals_arr[aa] = mc_false`, and the call of `process_signal`
  lower : s.rcv ≡ resting → s.sgnl ≡ true → Step s (record s { sgnl = false; rcv = scanning 0 })
  -- the slot is null
  skip :
      (aa : ℕ)
      → s.rcv ≡ scanning aa
      → aa < 16
      → s.slot aa ≡ none
      → Step s (record s { rcv = scanning (aa + 1) })
  -- `arr[aa] = mc_null`, with the reference bound into `in_work`
  take :
      (aa a : ℕ)
      → s.rcv ≡ scanning aa
      → aa < 16
      → s.slot aa ≡ some a
      → Step s (record s {
        slot = put_at aa none s.slot;
        in_work = s.in_work ++ record { owner = aa; at = a } ∷ [];
        rcv = took aa;
      })
  -- `*rem_dst_ack_pt = mck_ready_ack`
  answer :
      (aa : ℕ)
      → s.rcv ≡ took aa
      → Step s (record s { ack = put_at aa Ack.ready s.ack; rcv = scanning (aa + 1) })
  rest : s.rcv ≡ scanning 16 → Step s (record s { rcv = resting })

-- After `init_kernel` and `init_router_ack_arrays`.
abbrev pub start : Link
start = record {
  sgnl = false;
  slot = λ i. none;
  ack = λ i. Ack.virgin;
  snd = λ i. away;
  rcv = resting;
  in_work = [];
  sent = λ i. [];
}

pub data Reach : Link → Type 0 where
  initial : Reach start
  later : {s t : Link} → Reach s → Step s t → Reach t
