-- ===== src/Link/Manageru.antt =====
-- What the manageru and one workeru share: `handle_work_to_workerus` against
-- `handle_work_from_manageru`, which lowers the flag last.
use messaging_cells.Common.{
  ℕ, ◌≡◌, ◌≢◌, refl, ap, false, true, Bool, Option, none, some, List, [], ◌∷◌, ◌++◌,
}
use messaging_cells.Kernel.State.{Ack}
use messaging_cells.Link.Pw0.{Sender, away, marked, stored}

pub data Workeru : Type 0 where
  resting : Workeru
  checking : Workeru
  took : ℕ → Workeru
  handling : ℕ → Workeru

-- `flag` is the workeru's `has_from_manageru_work`, `slot` its `routed_from_manageru`, and `ack` the
-- manageru's word for it. `handled` are the groups whose missives it has handled.
pub record FromManageru : Type 0 where
  pub flag : Bool
  pub slot : Option ℕ
  pub ack : Ack
  pub man : Sender
  pub wrk : Workeru
  pub handled : List ℕ

pub data ManStep (s : FromManageru) : FromManageru → Type 0 where
  -- `loc_dst_ack_pt = mck_busy_ack`, for the group `a`
  mark :
      (a : ℕ)
      → s.man ≡ away
      → s.ack ≢ Ack.busy
      → ManStep s (record s { ack = Ack.busy; man = marked a })
  -- `workeru_ker->routed_from_manageru = glb_mgrp`
  store : (a : ℕ) → s.man ≡ marked a → ManStep s (record s { slot = some a; man = stored })
  -- `workeru_ker->has_from_manageru_work = mc_true`
  raise : s.man ≡ stored → ManStep s (record s { flag = true; man = away })
  -- `if(has_from_manageru_work)`
  see : s.wrk ≡ resting → s.flag ≡ true → ManStep s (record s { wrk = checking })
  -- `arr[aa] = mc_null` in `process_signal`
  take :
      (a : ℕ)
      → s.wrk ≡ checking
      → s.slot ≡ some a
      → ManStep s (record s { slot = none; wrk = took a })
  -- `*rem_dst_ack_pt = mck_ready_ack`
  answer : (a : ℕ) → s.wrk ≡ took a → ManStep s (record s { ack = Ack.ready; wrk = handling a })
  -- the handlers, and `has_from_manageru_work = false`
  lower :
      (a : ℕ)
      → s.wrk ≡ handling a
      → ManStep s (record s { flag = false; wrk = resting; handled = s.handled ++ a ∷ [] })

abbrev pub man_start : FromManageru
man_start = record {
  flag = false;
  slot = none;
  ack = Ack.virgin;
  man = away;
  wrk = resting;
  handled = [];
}

pub data ManReach : FromManageru → Type 0 where
  initial : ManReach man_start
  later : {s t : FromManageru} → ManReach s → ManStep s t → ManReach t

-- The group `b` is in the slot, the manageru waits for its acknowledgement, and nothing can move.
pub record Stuck (s : FromManageru) (b : ℕ) : Type 0 where
  pub there : s.slot ≡ some b
  pub waits : s.ack ≡ Ack.busy
  pub still : (t : FromManageru) → ¬ ManStep s t

lost : ℕ → ℕ → FromManageru
lost a b = record {
  flag = false;
  slot = some b;
  ack = Ack.busy;
  man = away;
  wrk = resting;
  handled = a ∷ [];
}

no_step : (a b : ℕ) (s t : FromManageru) → s ≡ lost a b → ¬ ManStep s t
unfolding lost
no_step a b s t e (mark c h n) = n (ap (λ x. x.ack) e)
no_step a b s t e (store c h) = cc
no_step a b s t e (raise h) = cc
no_step a b s t e (see h f) = cc
no_step a b s t e (take c h f) = cc
no_step a b s t e (answer c h) = cc
no_step a b s t e (lower c h) = cc

lost-ManReach : (a b : ℕ) → ManReach (lost a b)
unfolding lost
lost-ManReach a b =
    let r1 = later initial (mark a refl (λ e. cc)) in
    let r2 = later (later r1 (store a refl)) (raise refl) in
    let r3 = later (later (later r2 (see refl refl)) (take a refl refl)) (answer a refl) in
    let r4 = later (later (later r3 (mark b refl (λ e. cc))) (store b refl)) (raise refl) in
    later r4 (lower a refl)

-- A wake-up can be lost here: when the manageru sends the group `b` while the workeru still handles
-- the group `a`, which it has acknowledged, the workeru then lowers the flag over it, `b` is never
-- handled and the manageru never sends to that workeru again.
pub wakeup_lost : (a b : ℕ) → (s : FromManageru) × ManReach s × (s.handled ≡ a ∷ []) × Stuck s b
unfolding lost
wakeup_lost a b = (
  lost a b,
  lost-ManReach a b,
  refl,
  record { there = refl; waits = refl; still = λ t. no_step a b (lost a b) t refl },
)
