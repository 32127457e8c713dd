-- ===== src/Kernel/Tests.antt =====
-- Small systems of kernels, whose programs keep a number.
use messaging_cells.Common.{
  ℕ, suc, ◌≡◌, ◌==◌, refl, if◌then◌else◌, true, false, none, some, List, [], ◌∷◌, map, ==_ne,
  put_at, arith,
}
use messaging_cells.Kernel.State.{
  Missive, AgentGrp, Ack, Kernel, Sys, User, send, stop_sys, Run, ok, stopped, out_of_fuel,
}
use messaging_cells.Kernel.Calls.{acquire_grp}
use messaging_cells.Kernel.Send.{local_from, handle_out_work, release_sent}
use messaging_cells.Kernel.Round.{init_kernel, handle_missives, run_round}
use messaging_cells.Kernel.Idle.{IsStopping, stop_missive, root_stop_unsent}
use messaging_cells.Kernel.Local.{AlwaysReplies, ToUser, local_from-endless}
use messaging_cells.Kernel.Groups.{Grouped}
use messaging_cells.Kernel.Groups.Pool.{PoolOk, Acquired}
use messaging_cells.Kernel.Groups.Reuse.{
  PoolRun, inited, acquired, released, worked, acquire_grp-PoolRun,
}
use messaging_cells.Kernel.Groups.Order.{Added, add_out_missive-Added}
use messaging_cells.Kernel.Mail.Slots.{MailOk}
use messaging_cells.Kernel.Mail.Kept.{Filled, handle_out_work-Kept}
use messaging_cells.Kernel.Mail.Rounds.{MailExact, init_kernel-MailExact, handle_missives-MailOk}

abbrev no_grp : AgentGrp
no_grp = record { all_agts = []; handled = false }

-- A workeru with eight handlers, whose cells all have the one of number 6.
abbrev kernel : Kernel ℕ
kernel = record {
  is_manageru_kernel = false;
  signals_arr = λ sg. false;
  routed_arr = λ sg i. none;
  routed_ack_arr = λ sg i. Ack.virgin;
  routed_from_manageru = none;
  routed_ack_from_manageru = Ack.ready;
  has_from_manageru_work = false;
  has_to_manageru_work = false;
  to_workerus_work = [];
  to_manageru_work = [];
  in_work = [];
  local_work = [];
  out_work = [];
  sent_work = [];
  grps = λ a. no_grp;
  available_grps = [];
  next_grp = 0;
  first_cell = 9;
  did_work = [];
  exit_when_idle = false;
  manageru_running = true;
  stop_key = 0;
  sent_stop_to_parent = false;
  rcvd_stop_key = 0;
  num_childs_stopping = 0;
  cell_handlers = some 8;
  handler_idx = λ a. 6;
  inited = true;
  current_module_addr = 0;
  current_sub_module_id = 0;
  parent = none;
  childs = [];
  user = 0;
}

abbrev msv : ℕ → ℕ → Missive
msv from to = record {
  dst = record { owner = to; at = 5 };
  src = record { owner = from; at = 5 };
  tok = 0;
}

-- Each handler answers by a missive from and to the workeru 0.
abbrev talker : User ℕ
talker = record {
  handle = λ u idx m. (suc u, send (msv 0 0) ∷ []);
  user_func = λ u. (u, []);
  user_stop_func = λ u. (u, []);
}

-- `user_func` asks for the stop.
abbrev stopper : User ℕ
stopper = record {
  handle = λ u idx m. (u, []);
  user_func = λ u. (u, stop_sys 3 ∷ []);
  user_stop_func = λ u. (u, []);
}

-- The root has heard from its two children.
abbrev root : Kernel ℕ
root = record kernel { childs = 1 ∷ 2 ∷ []; rcvd_stop_key = 3; num_childs_stopping = 2 }

abbrev root_sys : Sys ℕ
root_sys = record { manageru = 99; ker = λ i. if i == 0 then root else kernel }

root-IsStopping : IsStopping stopper 0 (root_sys.ker 0) 3 0 0
root-IsStopping = record {
  idle = record {
    signals = λ sg. refl;
    from_manageru = refl;
    to_manageru = refl;
    to_workerus = refl;
    in_none = refl;
    local_none = refl;
    out_none = refl;
    sent_none = refl;
  };
  handlers = (8, refl);
  root = refl;
  running = refl;
  asked = refl;
  unsent = refl;
  all_asked = refl;
  proper = λ e. cc;
  asks = refl;
  quiet = refl;
}

root_stop_unsent_example :
    (t : Sys ℕ) × (run_round stopper 1 0 root_sys ≡ ok (true, t))
    × ((t.ker 0).inited ≡ false)
    × ((t.ker 0).local_work ≡ map (stop_missive stopper 0 (root_sys.ker 0)) (root_sys.ker 0).childs)
root_stop_unsent_example = root_stop_unsent stopper 0 0 root_sys 3 0 0 root-IsStopping

abbrev talk_sys : Sys ℕ
talk_sys = record {
  manageru = 99;
  ker = λ i. record kernel { local_work = msv 0 0 ∷ msv 0 0 ∷ [] };
}

talker-AlwaysReplies : AlwaysReplies talker 0 8 (λ a. 6)
unfolding AlwaysReplies
talker-AlwaysReplies u m h =
    (suc u, msv 0 0, refl, record { here = refl; above = omega arith; below = omega arith })

msv-ToUser : ToUser talker 0 8 (λ a. 6) (msv 0 0)
msv-ToUser = record { here = refl; above = omega arith; below = omega arith }

local_from-endless_example :
    local_from talker 7 0 (msv 0 0 ∷ msv 0 0 ∷ []) talk_sys ≡ stopped out_of_fuel
local_from-endless_example =
    local_from-endless talker 0 8 (λ a. 6) 7 talk_sys (msv 0 0) (msv 0 0) [] talker-AlwaysReplies
      (record { handlers = refl; indices = refl }) refl (msv-ToUser, (msv-ToUser, tt))

-- One group in use, for the workeru 2, and one available.
abbrev pool : Kernel ℕ
pool = record kernel {
  grps = λ a. if a == 0 then record { all_agts = msv 0 2 ∷ []; handled = false } else no_grp;
  available_grps = 1 ∷ [];
  next_grp = 2;
}

abbrev used : List ℕ
used = 0 ∷ []

pool-PoolOk : PoolOk pool used
pool-PoolOk = record {
  empty = (refl, tt);
  distinct = (((λ e. cc), tt), (tt, tt));
  below = (omega arith, (omega arith, tt));
}

used-Grouped : Grouped pool.grps used (2 ∷ [])
used-Grouped = (
  record { first = msv 0 2; others = []; agts = refl; first_to = refl; others_to = tt },
  tt,
  tt,
  tt,
)

-- A group that was acquired, handled and released is acquired again.
abbrev first_got : Kernel ℕ
first_got = (acquire_grp (init_kernel 9 kernel)).1

abbrev first_handled : Kernel ℕ
first_handled = record first_got {
  grps = put_at 0 (record { all_agts = msv 0 2 ∷ []; handled = true }) first_got.grps;
}

reused-PoolRun : PoolRun (release_sent 0 first_handled) []
unfolding acquire_grp init_kernel
reused-PoolRun =
    released [] 0 [] refl
      (worked first_handled refl refl (λ a n. rw (==_ne n.0)) (acquired (inited 9 kernel)))

again : (acquire_grp (release_sent 0 first_handled)).0 ≡ 0
unfolding acquire_grp init_kernel release_sent
again = refl

acquire_grp-PoolRun_example :
    Acquired
      (release_sent 0 first_handled)
      (acquire_grp (release_sent 0 first_handled)).1
      (acquire_grp (release_sent 0 first_handled)).0
      []
acquire_grp-PoolRun_example = acquire_grp-PoolRun (release_sent 0 first_handled) [] reused-PoolRun

add_out_missive-Added_example : Added (msv 0 3) pool [] used
add_out_missive-Added_example =
    add_out_missive-Added (msv 0 3) pool [] used (2 ∷ []) used-Grouped pool-PoolOk

-- The workeru 1 has put its group 0 into the slot of the workeru 0, which has a missive for 1.
abbrev mail_sys : Sys ℕ
mail_sys = record {
  manageru = 99;
  ker = λ i.
      if i == 0
      then record kernel {
        routed_arr = λ sg j. if j == 1 then some (record { owner = 1; at = 0 }) else none;
        signals_arr = λ sg. sg == 0;
        local_work = msv 0 1 ∷ [];
      }
      else record kernel {
        routed_ack_arr = λ sg j. if j == 0 then Ack.busy else Ack.virgin;
        grps = λ a. record { all_agts = msv 1 0 ∷ []; handled = false };
      };
}

mail_sys-MailOk : MailOk mail_sys
mail_sys-MailOk = record {
  numbered = record { man = omega arith; kind = λ i l. ground arith };
  slot = λ d i g l e. record { bound = ground arith; home = ground arith; busy = ground arith };
  sgnl = λ d i g l e. ground arith;
}

abbrev state_of : Sys ℕ → Run (Sys ℕ) → Sys ℕ
state_of s (ok t) = t
state_of s (stopped c) = s

abbrev quiet_user : User ℕ
quiet_user = record {
  handle = λ u idx m. (suc u, []);
  user_func = λ u. (u, []);
  user_stop_func = λ u. (u, []);
}

mail_after : Sys ℕ
unfolding handle_missives
mail_after = state_of mail_sys (handle_missives quiet_user 5 0 mail_sys)

mail_ran : handle_missives quiet_user 5 0 mail_sys ≡ ok mail_after
unfolding handle_missives mail_after
mail_ran = refl

-- The group was taken and its missive handled; the missive for 1 is in the slot there.
mail_after-user : (mail_after.ker 0).user ≡ 1
unfolding mail_after
mail_after-user = refl

mail_after-slot : (mail_after.ker 1).routed_arr 0 0 ≡ some (record { owner = 0; at = 0 })
unfolding mail_after
mail_after-slot = refl

handle_missives-MailOk_example : MailOk mail_after
handle_missives-MailOk_example =
    handle_missives-MailOk quiet_user 0 5 mail_sys mail_after (omega arith) mail_sys-MailOk mail_ran

-- The workeru 2 sends its group for the workeru 0, beside that of the workeru 1.
abbrev out_sys : Sys ℕ
out_sys = record mail_sys {
  ker = λ i.
      if i == 2
      then record kernel {
        grps = λ a. record { all_agts = msv 2 0 ∷ []; handled = false };
        out_work = 0 ∷ [];
      }
      else mail_sys.ker i;
}

out_sys-MailOk : MailOk out_sys
out_sys-MailOk = record {
  numbered = record { man = omega arith; kind = λ i l. ground arith };
  slot = λ d i g l e. record { bound = ground arith; home = ground arith; busy = ground arith };
  sgnl = λ d i g l e. ground arith;
}

out_after : Sys ℕ
unfolding handle_out_work
out_after = state_of out_sys (handle_out_work 2 (0 ∷ []) out_sys)

out_ran : handle_out_work 2 (0 ∷ []) out_sys ≡ ok out_after
unfolding handle_out_work out_after
out_ran = refl

out_after-sent : (out_after.ker 0).routed_arr 0 2 ≡ some (record { owner = 2; at = 0 })
unfolding out_after
out_after-sent = refl

out_sys-Filled : Filled 2 (0 ∷ []) out_sys
unfolding Filled
out_sys-Filled = ((λ e. cc), tt)

handle_out_work-Kept_example :
    (t : Sys ℕ) × (handle_out_work 2 (0 ∷ []) out_sys ≡ ok t)
    × ((t.ker 0).routed_arr 0 1 ≡ some (record { owner = 1; at = 0 }))
handle_out_work-Kept_example =
    handle_out_work-Kept 2 (0 ∷ []) out_sys 0 1 (record { owner = 1; at = 0 }) (omega arith)
      out_sys-MailOk out_sys-Filled (omega arith) refl

init_kernel-MailExact_example :
    MailExact (record { manageru = 99; ker = λ i. init_kernel 9 (mail_sys.ker i) })
init_kernel-MailExact_example = init_kernel-MailExact 99 9 mail_sys.ker (omega arith)
