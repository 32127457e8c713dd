-- ===== src/Kernel/State.antt =====
-- The objects of cell.hh and the memory that the kernels share. A pointer is the number of the
-- workeru whose memory it names, with an address there; the grips of a kernel are lists, first to
-- last, as Binder/Ring shows them.
use messaging_cells.Common.{ℕ, ◌≡◌, refl, Bool, Option, List, ◌∷◌, ◌==◌, ==_self, if◌then◌else◌}
pub use messaging_cells.Common.{put, put_at}

pub record CellPt : Type 0 where
  pub owner : ℕ
  pub at : ℕ

-- The flags `flg` are for debug builds only.
pub record Missive : Type 0 where
  pub dst : CellPt
  pub src : CellPt
  pub tok : ℕ

pub record GrpPt : Type 0 where
  pub owner : ℕ
  pub at : ℕ

pub record AgentGrp : Type 0 where
  pub all_agts : List Missive
  pub handled : Bool

-- `mck_ack_t`
pub data Ack : Type 0 where
  ready busy virgin : Ack

-- A run that `mck_abort` ends, that reads through a null pointer or past an empty ring, or that had
-- too little fuel, gives no state.
pub data Cause : Type 0 where
  aborted faulted out_of_fuel : Cause

pub data Run {ℓ} (A : Type ℓ) : Type ℓ where
  ok : A → Run A
  stopped : Cause → Run A

infixl 5 ◌>>=◌
abbrev pub ◌>>=◌ {ℓ κ} : {A : Type ℓ} {B : Type κ} → Run A → (A → Run B) → Run B
ok a >>= f = f a
stopped c >>= f = stopped c

pub ok-bind {ℓ κ} :
    {A : Type ℓ} {B : Type κ} (m : Run A) (f : A → Run B) {b : B}
    → (m >>= f) ≡ ok b
    → (a : A) × (m ≡ ok a) × (f a ≡ ok b)
ok-bind (ok a) f h = (a, refl, h)
ok-bind (stopped c) f h = cc

pub ok_inj {ℓ} : {A : Type ℓ} {a b : A} → ok a ≡ ok b → a ≡ b
ok_inj h = cc

-- Class `kernel`, with the parts of `mck_glb_sys_st` and of the load map that it reads. `U` is what
-- the user's cells keep. The words of `signals_arr`, `pw0_routed_arr` … are indexed by the signal;
-- `did_work` is the list of the bits set since it was cleared, so the word is 0 when the list is
-- empty.
pub record Kernel (U : Type 0) : Type 0 where
  pub is_manageru_kernel : Bool
  pub signals_arr : ℕ → Bool
  pub routed_arr : ℕ → ℕ → Option GrpPt
  pub routed_ack_arr : ℕ → ℕ → Ack
  pub routed_from_manageru : Option GrpPt
  pub routed_ack_from_manageru : Ack
  pub has_from_manageru_work : Bool
  pub has_to_manageru_work : Bool
  pub to_workerus_work : List ℕ
  pub to_manageru_work : List Missive
  pub in_work : List GrpPt
  pub local_work : List Missive
  pub out_work : List ℕ
  pub sent_work : List ℕ
  -- the groups by address, those of `cls_available_agent_grp`, and the next address of the heap
  pub grps : ℕ → AgentGrp
  pub available_grps : List ℕ
  pub next_grp : ℕ
  pub first_cell : ℕ
  pub did_work : List ℕ
  pub exit_when_idle : Bool
  pub manageru_running : Bool
  pub stop_key : ℕ
  pub sent_stop_to_parent : Bool
  pub rcvd_stop_key : ℕ
  pub num_childs_stopping : ℕ
  -- `none` while `all_cell_handlers` is null, else `tot_cell_subclasses`
  pub cell_handlers : Option ℕ
  pub handler_idx : ℕ → ℕ
  pub inited : Bool
  pub current_module_addr : ℕ
  pub current_sub_module_id : ℕ
  -- the load map: the parent (`none` for koid 0) and the children
  pub parent : Option ℕ
  pub childs : List ℕ
  pub user : U

-- All kernels, by workeru number. `manageru` is the number under which the manageru's kernel stands.
pub record Sys (U : Type 0) : Type 0 where
  pub manageru : ℕ
  pub ker : ℕ → Kernel U

abbrev pub at_ker : {U : Type 0} → ℕ → (Kernel U → Kernel U) → Sys U → Sys U
at_ker i f s = record s { ker = λ j. if j == i then f (s.ker i) else s.ker j }

pub ker-at_ker_self :
    {U : Type 0} (i : ℕ) (f : Kernel U → Kernel U) (s : Sys U) → (at_ker i f s).ker i ≡ f (s.ker i)
ker-at_ker_self i f s = rw (==_self i)

-- `did_work |= mc_bitN`
abbrev pub work : {U : Type 0} → ℕ → Kernel U → Kernel U
work n k = record k { did_work = n ∷ k.did_work }

-- What the user's program does: `handle` is the array of its handlers, `user_func` is called once a
-- round and `user_stop_func` when the kernel stops; a null function makes no call.
pub data Call : Type 0 where
  send : Missive → Call
  send_to_manageru : Missive → Call
  stop_sys : ℕ → Call
  set_idle_exit : Call

pub record User (U : Type 0) : Type 0 where
  pub handle : U → ℕ → Missive → U × List Call
  pub user_func : U → U × List Call
  pub user_stop_func : U → U × List Call
