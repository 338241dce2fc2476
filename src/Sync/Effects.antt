-- ===== src/Sync/Effects.antt =====
-- Core identifiers (common/misc/fixed_types.h), the codes of the replies (sync_client.h), and what
-- a handler asks of the thread manager and the network, as values in the order of the calls.
use graphite_atac.Prelude.{ℕ, ◌≡◌, arith, Bool, ◌&&◌, true, ◌==◌}

-- An identifier that is no `INVALID_CORE_ID`; that one is `none` of an `Option`.
pub record CoreId : Type 0 where
  pub tile_id : ℕ
  pub core_type : ℕ

pub same_core : CoreId → CoreId → Bool
same_core a b = a.tile_id == b.tile_id && a.core_type == b.core_type

pub same_core_refl : (a : CoreId) → same_core a a ≡ true
unfolding same_core
same_core_refl a = ground arith

pub same_core-eq : (a b : CoreId) → same_core a b ≡ true → a ≡ b
unfolding same_core
same_core-eq a b h = ground arith

abbrev pub mutex_lock_response : ℕ
mutex_lock_response = 0xDEADBEEF

abbrev pub mutex_unlock_response : ℕ
mutex_unlock_response = 0xBABECAFE

abbrev pub cond_signal_response : ℕ
cond_signal_response = 0xBEEFCAFE

abbrev pub cond_broadcast_response : ℕ
cond_broadcast_response = 0xDEADCAFE

abbrev pub barrier_wait_response : ℕ
barrier_wait_response = 0xCACACAFE

-- `handle` carries a new object's index, `timed` the struct `Reply`, `ack` a bare code.
pub data Message : Type 0 where
  handle : ℕ → Message
  timed : ℕ → ℕ → Message
  ack : ℕ → Message

pub data Effect : Type 0 where
  stall_thread : CoreId → Effect
  resume_thread : CoreId → Effect
  net_send : CoreId → Message → Effect

-- A call to the thread manager, not to the network.
abbrev pub IsQuiet : Effect → Type 0
IsQuiet (stall_thread core) = Unit {0}
IsQuiet (resume_thread core) = Unit {0}
IsQuiet (net_send core message) = ⊥
