-- ===== src/DirectoryCntlr/Messages.antt =====
-- `ShmemMsg` and `ShmemReq` (shmem_msg.h, shmem_req.h, shmem_req.cc), and what a controller asks of
-- the network.
use graphite_atac.Prelude.{
  ℕ, Bool, Option, none, some, List, ltb, if◌then◌else◌, ℤ, Result, ok, fail, log_error,
}

pub data MessageType : Type 0 where
  ex_req sh_req inv_req flush_req wb_req : MessageType
  ex_rep sh_rep upgrade_rep inv_rep flush_rep wb_rep : MessageType
  nullify_req : MessageType

-- The components that it goes between follow from the type; the data has the length of a line.
pub record ShmemMsg : Type 0 where
  pub msg_type : MessageType
  pub requester : ℕ
  pub address : ℕ
  pub data_buf : Option (List ℕ)
  pub modeled : Bool

pub record ShmemReq : Type 0 where
  pub shmem_msg : ShmemMsg
  pub time : ℕ

unfoldable pub new_request : ShmemMsg → ℕ → Result ShmemReq
new_request msg time = elim msg.data_buf [
  | none ↦ ok (record { shmem_msg = msg; time = time })
  | some bytes ↦ fail log_error
]

unfoldable pub update_time : ShmemReq → ℕ → ShmemReq
update_time req time = record req { time = if ltb req.time time then time else req.time }

-- A packet to a tile or to all tiles, at a time.
pub data Effect : Type 0 where
  send_msg : ℕ → ℤ → ShmemMsg → Effect
  broadcast_msg : ℕ → ShmemMsg → Effect
