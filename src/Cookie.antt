-- ===== src/Cookie.antt =====
-- control/nvmevirt/coalesce_backend.h, the CO_COOKIE and CO_CK_ macros, and the GS_ macros of
-- control/nvmevirt/coalesce.c: the words that tie a completion to a pending slot.
pub mod Fields
mod Tests
use gpu_fpga_dma.Base.{ℕ, ◌*◌, ◌/◌, ◌%◌, ◌^◌, bit_and, bit_or}
use gpu_fpga_dma.Base.Words.{u16}

-- [39:32] shard, [31:16] generation, [15:0] slot
unfoldable pub co_cookie : ℕ → ℕ → ℕ → ℕ
co_cookie shard gen slot = bit_or (bit_or (shard * 2 ^ 32) (u16 gen * 2 ^ 16)) (u16 slot)

unfoldable pub ck_slot : ℕ → ℕ
ck_slot c = bit_and c 0xffff

unfoldable pub ck_gen : ℕ → ℕ
ck_gen c = bit_and (c / 2 ^ 16) 0xffff

unfoldable pub ck_shard : ℕ → ℕ
ck_shard c = bit_and (c / 2 ^ 32) 0xff

-- `enum co_pend_state`
abbrev pub pend_free : ℕ
pend_free = 0

abbrev pub pend_issued : ℕ
pend_issued = 1

abbrev pub pend_done : ℕ
pend_done = 2

abbrev pub pend_error : ℕ
pend_error = 3

-- A generation of 16 bits above a state of 8.
unfoldable pub gs_make : ℕ → ℕ → ℕ
gs_make gen st = bit_or (u16 gen * 2 ^ 8) (st % 2 ^ 8)

unfoldable pub gs_state : ℕ → ℕ
gs_state gs = bit_and gs 0xff

unfoldable pub gs_gen : ℕ → ℕ
gs_gen gs = bit_and (gs / 2 ^ 8) 0xffff
