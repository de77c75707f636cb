-- ===== src/Cookie/Fields.antt =====
-- The fields of a cookie and of a generation word come back as they were put in.
use gpu_fpga_dma.Base.{ℕ, ◌+◌, ◌*◌, ◌/◌, ◌%◌, ◌^◌, ◌<◌, bit_and, bit_or, ◌≡◌, ap, arith}
use gpu_fpga_dma.Base.Bits.{bit_and_mask, bit_or_fields}
use gpu_fpga_dma.Base.Words.{u16}
use gpu_fpga_dma.Cookie.{co_cookie, ck_slot, ck_gen, ck_shard, gs_make, gs_state, gs_gen}

-- A cookie as a sum of its fields.
co_cookie-sum :
    (shard gen slot : ℕ) → co_cookie shard gen slot ≡ (shard * 2 ^ 16 + u16 gen) * 2 ^ 16 + u16 slot
unfolding co_cookie
co_cookie-sum shard gen slot = ground (
  arith,
  bit_or_fields 32 shard (u16 gen * 2 ^ 16),
  bit_or_fields 16 (shard * 2 ^ 16 + u16 gen) (u16 slot),
  ap (λ x. bit_or x (u16 slot)) (bit_or_fields 32 shard (u16 gen * 2 ^ 16) (omega arith)),
  ap (λ x. bit_or x (u16 slot)) (regroup),
)
  where
    regroup : shard * 2 ^ 32 + u16 gen * 2 ^ 16 ≡ (shard * 2 ^ 16 + u16 gen) * 2 ^ 16
    regroup = omega arith

-- For a shard below 256 and a slot below 2^16, CO_CK_SHARD, CO_CK_GEN and CO_CK_SLOT of a cookie are
-- the shard, the low 16 bits of the generation, and the slot.
pub cookie_fields :
    (shard gen slot : ℕ)
    → shard < 256
    → slot < 2 ^ 16
    → (ck_shard (co_cookie shard gen slot) ≡ shard)
      × (ck_gen (co_cookie shard gen slot) ≡ u16 gen)
      × (ck_slot (co_cookie shard gen slot) ≡ slot)
unfolding ck_shard ck_gen ck_slot
cookie_fields shard gen slot hs hl =
    let c = co_cookie shard gen slot in
    (
      omega (arith, co_cookie-sum shard gen slot, bit_and_mask 8 (c / 2 ^ 32)),
      omega (arith, co_cookie-sum shard gen slot, bit_and_mask 16 (c / 2 ^ 16)),
      omega (arith, co_cookie-sum shard gen slot, bit_and_mask 16 c),
    )

gs_make-sum : (gen st : ℕ) → gs_make gen st ≡ u16 gen * 2 ^ 8 + st % 2 ^ 8
unfolding gs_make
gs_make-sum gen st = bit_or_fields 8 (u16 gen) (st % 2 ^ 8) (omega arith)

-- GS_STATE and GS_GEN of a generation word are the state, below 256, and the low 16 bits of the
-- generation.
pub gs_fields :
    (gen st : ℕ) → st < 256 → (gs_state (gs_make gen st) ≡ st) × (gs_gen (gs_make gen st) ≡ u16 gen)
unfolding gs_state gs_gen
gs_fields gen st h =
    let g = gs_make gen st in
    (
      omega (arith, gs_make-sum gen st, bit_and_mask 8 g),
      omega (arith, gs_make-sum gen st, bit_and_mask 16 (g / 2 ^ 8)),
    )

-- A word is equal to GS_MAKE of its own fields, if it is below 2^24.
pub gs_make-fields : (g : ℕ) → g < 2 ^ 24 → gs_make (gs_gen g) (gs_state g) ≡ g
unfolding gs_state gs_gen
gs_make-fields g h = omega (
  arith,
  gs_make-sum (bit_and (g / 2 ^ 8) 0xffff) (bit_and g 0xff),
  bit_and_mask 8 g,
  bit_and_mask 16 (g / 2 ^ 8),
)

pub gs_make-lt : (gen st : ℕ) → gs_make gen st < 2 ^ 24
gs_make-lt gen st = omega (arith, gs_make-sum gen st)
