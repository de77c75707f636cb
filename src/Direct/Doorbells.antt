-- ===== src/Direct/Doorbells.antt =====
-- Where the doorbells of control/nvmevirt/backend_direct.c lie in the mapped part of BAR0.
use gpu_fpga_dma.Base.{
  ℕ, ◌+◌, ◌*◌, ◌^◌, ◌≤◌, ◌<◌, ◌≡◌, Bool, true, false, arith, if◌then◌else◌, refl,
}
use gpu_fpga_dma.Base.Words.{u16}
use gpu_fpga_dma.Base.Bits.{one-le-pow}
use gpu_fpga_dma.Ring.Queue.{pow-le}
use gpu_fpga_dma.Direct.Setup.{Dctrl, db_ptr}
use native.Mathlib.Nat.{mul-le-mul, eq_of_mul-eq-mul_right}

-- `DIRECT_BAR_MAP`, `CO_BACKEND_MAX_SHARDS`
abbrev pub direct_bar_map : ℕ
direct_bar_map = 0x4000

abbrev pub backend_max_shards : ℕ
backend_max_shards = 32

-- The index of a doorbell: two for each queue.
abbrev pub bell : ℕ → Bool → ℕ
bell qid cq = 2 * qid + (if cq then 1 else 0)

bell_small : (sh : ℕ) (cq : Bool) → sh < backend_max_shards → bell (u16 (sh + 1)) cq ≤ 65
bell_small sh true h = omega arith
bell_small sh false h = omega arith

bell_stride : (n d : ℕ) → n ≤ 65 → d ≤ 5 → n * (4 * 2 ^ d) ≤ 65 * 128
bell_stride n d hn hd = mul-le-mul {m₂ = 128} hn (omega (arith, pow-le d 5 hd))

bell_apart :
    (sh sh' : ℕ) (cq cq' : Bool)
    → sh < backend_max_shards
    → sh' < backend_max_shards
    → bell (u16 (sh + 1)) cq ≡ bell (u16 (sh' + 1)) cq'
    → (sh ≡ sh') × (cq ≡ cq')
bell_apart sh sh' true true h h' e = (omega arith, refl)
bell_apart sh sh' true false h h' e = absurd (omega arith)
bell_apart sh sh' false true h h' e = absurd (omega arith)
bell_apart sh sh' false false h h' e = (omega arith, refl)

-- Each shard's doorbells lie in the mapped registers if the controller's stride exponent is at most 5.
pub db_ptr_mapped :
    (c : Dctrl) (sh : ℕ) (cq : Bool)
    → sh < backend_max_shards
    → c.dstrd ≤ 5
    → db_ptr c (u16 (sh + 1)) cq + 4 ≤ c.bar + direct_bar_map
unfolding db_ptr
db_ptr_mapped c sh cq h d =
    omega (arith, bell_stride (bell (u16 (sh + 1)) cq) c.dstrd (bell_small sh cq h) d)

-- Two doorbells of such a controller are the same only if shard and kind are.
pub db_ptr_apart :
    (c : Dctrl) (sh sh' : ℕ) (cq cq' : Bool)
    → sh < backend_max_shards
    → sh' < backend_max_shards
    → c.dstrd ≤ 5
    → db_ptr c (u16 (sh + 1)) cq ≡ db_ptr c (u16 (sh' + 1)) cq'
    → (sh ≡ sh') × (cq ≡ cq')
unfolding db_ptr
db_ptr_apart c sh sh' cq cq' h h' d e =
    let one = bell_stride (bell (u16 (sh + 1)) cq) c.dstrd (bell_small sh cq h) d in
    let two = bell_stride (bell (u16 (sh' + 1)) cq') c.dstrd (bell_small sh' cq' h') d in
    let same =
      eq_of_mul-eq-mul_right (4 * 2 ^ c.dstrd) (omega (arith, one-le-pow c.dstrd))
        (bell (u16 (sh + 1)) cq) (bell (u16 (sh' + 1)) cq') (omega (arith, e, one, two)) in
    bell_apart sh sh' cq cq' h h' same
