-- ===== src/Cookie/Tests.antt =====
-- Cookies and generation words at work.
use gpu_fpga_dma.Base.{◌≡◌, arith}
use gpu_fpga_dma.Base.Words.{u16}
use gpu_fpga_dma.Cookie.{co_cookie, ck_slot, ck_gen, ck_shard}
use gpu_fpga_dma.Cookie.Fields.{cookie_fields}

cookie_fields_example :
    (ck_shard (co_cookie 3 70000 9) ≡ 3)
    × (ck_gen (co_cookie 3 70000 9) ≡ u16 70000)
    × (ck_slot (co_cookie 3 70000 9) ≡ 9)
cookie_fields_example = cookie_fields 3 70000 9 (omega arith) (omega arith)
