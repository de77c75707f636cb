-- ===== src/Middle/Samples.antt =====
-- Grouping and placement of requests at concrete inputs.
use gpu_fpga_dma.Base.{
  ℕ, ◌+◌, ◌*◌, ◌/◌, ◌%◌, ◌^◌, ◌<◌, ◌≡◌, refl, true, List, [], ◌∷◌, arith, Array,
}
use gpu_fpga_dma.Shard.{Ent}
use gpu_fpga_dma.Middle.{Params}
use gpu_fpga_dma.Middle.Issue.{off_in_page, map_backend}
use gpu_fpga_dma.Middle.Bucket.{tag_of}
use gpu_fpga_dma.Middle.Group.{radix_by_page}
use gpu_fpga_dma.Middle.Keeps.Join.{wants}
use gpu_fpga_dma.Middle.Geometry.{row_in_page, map_backend_lem}
use gpu_fpga_dma.Middle.Radix.Order.{Ascending, page_index, radix_by_page_lem}
use gpu_fpga_dma.Middle.Tests.{params}

abbrev ent : ℕ → ℕ → Ent
ent tag id = record { line_tag = tag; req_id = id; dst_phys = 0; node_id = id }

abbrev three : List Ent
three = ent 8192 1 ∷ ent 0 2 ∷ ent 8192 3 ∷ []

abbrev scratch : Array Ent
scratch i = ent i i

radix_by_page_lem_example :
    Ascending (page_index 12) (radix_by_page 12 scratch scratch three)
    × (wants 3 (radix_by_page 12 scratch scratch three) ≡ wants 3 three)
radix_by_page_lem_example = radix_by_page_lem 12 scratch scratch three 3 (omega arith)

row_in_page_example :
    (tag_of params 13 % 4096 ≡ 0)
    × (off_in_page params 13 < 4096)
    × (tag_of params 13 + off_in_page params 13 ≡ 13 * 512)
row_in_page_example = row_in_page params 12 refl (omega arith) 13 (omega arith)

-- Three devices.
abbrev striped : Params
striped = record params { backend_is_real = true; n_dev = 3 }

map_backend_lem_example :
    ((map_backend striped 28672).0 < 3)
    × ((map_backend striped 28672).1 % 2 ^ 12 ≡ 0)
    × (((map_backend striped 28672).1 / 2 ^ 12 * 3 + (map_backend striped 28672).0) * 2 ^ 12
        ≡ 28672)
map_backend_lem_example =
    map_backend_lem striped 12 refl (omega arith) 28672 (omega arith) refl refl (omega arith)
      (omega arith)
