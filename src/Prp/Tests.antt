-- ===== src/Prp/Tests.antt =====
-- `setup_prps` at inputs.
use fioplugin.Prelude.{ℕ, ◌+◌, ◌≡◌, refl, inl, inr, some, [], ◌∷◌, arith}
use fioplugin.Machine.{Event}
use fioplugin.Machine.Memory.{load}
use fioplugin.Nvme.{NvmeData, no_mem}
use fioplugin.Prp.{page_offset, page_align_up, page_count, write_list, setup_prps}
use fioplugin.Prp.Cover.{Fits, device_address, setup_prps-covers, setup_prps-aligned}
use fioplugin.Prp.Frame.{setup_prps-keeps, setup_prps-spills}

-- A queue of eight slots whose list area is at 0x100000, mapped at 0x7000000.
abbrev lane : NvmeData
lane = record {
  io_sq_head = 0;
  io_sq_tail = 0;
  ic_cq_head = 0;
  io_cq_pahse = 1;
  io_sq_phys_addr = 0x200000;
  io_sq_virt_addr = 0x8000000;
  io_sq_mem = no_mem;
  io_cq_phys_addr = 0x300000;
  io_cq_virt_addr = 0x9000000;
  io_cq_mem = no_mem;
  io_prp_list_phys_addr = 0x100000;
  io_prp_list_virt_addr = 0x7000000;
  io_prp_list_mem = no_mem;
  io_u_data_phys_addr = 0;
  io_u_data_virt_addr = 0;
  io_u_data_mem = no_mem;
  io_sq_depth = 8;
  io_cq_depth = 8;
  io_qid = 1;
  io_cmd_id = 0;
  io_sq_tail_db = 0x1008;
  io_cq_head_db = 0x100c;
  cmd_io_u = λ _. 0;
  events = λ _. 0;
  nr_events = 0;
}

abbrev virt_of : ℕ → ℕ
virt_of a = a + 0x6f00000

lists_three_pages :
    (setup_prps lane 2 0x40_0100 0x2800 []).log
    ≡ Event.store 8 0x7002008 0x40_2000 ∷ Event.store 8 0x7002000 0x40_1000 ∷ []
unfolding setup_prps page_count page_offset page_align_up write_list
lists_three_pages = refl

three_pages-Fits : Fits lane virt_of 2 0x40_0100 0x2800
three_pages-Fits = record {
  some_bytes = omega arith;
  no_wrap = omega arith;
  slot_fits = omega arith;
  mapped = refl;
}

aligned-Fits : Fits lane virt_of 2 0x40_0000 0x2000
aligned-Fits = record {
  some_bytes = omega arith;
  no_wrap = omega arith;
  slot_fits = omega arith;
  mapped = refl;
}

large-Fits : Fits lane virt_of 2 0x40_0000 0x20_2000
large-Fits = record {
  some_bytes = omega arith;
  no_wrap = omega arith;
  slot_fits = omega arith;
  mapped = refl;
}

setup_prps-covers_example :
    device_address virt_of (setup_prps lane 2 0x40_0100 0x2800 []) 0x2800 0x2000 ≡ some 0x40_2100
setup_prps-covers_example =
    setup_prps-covers [] three_pages-Fits 0x2000 (omega arith) (inl (omega arith)) (omega arith)

setup_prps-aligned_example :
    device_address virt_of (setup_prps lane 2 0x40_0000 0x2000 []) 0x2000 0x1000 ≡ some 0x40_0000
setup_prps-aligned_example =
    setup_prps-aligned [] aligned-Fits 0x1000 (omega arith) refl (omega arith) (omega arith)

setup_prps-keeps_example :
    load 8 (setup_prps lane 2 0x40_0100 0x2800 []).log 0x7003000 ≡ load 8 [] 0x7003000
setup_prps-keeps_example =
    setup_prps-keeps [] three_pages-Fits 8 0x7003000 (omega arith) (inr (omega arith))

setup_prps-spills_example :
    load 8 (setup_prps lane 2 0x40_0000 0x20_2000 []).log 0x7003000 ≡ 0x60_0000
setup_prps-spills_example = setup_prps-spills [] large-Fits (omega arith)
