-- ===== src/QueuePair/Delete.antt =====
-- What a successful `delete_io_queue_pair` leaves.
use fioplugin.Prelude.{◌≡◌, true}
use fioplugin.Machine.{Log, Platform}
use fioplugin.Nvme.{NvmeData, State}
use fioplugin.Call.Meets.{Meets}
use fioplugin.Dma.{free_dma, is_no_mem}

-- The release of a thread's four buffers, after what was logged before.
abbrev pub released : NvmeData → Log → Log
released n log =
    let (_, log) = free_dma n.io_sq_mem log in
    let (_, log) = free_dma n.io_cq_mem log in
    let (_, log) = free_dma n.io_prp_list_mem log in
    let (_, log) = free_dma n.io_u_data_mem log in log

-- No buffer, no address, no ring and no doorbell is left, every index is 0, the four buffers of the data
-- `n` were released last, and the thread keeps its queue's identifier and its requests.
pub record IsDeleted (n : NvmeData) (s : State) : Type 0 where
  pub sq_mem : is_no_mem s.io.io_sq_mem ≡ true
  pub cq_mem : is_no_mem s.io.io_cq_mem ≡ true
  pub prp_list_mem : is_no_mem s.io.io_prp_list_mem ≡ true
  pub data_mem : is_no_mem s.io.io_u_data_mem ≡ true
  pub virt :
      (s.io.io_sq_virt_addr ≡ 0)
      × (s.io.io_cq_virt_addr ≡ 0)
      × (s.io.io_prp_list_virt_addr ≡ 0)
      × (s.io.io_u_data_virt_addr ≡ 0)
  pub phys :
      (s.io.io_sq_phys_addr ≡ 0)
      × (s.io.io_cq_phys_addr ≡ 0)
      × (s.io.io_prp_list_phys_addr ≡ 0)
      × (s.io.io_u_data_phys_addr ≡ 0)
  pub depths : (s.io.io_sq_depth ≡ 0) × (s.io.io_cq_depth ≡ 0)
  pub doorbells : (s.io.io_sq_tail_db ≡ 0) × (s.io.io_cq_head_db ≡ 0)
  pub indices :
      (s.io.io_sq_head ≡ 0) × (s.io.io_sq_tail ≡ 0) × (s.io.ic_cq_head ≡ 0) × (s.io.io_cq_pahse ≡ 0)
  pub same_qid : s.io.io_qid ≡ n.io_qid
  pub same_requests : s.io.cmd_io_u ≡ n.cmd_io_u
  pub before : Log
  pub releases : s.log ≡ released n before

module _ (p : Platform) (n : NvmeData) where
  abbrev KeepsData : NvmeData → Type 0
  KeepsData m = m ≡ n
