-- ===== src/Load/Samples.antt =====
-- Constants of a small machine, for the tests.
use yalnix_os.Common.Int.{negsuc}
use yalnix_os.Load.{Constants}

abbrev pub constants : Constants
constants = record {
  max_pt_len = 4;
  post_argv_null_space = 0;
  initial_stack_frame_size = 8;
  word = 4;
  tlb_flush_1 = 1;
  kill = negsuc 1;
}
