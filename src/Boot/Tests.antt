-- ===== src/Boot/Tests.antt =====
-- The small machine with one page of text, two of data and one for the kernel stack.
use yalnix_os.Common.{◌≡◌, ◌-◌, [], ◌∷◌, arith}
use yalnix_os.Memory.{Machine, Mem}
use yalnix_os.Memory.Samples.{no_pages, small}
use yalnix_os.Memory.Tables.{base_page_0}
use yalnix_os.Boot.{Image, vm_setup}
use yalnix_os.Boot.Identity.{boot_pte, vm_setup_identity}

abbrev image : Image
image = record { kernel_data_start = 16; kernel_orig_brk = 32; vmem_0_limit = 64; do_idle = 4 }

abbrev powered : Mem
powered = record {
  free_frame = record { size = 8; avail_pfn = 0; filled = 0; bit_vector = 0 ∷ 0 ∷ [] };
  kernel_pt = no_pages;
  kernel_brk = 32;
  flushed = [];
}

-- Frames are numbered from 0, as pages are.
abbrev from_0 : Machine
from_0 = record small { base_frame = 0 }

vm_setup_identity_example :
    (vm_setup from_0 image powered).kernel_pt (2 - base_page_0 from_0)
    ≡ boot_pte from_0 image 32 2 (no_pages (2 - base_page_0 from_0))
vm_setup_identity_example =
    vm_setup_identity from_0 image powered (omega arith) 2 (omega arith) (omega arith)
