-- ===== src/Memory/Samples.antt =====
-- A small machine with pages of 16 bytes, for the tests.
use yalnix_os.Common.{List, [], ◌∷◌, ℕ, ◌+◌, ◌*◌, ◌/◌, ◌%◌, false}
use yalnix_os.Common.Int.{pos}
use yalnix_os.Memory.{Machine, Pages, to_word}

-- The four bytes of a word, the lowest first.
abbrev little_end : ℕ → List ℕ
little_end n = n % 256 ∷ n / 256 % 256 ∷ n / 65536 % 256 ∷ n / 16777216 % 256 ∷ []

abbrev pub small : Machine
small = record {
  base_frame = 2;
  page_size = 16;
  up_to_page = λ a. (a + 15) / 16 * 16;
  down_to_page = λ a. a / 16 * 16;
  vmem_1_base = 64;
  vmem_1_limit = 128;
  kernel_stack_base = 48;
  kernel_stack_limit = 64;
  kernel_data_end = 20;
  vmem_0_base = 0;
  prot_read = 1;
  prot_write = 2;
  prot_exec = 4;
  prot_all = 7;
  num_terminals = 4;
  terminal_max_line = 8;
  pipe_buffer_len = 8;
  int_bytes = λ i. little_end (to_word i);
}

abbrev pub no_pages : Pages
no_pages i = record { valid = false; pfn = pos 0; prot = 0 }
