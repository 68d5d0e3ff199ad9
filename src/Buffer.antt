-- ===== src/Buffer.antt =====
-- The circular buffer of ksrc/pilocvario.c (`buffer_t`): the byte store of pipes and terminals.
-- A `char *` argument is the memory from that address on, a function from offsets to bytes, so
-- that a read past the caller's data has a meaning. Lengths and sizes are non-negative here.
mod Tests
pub mod Slots
pub mod Fifo
use yalnix_os.Common.{
  ℕ, zero, suc, ◌+◌, ◌-◌, ◌%◌, List, [], ◌∷◌, ltb, if◌then◌else◌, get_or, set, replicate,
}

-- `buffer_t`; a byte is any number, since bytes are only moved.
pub record Buffer : Type 0 where
  pub size : ℕ
  pub filled : ℕ
  pub head : ℕ
  pub tail : ℕ
  pub buffered : List ℕ

-- `char *` of a caller.
abbrev pub Memory : Type 0
Memory = ℕ → ℕ

-- `src + n`
abbrev pub advance : Memory → ℕ → Memory
advance src n i = src (i + n)

unfoldable pub new_buffer : ℕ → Buffer
new_buffer size = record {
  size = size;
  filled = 0;
  head = 0;
  tail = 0;
  buffered = replicate size 0;
}

-- The loop of `write_buffer`, `k` rounds from `i` on.
pub copy_in : ℕ → ℕ → ℕ → ℕ → Memory → List ℕ → List ℕ
copy_in zero i tail size src buf = buf
copy_in (suc k) i tail size src buf =
    copy_in k (i + 1) tail size src (set buf ((tail + i) % size) (src i))

-- `a < b ? a : b`
pub least : ℕ → ℕ → ℕ
least a b = if ltb a b then a else b

-- The rest of `write_buffer`, once `written` is known.
pub put_bytes : Buffer → Memory → ℕ → Buffer
put_bytes b src written = record b {
  buffered = copy_in written 0 b.tail b.size src b.buffered;
  tail = (b.tail + written) % b.size;
  filled = b.filled + written;
}

-- The buffer and the number of bytes written.
unfoldable pub write_buffer : Buffer → Memory → ℕ → Buffer × ℕ
unfolding copy_in put_bytes least
write_buffer b src len =
    let written = least (b.size - b.filled) len in (put_bytes b src written, written)

-- The loop of `read_buffer`: the bytes that it stores at `dst`.
pub copy_out : ℕ → ℕ → ℕ → ℕ → List ℕ → List ℕ
copy_out zero i head size buf = []
copy_out (suc k) i head size buf =
    get_or buf ((head + i) % size) 0 ∷ copy_out k (i + 1) head size buf

-- The rest of `read_buffer`, once `read` is known.
pub get_bytes : Buffer → ℕ → Buffer
get_bytes b read = record b { head = (b.head + read) % b.size; filled = b.filled - read }

-- The buffer, the bytes stored at `dst`, and their number.
unfoldable pub read_buffer : Buffer → ℕ → Buffer × List ℕ × ℕ
unfolding copy_out get_bytes least
read_buffer b len =
    let read = least b.filled len in
    (get_bytes b read, copy_out read 0 b.head b.size b.buffered, read)

unfoldable pub reset_buffer : Buffer → Buffer
reset_buffer b = record b { filled = 0; head = 0; tail = 0 }

-- What `destroy_buffer` leaves in the structure, before it is freed too.
unfoldable pub destroy_buffer : Buffer → Buffer
unfolding reset_buffer
destroy_buffer b = record (reset_buffer (record b { size = 0 })) { buffered = [] }
