-- ===== src/Buffer/Tests.antt =====
-- The buffer of ksrc/pilocvario.c going round its end, and the theorems at that buffer.
use yalnix_os.Common.{◌+◌, ◌-◌, min, ◌≡◌, refl, [], ◌∷◌, ◌++◌, arith, take, drop}
use yalnix_os.Buffer.{Buffer, Memory, new_buffer, write_buffer, read_buffer, reset_buffer}
use yalnix_os.Buffer.Slots.{bytes}
use yalnix_os.Buffer.Fifo.{
  IsValid, contents, new_buffer-IsValid, write_buffer_lem, read_buffer_lem, reset_buffer_lem,
}

-- 8 and 9, the second in the first slot.
abbrev wrapped : Buffer
wrapped = record { size = 4; filled = 2; head = 3; tail = 1; buffered = 9 ∷ 7 ∷ 6 ∷ 8 ∷ [] }

wrapped-IsValid : IsValid wrapped
wrapped-IsValid = record {
  nonempty = omega arith;
  storage = refl;
  head_in = omega arith;
  fits = omega arith;
  tail_at = refl;
}

abbrev letters : Memory
letters i = 65 + i

-- Three bytes are offered and two fit.
write_wrapped :
    (write_buffer wrapped letters 3).0
    ≡ record { size = 4; filled = 4; head = 3; tail = 3; buffered = 9 ∷ 65 ∷ 66 ∷ 8 ∷ [] }
unfolding write_buffer
write_wrapped = refl

write_buffer_lem_example :
    let (b', n) = write_buffer wrapped letters 3 in
    (n ≡ min (wrapped.size - wrapped.filled) 3)
    × (contents b' ≡ contents wrapped ++ bytes letters 0 n)
    × IsValid b'
write_buffer_lem_example = write_buffer_lem wrapped-IsValid letters 3

read_buffer_lem_example :
    let (b', out, n) = read_buffer wrapped 1 in
    (n ≡ min wrapped.filled 1)
    × (out ≡ take n (contents wrapped))
    × (contents b' ≡ drop n (contents wrapped))
    × IsValid b'
read_buffer_lem_example = read_buffer_lem wrapped-IsValid 1

reset_buffer_lem_example : IsValid (reset_buffer wrapped) × (contents (reset_buffer wrapped) ≡ [])
reset_buffer_lem_example = reset_buffer_lem wrapped-IsValid

new_buffer-IsValid_example : IsValid (new_buffer 256) × (contents (new_buffer 256) ≡ [])
new_buffer-IsValid_example = new_buffer-IsValid 256 (omega arith)
