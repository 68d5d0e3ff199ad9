-- ===== src/Ttys/Turns.antt =====
-- Writers of a terminal of ksrc/pilocvario.c take turns: the hardware is handed one line at a time.
use yalnix_os.Common.{
  ℕ, ◌≡◌, refl, ap, ◌∙◌, ◌∷◌, Bool, true, false, some, ltb, if◌then◌else◌, update_self, take,
}
use yalnix_os.Common.Int.{pos}
use yalnix_os.Heap.{Ptr}
use yalnix_os.Buffer.{Buffer, write_buffer, reset_buffer}
use yalnix_os.Sched.{block, h_block}
use yalnix_os.Sched.Quiet.{block-IsQuiet, h_block-IsQuiet, unblock_head-IsQuiet}
use yalnix_os.LinkedList.{is_empty}
use yalnix_os.Kernel.{
  Kernel, Objects, TtyIo, Outcome, in_write_tty, returned, suspended, KernelCmd, done, ◌>>◌, go_on,
}
use yalnix_os.Kernel.Runs.{
  IsQuiet, go_on_inv, of_run, on_heap-IsQuiet, bind-IsQuiet, if-IsQuiet, done-IsQuiet,
}
use yalnix_os.Pipes.Effect.{own_bytes}
use yalnix_os.Ttys.{try_write_tty, send_line, wake_head, set_tty_out}

-- What a run can do to the terminal `i`: nothing, or, with the hardware idle, hand it the bytes that
-- fit of the process's next ones, and mark the terminal as transmitting.
pub data Turn (i : ℕ) (src len : ℕ) (s t : Kernel) : Type 0 where
  keeps : t.objects ≡ s.objects → Turn i src len s t
  sends :
      (b : Buffer × ℕ)
      → b ≡ write_buffer (reset_buffer (s.objects.tty_out i).buffer) (own_bytes s src) len
      → (s.objects.tty_out i).transmitting ≡ false
      → (t.objects.tty_out i).transmitting ≡ true
      → (t.objects.tty_out i).buffer ≡ b.0
      → t.objects.sent ≡ (i, take b.1 (b.0).buffered) ∷ s.objects.sent
      → Turn i src len s t

pub wake_head-IsQuiet : (l : Ptr) → IsQuiet (wake_head l)
unfolding wake_head
wake_head-IsQuiet l =
    bind-IsQuiet _ _ (on_heap-IsQuiet (is_empty l))
      (λ empty. if-IsQuiet empty _ _ (done-IsQuiet tt) (unblock_head-IsQuiet l))

-- A run of a command that leaves the objects alone, and then returns, leaves them alone.
quiet_then :
    {A : Type 0} (c : KernelCmd (Unit {0})) (r o : A) (s t : Kernel)
    → IsQuiet c
    → go_on (c s) (λ _. done r) ≡ some (o, t)
    → t.objects ≡ s.objects
quiet_then c r o s t quiet e =
    let (a, u, ran, rest) = go_on_inv (c s) (λ _. done r) o t e in
    of_run (λ _ v. v.objects ≡ s.objects) r o u t rest (quiet.objects s a u ran)

-- A run of write_tty's loop until it returns or blocks changes no terminal, pipe, lock or condition
-- variable; or the terminal was not transmitting, and then the bytes that fit of the process's next
-- ones are in its buffer, were handed to the hardware, and it is transmitting.
pub try_write_tty-Turn :
    (i src len total : ℕ) (s : Kernel) (o : Outcome) (t : Kernel)
    → try_write_tty i src len total s ≡ some (o, t)
    → Turn i src len s t
unfolding try_write_tty send_line
try_write_tty-Turn i src len total s o t e =
    split (ltb total len) (s.objects.tty_out i).transmitting refl e
  where
    out : TtyIo
    out = s.objects.tty_out i

    b : Buffer × ℕ
    b = write_buffer (reset_buffer out.buffer) (own_bytes s src) len

    u : Kernel
    u =
        let v : Kernel = set_tty_out s i (record out { buffer = b.0; transmitting = true }) in
        record v {
          objects = record v.objects { sent = (i, take b.1 (b.0).buffered) ∷ s.objects.sent };
        }

    split :
        (c d : Bool)
        → out.transmitting ≡ d
        → (if c
              then (if d
                  then (do block out.blocked; done (suspended (in_write_tty i src len total)))
                  else send_line i src len total)
              else (do wake_head out.blocked; done (returned (pos total))))
            s
          ≡ some (o, t)
        → Turn i src len s t
    split true true ed r =
        keeps (quiet_then (block out.blocked) _ o s t (block-IsQuiet out.blocked) r)
    split true false ed r =
        let same = quiet_then (h_block out.blocked) _ o u t (h_block-IsQuiet out.blocked) r in
        let at : (t.objects.tty_out i) ≡ record out { buffer = b.0; transmitting = true } =
          ap (λ (x : Objects). x.tty_out i) same ∙ update_self s.objects.tty_out i _ in
        sends b refl ed (ap (λ (x : TtyIo). x.transmitting) at) (ap (λ (x : TtyIo). x.buffer) at)
          (ap (λ (x : Objects). x.sent) same)
    split false d ed r =
        keeps (quiet_then (wake_head out.blocked) _ o s t (wake_head-IsQuiet out.blocked) r)
