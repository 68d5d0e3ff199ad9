-- ===== src/Ttys/Overlap.antt =====
-- Transmissions of a terminal of ksrc/pilocvario.c, with the interrupts that end them.
use yalnix_os.Common.{
  ℕ, ◌+◌, ◌≤◌, ◌<◌, ◌≡◌, refl, sym, ap, ◌∙◌, List, [], ◌∷◌, Bool, true, false, some, ◌==◌, ◌↔◌,
  ==_self, if◌then◌else◌, update_self, arith,
}
use yalnix_os.Kernel.{Kernel, Objects, TtyIo, Outcome}
use yalnix_os.Ttys.{try_write_tty, write_alert}
use yalnix_os.Ttys.Turns.{Turn, keeps, sends, try_write_tty-Turn, wake_head-IsQuiet}

-- How many lines the terminal `i` was handed.
unfoldable pub lines : ℕ → List (ℕ × List ℕ) → ℕ
lines i [] = 0
lines i ((j, xs) ∷ log) = (if j == i then 1 else 0) + lines i log

-- One step of the kernel, as far as the terminal `i` is concerned, which has interrupted `done` times
-- at the end of a transmission; it does so for a transmission that has begun.
pub data TtyStep (i : ℕ) (s : Kernel) (ended : ℕ) (t : Kernel) : ℕ → Type 0 where
  writes :
      (src len total : ℕ) (o : Outcome)
      → try_write_tty i src len total s ≡ some (o, t)
      → TtyStep i s ended t ended
  alerts :
      (a : Unit {0})
      → ended < lines i s.objects.sent
      → write_alert i s ≡ some (a, t)
      → TtyStep i s ended t (ended + 1)
  others :
      t.objects.tty_out i ≡ s.objects.tty_out i
      → lines i t.objects.sent ≡ lines i s.objects.sent
      → TtyStep i s ended t ended

pub data TtySteps (i : ℕ) (s : Kernel) (ended : ℕ) : Kernel → ℕ → Type 0 where
  here : TtySteps i s ended s ended
  next :
      {t u : Kernel} {k m : ℕ} → TtySteps i s ended t k → TtyStep i t k u m → TtySteps i s ended u m

-- The lines handed over are the ended ones and, while the terminal is transmitting, one more.
abbrev pub InTurn : ℕ → Kernel → ℕ → Type 0
InTurn i s ended =
    lines i s.objects.sent ≡ ended + (if (s.objects.tty_out i).transmitting then 1 else 0)

lines-sent :
    (i : ℕ) (xs : List ℕ) (log : List (ℕ × List ℕ)) → lines i ((i, xs) ∷ log) ≡ lines i log + 1
unfolding lines
lines-sent i xs log = rw (==_self i) (omega arith)

Turn-InTurn :
    (i src len ended : ℕ) (s t : Kernel) → Turn i src len s t → InTurn i s ended → InTurn i t ended
Turn-InTurn i src len ended s t (keeps same) inv =
    ap (λ (x : Objects). lines i x.sent) same
    ∙ inv
    ∙ ap (λ (x : Objects). ended + (if (x.tty_out i).transmitting then 1 else 0)) (sym same)
Turn-InTurn i src len ended s t (sends b e idle busy holds log) inv =
    let count = ap (lines i) log ∙ lines-sent i _ s.objects.sent in
    let before : lines i s.objects.sent ≡ ended = rw idle at inv ∙ (omega arith) in
    rw busy (omega arith)

write_alert-idle :
    (i : ℕ) (s : Kernel) (a : Unit {0}) (t : Kernel)
    → write_alert i s ≡ some (a, t)
    → ((t.objects.tty_out i).transmitting ≡ false) × (t.objects.sent ≡ s.objects.sent)
unfolding write_alert
write_alert-idle i s a t e =
    let same = (wake_head-IsQuiet (s.objects.tty_out i).blocked).objects _ a t e in
    (
      ap (λ (x : Objects). (x.tty_out i).transmitting) same
          ∙ ap (λ (x : TtyIo). x.transmitting) (update_self s.objects.tty_out i _),
      ap (λ (x : Objects). x.sent) same,
    )

TtyStep-InTurn :
    (i : ℕ) (s : Kernel) (ended : ℕ) (t : Kernel) (k : ℕ)
    → TtyStep i s ended t k
    → InTurn i s ended
    → InTurn i t k
TtyStep-InTurn i s ended t _ (writes src len total o run) inv =
    Turn-InTurn i src len ended s t (try_write_tty-Turn i src len total s o t run) inv
TtyStep-InTurn i s ended t _ (alerts a some_line run) inv =
    let (idle, log) = write_alert-idle i s a t run in
    rw (idle, log) (ends (s.objects.tty_out i).transmitting (lines i s.objects.sent) some_line inv)
  where
    ends : (b : Bool) (n : ℕ) → ended < n → n ≡ ended + (if b then 1 else 0) → n ≡ ended + 1 + 0
    ends true n h e = omega arith
    ends false n h e = absurd (omega arith)
TtyStep-InTurn i s ended t _ (others same log) inv =
    log ∙ inv ∙ ap (λ (x : TtyIo). ended + (if x.transmitting then 1 else 0)) (sym same)

pub TtySteps-InTurn :
    (i : ℕ) {s : Kernel} {ended : ℕ} {t : Kernel} {k : ℕ}
    → InTurn i s ended
    → TtySteps i s ended t k
    → InTurn i t k
TtySteps-InTurn i inv here = inv
TtySteps-InTurn i inv (next run step) = TtyStep-InTurn i _ _ _ _ step (TtySteps-InTurn i inv run)

-- From a state in which a terminal was handed as many lines as transmissions have ended, and one more
-- while it is transmitting, however processes then write the terminal and its interrupts come, each
-- after the start of its transmission: the lines are one more than the ended transmissions at most,
-- and as many exactly when the terminal is not transmitting.
pub one_transmission :
    (i : ℕ) {s : Kernel} {ended : ℕ} {t : Kernel} {k : ℕ}
    → InTurn i s ended
    → TtySteps i s ended t k
    → (lines i t.objects.sent ≤ k + 1)
      × ((lines i t.objects.sent ≡ k) ↔ ((t.objects.tty_out i).transmitting ≡ false))
one_transmission i {t = t} {k = k} inv run =
    bounds (t.objects.tty_out i).transmitting (lines i t.objects.sent) (TtySteps-InTurn i inv run)
  where
    bounds :
        (b : Bool) (n : ℕ) → n ≡ k + (if b then 1 else 0) → (n ≤ k + 1) × ((n ≡ k) ↔ (b ≡ false))
    bounds true n e = (omega arith, (λ z. absurd (omega arith), λ f. cc))
    bounds false n e = (omega arith, (λ z. refl, λ f. omega arith))
