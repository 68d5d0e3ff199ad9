-- ===== src/Load/Whole.antt =====
-- LoadProgram of ksrc/load.c, from the old program to the new one.
use yalnix_os.Common.{
  ℕ, ◌+◌, ◌-◌, ◌≤◌, ◌<◌, ◌≡◌, refl, ap, ◌∙◌, Bool, not, if◌then◌else◌, none, Bool-cases, inl, inr,
  Option, some, true, false, List, arith, update, update_self, ltb, leb, ◌||◌, ◌∷◌,
}
use yalnix_os.Common.Int.{ℤ, pos}
use yalnix_os.Frames.{frames_left}
use yalnix_os.Memory.{Machine, Pte, Pages, base_page_1, lim_page_1, destroy_usermem}
use yalnix_os.Memory.Owns.{Owns}
use yalnix_os.Memory.Destroy.{in_use, destroy_usermem_lem}
use yalnix_os.Memory.Isolation.{destroy_usermem-Spares}
use yalnix_os.Memory.Tables.Fresh.{Disjoint}
use yalnix_os.Memory.Tables.Copy.{Apart}
use yalnix_os.Kernel.{Kernel, Pcb, KernelCmd, fetch}
use yalnix_os.Sched.Queues.{chain}
use yalnix_os.Load.{
  LoadInfo, Program, Constants, load_info, load_program, build_region, protect_text,
  replace_program, text_pg1, data_pg1, data_npg, stack_npg, sp_of,
}
use yalnix_os.Load.Steps.{replace_program_lem, replaced, found, after_start, started}
use yalnix_os.Load.Region.{Loaded, build_region_lem}

-- A program that can be loaded into the process with the control block `x`.
pub record Loadable (m : Machine) (c : Constants) (prog : Program) (li : LoadInfo) (p : ℕ)
    (s : Kernel) (x : Pcb) : Type 0 where
  pub opens : prog.opens ≡ true
  pub info : prog.info ≡ some li
  pub argbuf : prog.argbuf ≡ true
  pub bytes : List ℕ
  pub has_text : prog.text ≡ some bytes
  pub initial : List ℕ
  pub has_initial : prog.initial ≡ some initial
  pub entry : m.vmem_1_base ≤ li.entry
  pub fits : stack_npg m c prog.args + data_pg1 m c li + data_npg m c li < c.max_pt_len
  pub in_order : text_pg1 m c li + li.t_npg ≤ data_pg1 m c li
  pub of_block : s.pcb p ≡ some x
  pub owned : Owns m.base_frame x.userpt.pt s.mem.free_frame
  pub behind : (j : ℕ) → lim_page_1 m - base_page_1 m ≤ j → (x.userpt.pt j).valid ≡ false
  pub room :
      li.t_npg + data_npg m c li + stack_npg m c prog.args
      ≤ frames_left s.mem.free_frame + in_use (lim_page_1 m - base_page_1 m) 0 x.userpt.pt

-- What loading it does: the process's control block becomes `pcb`.
pub record Loads (m : Machine) (c : Constants) (prog : Program) (li : LoadInfo) (p : ℕ) (s : Kernel)
    (x : Pcb) (r : Option (ℤ × Kernel)) : Type 0 where
  pub after : Kernel
  pub returns : r ≡ some (pos 0, after)
  pub pcb : Pcb
  pub of_block : after.pcb p ≡ some pcb
  pub pc : pcb.uc.pc ≡ li.entry
  pub sp : pcb.uc.sp ≡ sp_of m c prog.args
  pub loaded :
      Loaded m c li prog.args
        (destroy_usermem m x.userpt s.mem.free_frame).1
        pcb.userpt
        after.mem.free_frame
  pub others :
      (other : Pages)
      → Owns m.base_frame other s.mem.free_frame
      → Disjoint x.userpt.pt other
      → Apart m.base_frame other pcb.userpt.pt after.mem.free_frame

-- Past a test, and past a header that is there.
past :
    (b : Bool) (c d : KernelCmd ℤ) (s : Kernel) {r : Option (ℤ × Kernel)}
    → b ≡ true
    → d s ≡ r
    → (if not b then c else d) s ≡ r
past true c d s e ran = ran
past false c d s e ran = cc

with_info :
    (o : Option LoadInfo) (li : LoadInfo) (c : KernelCmd ℤ) (d : LoadInfo → KernelCmd ℤ)
    (s : Kernel) {r : Option (ℤ × Kernel)}
    → o ≡ some li
    → d li s ≡ r
    → let k : KernelCmd ℤ = elim o [ none ↦ c | some l ↦ d l ] in k s ≡ r
with_info o li c d s e ran = rw e ran

module _ (m : Machine) (c : Constants) (prog : Program) (li : LoadInfo) (p node : ℕ) (s : Kernel)
    (x : Pcb) (l : Loadable m c prog li p s x) where
  -- The state in which the old program's pages are given up.
  abbrev accepted : Kernel
  accepted = record s {
    pcb = update s.pcb p (some (record x { uc = record x.uc { sp = sp_of m c prog.args } }));
  }

  load_program-past :
      {r : Option (ℤ × Kernel)}
      → replace_program m c li prog p node accepted ≡ r
      → load_program m c prog p node s ≡ r
  unfolding load_program load_info
  load_program-past ran =
      let passes : (ltb li.entry m.vmem_1_base
            || leb c.max_pt_len (stack_npg m c prog.args + data_pg1 m c li + data_npg m c li))
          ≡ false =
        ground (arith, l.entry, l.fits) in
      past prog.opens _ _ s l.opens (
        with_info prog.info li _ _ s l.info
          (rw passes (chain _ (fetched l.of_block) (past prog.argbuf _ _ accepted l.argbuf ran))))
    where
      fetched : {o : Option Pcb} {y : Pcb} → o ≡ some y → fetch o s ≡ some (y, s)
      fetched e = rw e refl

-- For a program that opens, has a header that passes the tests of LoadProgram, text before its
-- data, and bytes that can be read, a malloc that gives the buffer for the arguments, and a process
-- that owns its pages' frames, none of them valid behind region 1, with as many free frames and valid
-- pages together as the program has pages: LoadProgram returns SUCCESS; the process's control block
-- then has the entry point, the stack pointer and the new pages, of which those of the text are for
-- reading and executing, those of data and stack for reading and writing, and no other one is valid;
-- `size` is their number and as many frames are taken, the break is the end of the data's pages and
-- `stack_low` the start of the stack's; the process owns the frames of these pages; and every table
-- that owned its frames and shared none with the old pages still owns them and shares none with the
-- new ones.
pub load_program_lem :
    (m : Machine) (c : Constants) (prog : Program) (li : LoadInfo) (p node : ℕ) (s : Kernel)
    (x : Pcb)
    → Loadable m c prog li p s x
    → Loads m c prog li p s x (load_program m c prog p node s)
load_program_lem m c prog li p node s x l =
    let x2 : Pcb = record x { uc = record x.uc { sp = sp_of m c prog.args } } in
    let s2 : Kernel = record s { pcb = update s.pcb p (some x2) } in
    let at : s2.pcb p ≡ some x2 = update_self s.pcb p (some x2) in
    let f = s.mem.free_frame in
    let (cleared, more, owned) = destroy_usermem_lem m x.userpt f l.owned in
    let room : li.t_npg + data_npg m c li + stack_npg m c prog.args
        ≤ frames_left (destroy_usermem m x.userpt f).1 =
      omega (arith, l.room) in
    let (user, ran) =
      replace_program_lem m c li prog p node l.bytes l.initial l.has_text l.has_initial s2 x2 at
        room in
    let loaded =
      build_region_lem m c li prog.args (destroy_usermem m x.userpt f).0
        (destroy_usermem m x.userpt f).1 (c.tlb_flush_1 ∷ s.mem.flushed) owned.allocator
        (λ j. elim (Bool-cases (ltb j (lim_page_1 m - base_page_1 m))) [
          | inl low ↦ cleared.off j (omega arith) (ground arith)
          | inr high ↦
              let past : lim_page_1 m - base_page_1 m ≤ j = ground arith in
              ap (λ (pte : Pte). pte.valid) (cleared.outside j (omega arith)) ∙ l.behind j past
        ])
        l.in_order l.fits room in
    let new =
      (build_region m c li prog.args (destroy_usermem m x.userpt f).0
        (destroy_usermem m x.userpt f).1).0 in
    let x3 : Pcb = record x2 { userpt = new } in
    let pt =
      (protect_text m c li.t_npg (text_pg1 m c li) new.pt (c.tlb_flush_1 ∷ s.mem.flushed)).0 in
    let now = replaced m c li prog p node l.bytes l.initial l.has_text l.has_initial s2 x2 at in
    let here = found m c li prog p node l.bytes l.initial l.has_text l.has_initial s2 x2 at in
    record {
      after = after_start m c li p node now x3 here user;
      returns = load_program-past m c prog li p node s x l ran;
      pcb = started m c li pt x3;
      of_block = update_self now.pcb p (some (started m c li pt x3));
      pc = refl;
      sp = refl;
      loaded = loaded;
      others = λ other o apart.
          loaded.others other (destroy_usermem-Spares m x.userpt other f l.owned o apart).0;
    }
