-- ===== src/Load/Region.antt =====
-- The pages that LoadProgram of ksrc/load.c maps, and their protections.
use yalnix_os.Common.{ℕ, ◌+◌, ◌-◌, ◌*◌, refl, ◌≤◌, ◌<◌, ◌≡◌, sym, ap, ◌∙◌, false, arith, List}
use Prim.Native.Nat.{bit_or}
use mathlib.Core.Path.{subst}
use yalnix_os.Frames.{FreeFrame, frames_left}
use yalnix_os.Frames.Inv
use yalnix_os.Memory.{Machine, Pte, Pages, UserPt, base_page_1, lim_page_1, read_write}
use yalnix_os.Memory.Owns.{Owns, Owns-same}
use yalnix_os.Memory.Tables.Copy.{Apart, Apart-same, IsNew-Apart}
use yalnix_os.Memory.Tables.Fresh.{IsNew-empty}
use yalnix_os.Load.Maps.{
  In, Out, Has, map_up_lem, map_down_lem, protect_text_lem, protect_text-keeps,
}
use yalnix_os.Load.{
  LoadInfo, Constants, text_pg1, data_pg1, data_npg, stack_npg, build_region, protect_text,
}

-- What region 1 is for a new program: `u` its pages and marks, `g` the frames that are left.
pub record Loaded (m : Machine) (c : Constants) (li : LoadInfo) (args : List (List ℕ))
    (f : FreeFrame) (u : UserPt) (g : FreeFrame) : Type 0 where
  pub text :
      (j : ℕ)
      → In (text_pg1 m c li) (text_pg1 m c li + li.t_npg) j
      → Has (bit_or m.prot_read m.prot_exec) (u.pt j)
  pub initial :
      (j : ℕ)
      → In (data_pg1 m c li) (data_pg1 m c li + data_npg m c li) j
      → Has (read_write m) (u.pt j)
  pub stack :
      (j : ℕ) → In (c.max_pt_len - stack_npg m c args) c.max_pt_len j → Has (read_write m) (u.pt j)
  pub elsewhere :
      (j : ℕ)
      → Out (text_pg1 m c li) (text_pg1 m c li + li.t_npg) j
      → Out (data_pg1 m c li) (data_pg1 m c li + data_npg m c li) j
      → Out (c.max_pt_len - stack_npg m c args) c.max_pt_len j
      → (u.pt j).valid ≡ false
  pub size : u.size ≡ li.t_npg + data_npg m c li + stack_npg m c args
  pub brk : u.brk ≡ (data_pg1 m c li + data_npg m c li + base_page_1 m) * m.page_size
  pub low : u.stack_low ≡ (lim_page_1 m - stack_npg m c args) * m.page_size
  pub frames : frames_left g + u.size ≡ frames_left f
  pub owned : Owns m.base_frame u.pt g
  pub others : (other : Pages) → Owns m.base_frame other f → Apart m.base_frame other u.pt g

-- For a table without a valid page, a program whose text lies before its data, whose data and stack fit
-- in region 1, as LoadProgram tests it, and as many free frames as it has pages: once LoadProgram has
-- mapped and protected its pages, those of the text are for reading and executing, those of data and
-- stack for reading and writing, and no other one is valid; `size` is their number, as many frames
-- are taken, and the break and the stack's low end are the pages' bounds; the process owns its frames, and every table that owned its frames before still does and shares none.
pub build_region_lem :
    (m : Machine) (c : Constants) (li : LoadInfo) (args : List (List ℕ)) (u : UserPt)
    (f : FreeFrame) (log : List ℕ)
    → Inv.IsValid m.base_frame f
    → ((j : ℕ) → (u.pt j).valid ≡ false)
    → text_pg1 m c li + li.t_npg ≤ data_pg1 m c li
    → stack_npg m c args + data_pg1 m c li + data_npg m c li < c.max_pt_len
    → li.t_npg + data_npg m c li + stack_npg m c args ≤ frames_left f
    → let (u', g) = build_region m c li args u f in
      Loaded m c li args f
        (record u' { pt = (protect_text m c li.t_npg (text_pg1 m c li) u'.pt log).0 })
        g
unfolding build_region
build_region_lem m c li args u f log valid empty before fits room =
    let t = text_pg1 m c li in
    let d = data_pg1 m c li in
    let k = stack_npg m c args in
    let (text, fewer1, n1) =
      map_up_lem m f c li.t_npg t u.pt f (IsNew-empty valid empty) (omega arith) in
    let (initial, fewer2, n2) = map_up_lem m f c (data_npg m c li) d _ _ n1 (omega arith) in
    let (stack, fewer3, n3) =
      map_down_lem m f c k (c.max_pt_len - 1) _ _ n2 (omega arith) (omega arith) in
    let (on, off) = protect_text_lem m f c li.t_npg t _ log in
    let keeps = protect_text-keeps m f c li.t_npg t _ log in
    record {
      text = λ j a.
          let kept = stack.outside j (omega arith) ∙ initial.outside j (omega arith) in
          (
            ap (λ (x : Pte). x.valid) (on j a)
                ∙ ap (λ (x : Pte). x.valid) kept
                ∙ (text.inside j a).0,
            ap (λ (x : Pte). x.prot) (on j a),
          );
      initial = λ j a.
          subst (Has (read_write m)) (sym (off j (omega arith) ∙ stack.outside j (omega arith)))
            (initial.inside j a);
      stack = λ j a.
          subst (Has (read_write m)) (sym (off j (omega arith)))
            (stack.inside j (omega arith, omega arith));
      elsewhere = λ j a b e.
          ap (λ (x : Pte). x.valid)
            (off j a ∙ stack.outside j (omega arith) ∙ initial.outside j b ∙ text.outside j a)
          ∙ empty j;
      size = refl;
      brk = refl;
      low = refl;
      frames = omega arith;
      owned = Owns-same (λ j. (keeps j).0) (λ j. (keeps j).1) n3.owned;
      others = λ other o. Apart-same (λ j. (keeps j).0) (λ j. (keeps j).1) (IsNew-Apart o n3);
    }
