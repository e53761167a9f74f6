-- ===== src/Processor/Debug/Resume.antt =====
-- Halting at a breakpoint of src/Processors/MainStorageProcessor.cpp, and going on from it.
use sim.Base.{ℕ, ◌≡◌, refl, Option, none, some, arith, Option-cases}
use sim.Processor.Debug.{
  Debug, Text, Description, MemberBreakpoint, resumes_at, halt_or_pass, ordinary_breakpoint,
  member_breakpoint, first_breakpoint, at_active_breakpoint, in_member, find,
}

-- The debugger's state when the operator goes on after a halt at an address.
abbrev pub resumed : Debug → ℕ → Debug
resumed d iar = record d { resume_past = some iar }

abbrev pub unmarked : Debug → Debug
unmarked d = record d { resume_past = none }

-- After a halt: going on passes, and the next time halts.
abbrev PassesOnce : (Debug → Debug × Option Description) → Debug → Debug → ℕ → Description → Type 0
PassesOnce look d d' iar why =
    (d' ≡ d)
    × (look (resumed d iar) ≡ (unmarked d, none))
    × (look (unmarked d) ≡ (unmarked d, some why))

halt_lem :
    (d d' : Debug) (iar : ℕ) (text why : Description)
    → halt_or_pass d iar text ≡ (d', some why)
    → PassesOnce (λ e. halt_or_pass e iar text) d d' iar why
unfolding halt_or_pass resumes_at
halt_lem d d' iar text why h = (ground arith, ground arith, ground arith)

ordinary_lem :
    (d d' : Debug) (iar : ℕ) (resolved : Option Text) (why : Description)
    → ordinary_breakpoint d iar resolved ≡ (d', some why)
    → PassesOnce (λ e. ordinary_breakpoint e iar resolved) d d' iar why
unfolding ordinary_breakpoint halt_or_pass resumes_at
ordinary_lem d d' iar resolved why h =
    let texts = Option-cases (find iar d.breakpoints) in
    let members = Option-cases resolved in (ground arith, ground arith, ground arith)

first_lem :
    (found : Option MemberBreakpoint) (d d' : Debug) (iar : ℕ) (resolved : Option Text)
    (why : Description)
    → first_breakpoint found d iar resolved ≡ (d', some why)
    → PassesOnce (λ e. first_breakpoint found e iar resolved) d d' iar why
unfolding first_breakpoint
first_lem none d d' iar resolved why h = ordinary_lem d d' iar resolved why h
first_lem (some bp) d d' iar resolved why h = halt_lem d d' iar (in_member bp) why h

-- The breakpoints are looked up in what going on leaves alone.
member_breakpoint-resume :
    (d : Debug) (mark : Option ℕ) (iar : ℕ) (name : Option Text)
    → member_breakpoint (record d { resume_past = mark }) iar name ≡ member_breakpoint d iar name
unfolding member_breakpoint
member_breakpoint-resume d mark iar none = refl
member_breakpoint-resume d mark iar (some active) = refl

look_lem :
    (d d' : Debug) (iar : ℕ) (name resolved : Option Text) (why : Description)
    → at_active_breakpoint d iar name resolved ≡ (d', some why)
    → PassesOnce (λ e. at_active_breakpoint e iar name resolved) d d' iar why
unfolding at_active_breakpoint
look_lem d d' iar name resolved why h =
    rw (member_breakpoint-resume d (some iar) iar name, member_breakpoint-resume d none iar name)
      (first_lem (member_breakpoint d iar name) d d' iar resolved why h)

-- A breakpoint that halts the processor is passed once when execution goes on from there, so that
-- the instruction runs, and halts it again the next time. The same text is shown.
at_active_breakpoint-resume :
    (d d' : Debug) (iar : ℕ) (name resolved : Option Text) (why : Description)
    → at_active_breakpoint d iar name resolved ≡ (d', some why)
    → (at_active_breakpoint (record d' { resume_past = some iar }) iar name resolved
        ≡ (record d' { resume_past = none }, none))
      × (at_active_breakpoint (record d' { resume_past = none }) iar name resolved
          ≡ (record d' { resume_past = none }, some why))
at_active_breakpoint-resume d d' iar name resolved why h =
    let (same, pass, halt) = look_lem d d' iar name resolved why h in rw same (pass, halt)
