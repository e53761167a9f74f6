-- ===== src/Processor/Debug.antt =====
-- The operator's breakpoints and patches in src/Processors/MainStorageProcessor.cpp. A text is the
-- list of its bytes, a `std::map` an association list with one entry for each key.
pub mod Resume
use sim.Base.{
  ℕ, zero, suc, ◌+◌, ◌%◌, ◌^◌, bit_and, Bool, true, false, not, ◌&&◌, ◌||◌, Option, none, some,
  List, [], ◌∷◌, ◌++◌, ltb, leb, ◌==◌, if◌then◌else◌, length, set,
}
use sim.Machine.State.{Machine, write_byte, write_half}
use sim.Machine.Registers.{Registers}

abbrev pub Text : Type 0
Text = List ℕ

-- `std::tolower` in the C locale.
unfoldable pub to_lower : ℕ → ℕ
to_lower c = if leb b'A' c && leb c b'Z' then c + 32 else c

unfoldable pub equals_ignore_case : Text → Text → Bool
unfolding to_lower
equals_ignore_case [] [] = true
equals_ignore_case (a ∷ s) (b ∷ t) = to_lower a == to_lower b && equals_ignore_case s t
equals_ignore_case _ _ = false

-- Is `needle` at the front of the text?
unfoldable pub matches_here : Text → Text → Bool
unfolding to_lower
matches_here s [] = true
matches_here [] (b ∷ t) = false
matches_here (a ∷ s) (b ∷ t) = to_lower a == to_lower b && matches_here s t

unfoldable pub contains_ignore_case : Text → Text → Bool
unfolding matches_here
contains_ignore_case [] needle = matches_here [] needle
contains_ignore_case (a ∷ s) needle = matches_here (a ∷ s) needle || contains_ignore_case s needle

pub record MemberBreakpoint : Type 0 where
  pub address : ℕ
  pub offset : ℕ
  pub member : Text
  pub description : Text

-- `a` and `v` are the bit patterns of two `int`s.
pub record Patch : Type 0 where
  pub kind : ℕ
  pub a : ℕ
  pub v : ℕ

-- What is shown at a halt: an entry's own text, or a member with its offset and text.
pub data Description : Type 0 where
  plain : Text → Description
  in_member : MemberBreakpoint → Description

pub record Debug : Type 0 where
  pub breakpoints : List (ℕ × Text)
  pub member_breakpoints : List (ℕ × List MemberBreakpoint)
  pub resume_past : Option ℕ
  pub last_description : Description
  pub patches : List (ℕ × List Patch)
  pub break_member_filter : Text
  -- A patch has written past the end of the work registers: C++ leaves open what follows.
  pub overrun : Bool

module _ {A : Type 0} where
  unfoldable pub find : ℕ → List (ℕ × A) → Option A
  find k [] = none
  find k ((j, a) ∷ m) = if j == k then some a else find k m

  unfoldable pub put : ℕ → A → List (ℕ × A) → List (ℕ × A)
  put k a [] = (k, a) ∷ []
  put k a ((j, b) ∷ m) = if j == k then (k, a) ∷ m else (j, b) ∷ put k a m

  unfoldable pub remove : ℕ → List (ℕ × A) → List (ℕ × A)
  remove k [] = []
  remove k ((j, b) ∷ m) = if j == k then m else (j, b) ∷ remove k m

  unfoldable pub is_some : Option A → Bool
  is_some none = false
  is_some (some a) = true

-- `haveResumePastBreak_ && resumePastBreak_ == address`.
unfoldable pub resumes_at : Debug → ℕ → Bool
resumes_at d address = elim d.resume_past [ none ↦ false | some a ↦ a == address ]

unfoldable pub forget_resume : Debug → ℕ → Debug
unfolding resumes_at
forget_resume d address = if resumes_at d address then record d { resume_past = none } else d

unfoldable pub set_breakpoint : Debug → ℕ → Text → Debug
unfolding put forget_resume
set_breakpoint d address text =
    forget_resume (record d { breakpoints = put address text d.breakpoints }) address

unfoldable pub clear_breakpoint : Debug → ℕ → Bool × Debug
unfolding find remove is_some forget_resume
clear_breakpoint d address = (
  is_some (find address d.breakpoints),
  record (forget_resume d address) { breakpoints = remove address d.breakpoints },
)

-- The entry of the same member is replaced, else the new one goes to the end.
unfoldable pub put_member : MemberBreakpoint → List MemberBreakpoint → List MemberBreakpoint
unfolding equals_ignore_case
put_member bp [] = bp ∷ []
put_member bp (x ∷ xs) =
    if equals_ignore_case x.member bp.member then bp ∷ xs else x ∷ put_member bp xs

unfoldable pub or_empty : Option (List MemberBreakpoint) → List MemberBreakpoint
or_empty none = []
or_empty (some xs) = xs

unfoldable pub set_member_breakpoint : Debug → MemberBreakpoint → Debug
unfolding find put put_member or_empty forget_resume
set_member_breakpoint d bp =
    let list = or_empty (find bp.address d.member_breakpoints) in
    forget_resume
      (record d { member_breakpoints = put bp.address (put_member bp list) d.member_breakpoints })
      bp.address

unfoldable pub drop_member : Text → List MemberBreakpoint → List MemberBreakpoint
unfolding equals_ignore_case
drop_member member [] = []
drop_member member (x ∷ xs) =
    let rest = drop_member member xs in
    if equals_ignore_case x.member member then rest else x ∷ rest

unfoldable pub is_empty : List MemberBreakpoint → Bool
is_empty [] = true
is_empty (x ∷ xs) = false

unfoldable pub clear_member_breakpoint : Debug → ℕ → Text → Bool × Debug
unfolding find put remove drop_member is_empty forget_resume
clear_member_breakpoint d address member = elim (find address d.member_breakpoints) [
  | none ↦ (false, d)
  | some list ↦
      let kept = drop_member member list in
      let removed = not (length kept == length list) in
      let entries =
        if is_empty kept
        then remove address d.member_breakpoints
        else put address kept d.member_breakpoints in
      let d' = record d { member_breakpoints = entries } in
      (removed, if removed then forget_resume d' address else d')
]

unfoldable pub clear_all_breakpoints : Debug → Debug
clear_all_breakpoints d = record d { breakpoints = []; member_breakpoints = []; resume_past = none }

unfoldable pub apply_patch : Debug × Machine → Patch → Debug × Machine
apply_patch (d, m) p =
    let r = m.msp in
    let i = bit_and p.a 0xf in
    if p.kind == 0
    then (d, write_byte m p.a (p.v % 2 ^ 8))
    else if p.kind == 1
    then (d, write_half m p.a (p.v % 2 ^ 16))
    else if p.kind == 2
    then if ltb i (length r.wr)
      then (d, record m { msp = record r { wr = set r.wr i (p.v % 2 ^ 16) } })
      else (record d { overrun = true }, m)
    else if p.kind == 3
    then (d, record m { msp = record r { xr1 = p.v % 2 ^ 16 } })
    else if p.kind == 4
    then (d, record m { msp = record r { xr2 = p.v % 2 ^ 16 } })
    else (d, m)

unfoldable pub apply_all : Debug × Machine → List Patch → Debug × Machine
unfolding apply_patch
apply_all s [] = s
apply_all s (p ∷ ps) = apply_all (apply_patch s p) ps

unfoldable pub apply_patches_at : Debug → Machine → ℕ → Debug × Machine
unfolding find apply_all
apply_patches_at d m iar = elim (find iar d.patches) [
  | none ↦ (d, m)
  | some ps ↦ apply_all (d, m) ps
]

-- The first breakpoint of the active member, which must have a name.
unfoldable pub find_active : Text → List MemberBreakpoint → Option MemberBreakpoint
unfolding equals_ignore_case
find_active active [] = none
find_active active (x ∷ xs) =
    if not (equals_ignore_case x.member active) || length x.member == 0
    then find_active active xs
    else some x

-- Halt with a description, or go on. A halt that execution resumes from is passed once.
unfoldable pub halt_or_pass : Debug → ℕ → Description → Debug × Option Description
unfolding resumes_at
halt_or_pass d iar description =
    if resumes_at d iar then (record d { resume_past = none }, none) else (d, some description)

unfoldable pub ordinary_breakpoint : Debug → ℕ → Option Text → Debug × Option Description
unfolding find contains_ignore_case halt_or_pass
ordinary_breakpoint d iar resolved = elim (find iar d.breakpoints) [
  | none ↦ (d, none)
  | some text ↦ elim resolved [
    | none ↦ halt_or_pass d iar (plain text)
    | some member ↦
        if not (length d.break_member_filter == 0)
          && not (contains_ignore_case member d.break_member_filter)
        then (d, none)
        else halt_or_pass d iar (plain text)
  ]
]

unfoldable pub member_breakpoint : Debug → ℕ → Option Text → Option MemberBreakpoint
unfolding find find_active
member_breakpoint d iar none = none
member_breakpoint d iar (some active) = elim (find iar d.member_breakpoints) [
  | none ↦ none
  | some xs ↦ find_active active xs
]

-- The active member's breakpoint comes before an ordinary one.
unfoldable pub first_breakpoint :
    Option MemberBreakpoint → Debug → ℕ → Option Text → Debug × Option Description
unfolding ordinary_breakpoint halt_or_pass
first_breakpoint none d iar resolved = ordinary_breakpoint d iar resolved
first_breakpoint (some bp) d iar resolved = halt_or_pass d iar (in_member bp)

-- `atActiveBreakpoint`. `name` and `resolved` are what the two member resolvers answer, if set.
unfoldable pub at_active_breakpoint :
    Debug → ℕ → (name : Option Text) (resolved : Option Text) → Debug × Option Description
unfolding first_breakpoint member_breakpoint
at_active_breakpoint d iar name resolved =
    first_breakpoint (member_breakpoint d iar name) d iar resolved
