-- ===== src/Transfer/Defs.antt =====
-- Test 1/zad3.c, Test 1/zad3.h: `readwrite` in the parent, `read_pipe` in the child.
use operating_systems_course.Common.{
  ℕ, ◌+◌, Bool, true, false, Option, none, some, List, [], ◌∷◌, ◌++◌, if◌then◌else◌, ltb, leb, ◌==◌,
  length, take, drop, Bytes,
}

-- Where the parent stands: before `fopen`, before an `fread` with the rest of the file, before the
-- `write` of a block, behind the loop, in `waitpid`, behind its output, which is whether it is PASS.
pub data Parent : Type 0 where
  starting : Parent
  filling : Bytes → Parent
  writing : Bytes → Bytes → Parent
  ending waiting : Parent
  printed : Bool → Parent

-- Where the child stands: before a `read` with `bytes_total`, before `fopen`, or ended with a status
-- for `waitpid`.
pub data Child : Type 0 where
  reading : ℕ → Child
  measuring : ℕ → Child
  ended : ℕ → Child

-- What is in the pipe, and whether its write end is open in the parent.
pub record State : Type 0 where
  pub pipe : Bytes
  pub opened : Bool
  pub parent : Parent
  pub child : Child

-- Behind the `fork`.
abbrev pub start : State
start = record { pipe = []; opened = true; parent = starting; child = reading 0 }

-- `check_pipe` on what is in the pipe: whether it prints PASS, and what is in the pipe then.
abbrev pub check_pipe : Bytes → Bool × Bytes
check_pipe pipe = elim (pipe ++ 97 ∷ []) [ [] ↦ (false, []) | a ∷ rest ↦ (true, rest) ]

-- The wait status of `exit(ok)`, and of a process that SIGSEGV has ended.
abbrev pub exit_status : Bool → ℕ
exit_status ok = if ok then 256 else 0

abbrev pub segmentation_fault : ℕ
segmentation_fault = 11

-- Who goes on: the parent, with whether a `write` succeeds, should it be called, or the child.
pub data Turn : Type 0 where
  of_parent : Bool → Turn
  of_child : Turn

-- On `unix.txt`, if it exists, the size of a block, and what the pipe holds at most.
module _ (file : Option Bytes) (block_size capacity : ℕ) where
  -- `readwrite` and the parent's part of `check_write`. A `write` of a block waits for the room that
  -- the block needs.
  unfoldable pub parent_step : Bool → Parent → State → State
  parent_step succeeds starting s = elim file [
    | none ↦ record s { parent = ending }
    | some bytes ↦ record s { parent = filling bytes }
  ]
  parent_step succeeds (filling rest) s = elim (take block_size rest) [
    | [] ↦ record s { parent = ending }
    | b ∷ bs ↦ record s { parent = writing (b ∷ bs) (drop block_size rest) }
  ]
  parent_step succeeds (writing block rest) s =
      if succeeds
      then (if leb (length s.pipe + length block) capacity
          then record s { pipe = s.pipe ++ block; parent = filling rest }
          else s)
      else record s { parent = ending }
  parent_step succeeds ending s = record s { opened = false; parent = waiting }
  parent_step succeeds waiting s = elim s.child [
    | ended status ↦ record s { parent = printed (ltb 0 status) }
    | _ ↦ s
  ]
  parent_step succeeds (printed v) s = s

  -- `read_pipe` and the child's `exit`. A `read` of no bytes gives 0 at once, one from an empty pipe
  -- waits while the write end is open. `fseek` on the NULL of `fopen` ends the child.
  unfoldable pub child_step : Child → State → State
  child_step (reading total) s =
      if block_size == 0 then record s { child = measuring total } else elim s.pipe [
        | [] ↦ if s.opened then s else record s { child = measuring total }
        | b ∷ bs ↦ record s {
          pipe = drop block_size (b ∷ bs);
          child = reading (total + length (take block_size (b ∷ bs)));
        }
      ]
  child_step (measuring total) s = elim file [
    | none ↦ record s { child = ended segmentation_fault }
    | some bytes ↦ record s { child = ended (exit_status (total == length bytes)) }
  ]
  child_step (ended status) s = s

  unfoldable pub step : Turn → State → State
  step (of_parent succeeds) s = parent_step succeeds s.parent s
  step of_child s = child_step s.child s

  unfoldable pub run : List Turn → State → State
  run [] s = s
  run (t ∷ turns) s = run turns (step t s)
