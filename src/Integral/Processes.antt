-- ===== src/Integral/Processes.antt =====
-- Lab 6/zad1.c: one round of the loop over k, with k child processes and a pipe to each.
use operating_systems_course.Common.{
  ℕ, zero, suc, ◌+◌, Bool, Option, none, some, List, [], ◌∷◌, ◌++◌, at_index, ltb, if◌then◌else◌,
}
use operating_systems_course.Integral.Double.{Double, number}
use operating_systems_course.Integral.Riemann.{calculate_integral}
use operating_systems_course.Integral.Threads.{ThreadData}

-- Where a child stands: not forked, before the write of its result, before `exit`, exited.
pub data Child : Type 0 where
  unborn computing leaving exited : Child

-- Where the parent stands: before `pipe` number i, before the fork of child i, behind m calls of
-- `wait`, before the read of pipe i with the total so far, behind `exit` on an error, behind the
-- output. `none` is a total to which a double was added that no read has set.
pub data Parent {ℓ} (W : Type ℓ) : Type ℓ where
  piping : ℕ → Parent W
  forking : ℕ → Parent W
  waiting : ℕ → Parent W
  reading : ℕ → Option W → Parent W
  failed : Parent W
  printed : Option W → Parent W

-- What was written to each pipe and not yet read.
pub record State {ℓ} (W : Type ℓ) : Type ℓ where
  pub pipes : ℕ → List W
  pub children : ℕ → Child
  pub parent : Parent W

abbrev pub start {ℓ} : {W : Type ℓ} → State W
start = record { pipes = λ i. []; children = λ i. unborn; parent = piping 0 }

-- How many of the first n children have exited, so that a `wait` for each of them returns.
abbrev pub exited_count : ℕ → (ℕ → Child) → ℕ
exited_count zero children = 0
exited_count (suc n) children = exited_count n children + elim (children n) [ exited ↦ 1 | _ ↦ 0 ]

-- Who goes on: the parent, with whether its `pipe` or `fork` succeeds, or child i, for so many rounds
-- of its loop.
pub data Turn : Type 0 where
  of_parent : Bool → Turn
  of_child : ℕ → ℕ → Turn

module _ {ℓ} {W : Type ℓ} ⦃d : Double W⦄ where
  abbrev pub share_of : ℕ → W → ℕ → ThreadData W
  share_of k dx i = record {
    a = d.div (number i) (number k);
    b = d.div (number (i + 1)) (number k);
    dx = dx;
  }

  abbrev pub add_to : Option W → W → Option W
  add_to none r = none
  add_to (some total) r = some (d.add total r)

  -- The read of pipe i, whose write ends are all closed by then: an empty pipe gives nothing.
  unfoldable pub read_pipe : ℕ → Option W → State W → State W
  read_pipe i total s = elim (s.pipes i) [
    | [] ↦ record s { parent = reading (i + 1) none }
    | r ∷ rest ↦ record s {
      pipes = at_index s.pipes i rest;
      parent = reading (i + 1) (add_to total r);
    }
  ]

  module _ (k : ℕ) (dx : W) where
    unfoldable pub parent_step : Bool → Parent W → State W → State W
    parent_step succeeds (piping i) s =
        if ltb i k
        then record s { parent = if succeeds then piping (i + 1) else failed }
        else record s { parent = forking 0 }
    parent_step succeeds (forking i) s =
        if ltb i k
        then (if succeeds
            then record s { children = at_index s.children i computing; parent = forking (i + 1) }
            else record s { parent = failed })
        else record s { parent = waiting 0 }
    parent_step succeeds (waiting m) s =
        if ltb m k
        then (if ltb m (exited_count k s.children)
            then record s { parent = waiting (m + 1) }
            else s)
        else record s { parent = reading 0 (some (number 0)) }
    parent_step succeeds (reading i total) s =
        if ltb i k then read_pipe i total s else record s { parent = printed total }
    parent_step succeeds failed s = s
    parent_step succeeds (printed total) s = s

    unfoldable pub child_step : ℕ → ℕ → Child → State W → State W
    child_step fuel i unborn s = s
    child_step fuel i computing s =
        let t = share_of k dx i in
        elim (calculate_integral fuel t.a t.b dx) [
          | none ↦ s
          | some r ↦ record s {
            pipes = at_index s.pipes i (s.pipes i ++ r ∷ []);
            children = at_index s.children i leaving;
          }
        ]
    child_step fuel i leaving s = record s { children = at_index s.children i exited }
    child_step fuel i exited s = s

    unfoldable pub step : Turn → State W → State W
    step (of_parent succeeds) s = parent_step succeeds s.parent s
    step (of_child i fuel) s = child_step fuel i (s.children i) s

    unfoldable pub run : List Turn → State W → State W
    run [] s = s
    run (t ∷ turns) s = run turns (step t s)
