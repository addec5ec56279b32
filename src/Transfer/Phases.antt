-- ===== src/Transfer/Phases.antt =====
-- Test 1/zad3.c, Test 1/zad3.h: where the child stands when the parent writes or waits.
use operating_systems_course.Common.{
  ℕ, zero, suc, ◌+◌, ◌≤◌, ◌<◌, ◌≡◌, refl, Bool, true, false, Option, Option-cases, [], ◌∷◌,
  if◌then◌else◌, ltb, leb, ◌==◌, length, take, drop, length-take, Bytes, arith, Bool-cases,
  List-cases, inl, inr,
}
use operating_systems_course.Transfer.Defs.{
  Parent, starting, filling, writing, ending, waiting, printed, Child, reading, measuring, ended,
  State, exit_status, segmentation_fault, parent_step, child_step,
}
use operating_systems_course.Transfer.Verdict.{length_cut}

module _ (file : Option Bytes) (block_size capacity : ℕ) where
  -- A block has between one byte and `block_size`.
  abbrev pub BlockFits : Parent → Type 0
  BlockFits (writing block rest) = (0 < length block) × (length block ≤ block_size)
  BlockFits p = Unit

  abbrev pub EndAt : Parent → Bool → Type 0
  EndAt waiting opened = opened ≡ false
  EndAt (printed v) opened = Unit
  EndAt p opened = opened ≡ true

  -- The child is behind its loop only when the parent waits for it.
  abbrev pub Phase : Child → Parent → Type 0
  Phase (reading total) (printed v) = ⊥
  Phase (reading total) p = Unit
  Phase (measuring total) waiting = Unit
  Phase (measuring total) p = ⊥
  Phase (ended status) waiting = Unit
  Phase (ended status) (printed v) = Unit
  Phase (ended status) p = ⊥

  pub record IsLive (s : State) : Type 0 where
    pub block_fits : BlockFits s.parent
    pub end_at : EndAt s.parent s.opened
    pub phase : Phase s.child s.parent

  pub taken_fits : (n : ℕ) (xs : Bytes) → length (take n xs) ≤ n
  taken_fits n xs = omega (arith, length-take n xs)

  pub drop_shrinks : (n : ℕ) (x : ℕ) (xs : Bytes) → 0 < n → length (drop n (x ∷ xs)) ≤ length xs
  drop_shrinks zero x xs h = absurd (omega (arith, h))
  drop_shrinks (suc n) x xs h = omega (arith, length_cut file block_size capacity n xs)

  -- While the parent is at p and does not wait yet, the child reads.
  Phase-moves :
      (c : Child) (p p' : Parent)
      → ((total : ℕ) → Phase (reading total) p')
      → ((status : ℕ) → ¬ Phase (ended status) p)
      → ((total : ℕ) → ¬ Phase (measuring total) p)
      → Phase c p
      → Phase c p'
  Phase-moves (reading total) p p' a b m h = a total
  Phase-moves (measuring total) p p' a b m h = absurd (m total h)
  Phase-moves (ended status) p p' a b m h = absurd (b status h)

  module _ (some_block : 0 < block_size) where
    pub parent_step-IsLive :
        (succeeds : Bool) (p : Parent) (s : State)
        → s.parent ≡ p
        → IsLive s
        → IsLive (parent_step file block_size capacity succeeds p s)
    unfolding parent_step
    parent_step-IsLive succeeds starting s e v =
        let busy : Phase s.child starting = rw e at v.phase in
        let on : s.opened ≡ true = rw e at v.end_at in
        elim (Option-cases file) [
          | inl gone ↦
              rw (gone, parent_step)
                (record {
                  block_fits = tt;
                  end_at = on;
                  phase = Phase-moves s.child starting ending (λ n. tt) (λ n h. h) (λ n h. h) busy;
                })
          | inr (bytes, there) ↦
              rw (there, parent_step)
                (record {
                  block_fits = tt;
                  end_at = on;
                  phase =
                      Phase-moves s.child starting (filling bytes) (λ n. tt) (λ n h. h) (λ n h. h)
                        busy;
                })
        ]
    parent_step-IsLive succeeds (filling rest) s e v =
        let busy : Phase s.child (filling rest) = rw e at v.phase in
        let on : s.opened ≡ true = rw e at v.end_at in
        elim (List-cases (take block_size rest)) [
          | inl none_left ↦
              rw (none_left, parent_step)
                (record {
                  block_fits = tt;
                  end_at = on;
                  phase =
                      Phase-moves s.child (filling rest) ending (λ n. tt) (λ n h. h) (λ n h. h)
                        busy;
                })
          | inr (b, bs, more) ↦
              let cut : length (b ∷ bs) ≤ block_size = rw more at (taken_fits block_size rest) in
              rw (more, parent_step)
                (record {
                  block_fits = (omega arith, cut);
                  end_at = on;
                  phase =
                      Phase-moves s.child (filling rest) (writing (b ∷ bs) (drop block_size rest))
                        (λ n. tt) (λ n h. h) (λ n h. h) busy;
                })
        ]
    parent_step-IsLive succeeds (writing block rest) s e v =
        let busy : Phase s.child (writing block rest) = rw e at v.phase in
        let on : s.opened ≡ true = rw e at v.end_at in
        elim (Bool-cases succeeds) [
          | inr failed ↦
              rw (failed, parent_step)
                (record {
                  block_fits = tt;
                  end_at = on;
                  phase =
                      Phase-moves s.child (writing block rest) ending (λ n. tt) (λ n h. h)
                        (λ n h. h) busy;
                })
          | inl good ↦ elim (Bool-cases (leb (length s.pipe + length block) capacity)) [
            | inr full ↦ rw (good, full, parent_step) v
            | inl room ↦
                rw (good, room, parent_step)
                  (record {
                    block_fits = tt;
                    end_at = on;
                    phase =
                        Phase-moves s.child (writing block rest) (filling rest) (λ n. tt) (λ n h. h)
                          (λ n h. h) busy;
                  })
          ]
        ]
    parent_step-IsLive succeeds ending s e v =
        let busy : Phase s.child ending = rw e at v.phase in
        record {
          block_fits = tt;
          end_at = refl;
          phase = Phase-moves s.child ending waiting (λ n. tt) (λ n h. h) (λ n h. h) busy;
        }
    parent_step-IsLive succeeds waiting s e v = wait_for s.child refl
      where
        wait_for :
            (c : Child)
            → s.child ≡ c
            → IsLive
                (elim c [ ended status ↦ record s { parent = printed (ltb 0 status) } | _ ↦ s ])
        wait_for (reading total) c = v
        wait_for (measuring total) c = v
        wait_for (ended status) c = record { block_fits = tt; end_at = tt; phase = rw c tt }
    parent_step-IsLive succeeds (printed w) s e v = v

    at_end_of_file :
        (p : Parent) (o : Bool) (total : ℕ)
        → EndAt p o
        → o ≡ false
        → Phase (reading total) p
        → Phase (measuring total) p
    at_end_of_file starting o total h off k = cc
    at_end_of_file (filling rest) o total h off k = cc
    at_end_of_file (writing block rest) o total h off k = cc
    at_end_of_file ending o total h off k = cc
    at_end_of_file waiting o total h off k = tt
    at_end_of_file (printed v) o total h off k = k

    at_exit : (p : Parent) (total status : ℕ) → Phase (measuring total) p → Phase (ended status) p
    at_exit starting total status k = k
    at_exit (filling rest) total status k = k
    at_exit (writing block rest) total status k = k
    at_exit ending total status k = k
    at_exit waiting total status k = tt
    at_exit (printed v) total status k = tt

    pub child_step-IsLive :
        (c : Child) (s : State)
        → s.child ≡ c
        → IsLive s
        → IsLive (child_step file block_size capacity c s)
    unfolding child_step
    child_step-IsLive (reading total) s e v =
        let positive : (block_size == 0) ≡ false = ground (arith, some_block) in
        rw (positive, child_step) (read_from s.pipe)
      where
        busy : Phase (reading total) s.parent
        busy = rw e at v.phase

        reads_on : (total' : ℕ) (p : Parent) → Phase (reading total) p → Phase (reading total') p
        reads_on total' starting k = tt
        reads_on total' (filling rest) k = tt
        reads_on total' (writing block rest) k = tt
        reads_on total' ending k = tt
        reads_on total' waiting k = tt
        reads_on total' (printed w) k = k

        at_end :
            (o : Bool)
            → s.opened ≡ o
            → IsLive (if o then s else record s { child = measuring total })
        at_end true c = v
        at_end false c = record {
          block_fits = v.block_fits;
          end_at = v.end_at;
          phase = at_end_of_file s.parent s.opened total v.end_at c busy;
        }

        read_from :
            (q : Bytes)
            → IsLive (elim q [
              | [] ↦ if s.opened then s else record s { child = measuring total }
              | b ∷ bs ↦ record s {
                pipe = drop block_size (b ∷ bs);
                child = reading (total + length (take block_size (b ∷ bs)));
              }
            ])
        read_from [] = at_end s.opened refl
        read_from (b ∷ bs) = record {
          block_fits = v.block_fits;
          end_at = v.end_at;
          phase = reads_on (total + length (take block_size (b ∷ bs))) s.parent busy;
        }
    child_step-IsLive (measuring total) s e v =
        let busy : Phase (measuring total) s.parent = rw e at v.phase in
        elim (Option-cases file) [
          | inl gone ↦
              rw (gone, child_step)
                (record {
                  block_fits = v.block_fits;
                  end_at = v.end_at;
                  phase = at_exit s.parent total segmentation_fault busy;
                })
          | inr (bytes, there) ↦
              rw (there, child_step)
                (record {
                  block_fits = v.block_fits;
                  end_at = v.end_at;
                  phase = at_exit s.parent total (exit_status (total == length bytes)) busy;
                })
        ]
    child_step-IsLive (ended status) s e v = v
