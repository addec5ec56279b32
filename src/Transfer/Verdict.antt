-- ===== src/Transfer/Verdict.antt =====
-- Test 1/zad3.c, Test 1/zad3.h: what has been counted.
use operating_systems_course.Common.{
  ℕ, zero, suc, ◌+◌, ◌<◌, ◌≡◌, refl, sym, ap, ◌∙◌, Bool, true, false, Option, Option-cases, none,
  some, List, [], ◌∷◌, ◌++◌, if◌then◌else◌, ltb, leb, ◌==◌, length, length-append, take, drop,
  take-append-drop, Bytes, arith, Bool-cases, List-cases, inl, inr,
}
use operating_systems_course.Transfer.Defs.{
  Parent, starting, filling, writing, ending, waiting, printed, Child, reading, measuring, ended,
  State, Turn, of_parent, of_child, parent_step, child_step, step, run,
}

-- No `write` fails.
abbrev pub AllSucceed : List Turn → Type 0
AllSucceed [] = Unit
AllSucceed (of_parent succeeds ∷ turns) = (succeeds ≡ true) × AllSucceed turns
AllSucceed (of_child ∷ turns) = AllSucceed turns

-- The write end is open until `ending`; the output is PASS.
abbrev pub OpenAt : Parent → Bool → Type 0
OpenAt waiting opened = opened ≡ false
OpenAt (printed v) opened = v ≡ true
OpenAt starting opened = opened ≡ true
OpenAt (filling rest) opened = opened ≡ true
OpenAt (writing block rest) opened = opened ≡ true
OpenAt ending opened = opened ≡ true

module _ (file : Option Bytes) (block_size capacity : ℕ) where
  abbrev pub size : ℕ
  size = elim file [ none ↦ 0 | some bytes ↦ length bytes ]

  -- What the parent has not written yet.
  abbrev pub left : Parent → ℕ
  left starting = size
  left (filling rest) = length rest
  left (writing block rest) = length block + length rest
  left p = 0

  -- The child ends with a status that is not 0.
  abbrev pub Counted : Child → ℕ → ℕ → Type 0
  Counted (reading total) piped rest = total + piped + rest ≡ size
  Counted (measuring total) piped rest = total ≡ size
  Counted (ended status) piped rest = 0 < status

  pub record IsSound (s : State) : Type 0 where
    pub counted : Counted s.child (length s.pipe) (left s.parent)
    pub verdict : OpenAt s.parent s.opened

  Counted-moves :
      (c : Child) (piped rest piped' rest' : ℕ)
      → piped + rest ≡ piped' + rest'
      → Counted c piped rest
      → Counted c piped' rest'
  Counted-moves (reading total) piped rest piped' rest' e h = omega (arith, e, h)
  Counted-moves (measuring total) piped rest piped' rest' e h = h
  Counted-moves (ended status) piped rest piped' rest' e h = h

  nothing_left : (p : Parent) (o : Bool) → OpenAt p o → o ≡ false → left p ≡ 0
  nothing_left starting o h off = cc
  nothing_left (filling rest) o h off = cc
  nothing_left (writing block rest) o h off = cc
  nothing_left ending o h off = refl
  nothing_left waiting o h off = refl
  nothing_left (printed v) o h off = refl

  pub all_taken : (n : ℕ) (xs : Bytes) → 0 < n → take n xs ≡ [] → length xs ≡ 0
  all_taken zero xs h e = absurd (omega (arith, h))
  all_taken (suc n) [] h e = refl
  all_taken (suc n) (x ∷ xs) h e = cc

  pub length_cut : (n : ℕ) (xs : Bytes) → length (take n xs) + length (drop n xs) ≡ length xs
  length_cut n xs =
      sym (length-append (take n xs) (drop n xs)) ∙ ap (λ l. length l) (take-append-drop n xs)

  module _ (some_block : 0 < block_size) where
    parent_step-IsSound :
        (p : Parent) (s : State)
        → s.parent ≡ p
        → IsSound s
        → IsSound (parent_step file block_size capacity true p s)
    unfolding parent_step
    parent_step-IsSound starting s e v =
        let old : Counted s.child (length s.pipe) size = rw e at v.counted in
        let on : s.opened ≡ true = rw e at v.verdict in
        elim (Option-cases file) [
          | inl gone ↦ rw (gone, parent_step) (record { counted = rw gone at old; verdict = on })
          | inr (bytes, there) ↦
              rw (there, parent_step) (record { counted = rw there at old; verdict = on })
        ]
    parent_step-IsSound (filling rest) s e v =
        let old : Counted s.child (length s.pipe) (length rest) = rw e at v.counted in
        let on : s.opened ≡ true = rw e at v.verdict in
        elim (List-cases (take block_size rest)) [
          | inl none_left ↦
              rw (none_left, parent_step)
                (record {
                  counted = rw (all_taken block_size rest some_block none_left) at old;
                  verdict = on;
                })
          | inr (b, bs, more) ↦
              let cut = length_cut block_size rest in
              rw (more, parent_step)
                (record {
                  counted =
                      Counted-moves s.child (length s.pipe) (length rest) (length s.pipe)
                        (length (b ∷ bs) + length (drop block_size rest))
                        (omega (arith, (rw more at cut))) old;
                  verdict = on;
                })
        ]
    parent_step-IsSound (writing block rest) s e v =
        let old : Counted s.child (length s.pipe) (length block + length rest) =
          rw e at v.counted in
        let on : s.opened ≡ true = rw e at v.verdict in
        elim (Bool-cases (leb (length s.pipe + length block) capacity)) [
          | inr full ↦ rw (full, parent_step) v
          | inl room ↦
              rw (room, parent_step)
                (record {
                  counted =
                      Counted-moves s.child (length s.pipe) (length block + length rest)
                        (length (s.pipe ++ block)) (length rest)
                        (omega (arith, length-append s.pipe block)) old;
                  verdict = on;
                })
        ]
    parent_step-IsSound ending s e v = record { counted = rw e at v.counted; verdict = refl }
    parent_step-IsSound waiting s e v = wait_for s.child refl
      where
        wait_for :
            (c : Child)
            → s.child ≡ c
            → IsSound
                (elim c [ ended status ↦ record s { parent = printed (ltb 0 status) } | _ ↦ s ])
        wait_for (reading total) c = v
        wait_for (measuring total) c = v
        wait_for (ended status) c =
            let up : 0 < status = rw c at v.counted in
            record { counted = rw c up; verdict = ground (arith, up) }
    parent_step-IsSound (printed w) s e v = v

    child_step-IsSound :
        (c : Child) (s : State)
        → s.child ≡ c
        → IsSound s
        → IsSound (child_step file block_size capacity c s)
    unfolding child_step
    child_step-IsSound (reading total) s e v =
        let positive : (block_size == 0) ≡ false = ground (arith, some_block) in
        rw (positive, child_step) (read_from s.pipe refl)
      where
        old : total + length s.pipe + left s.parent ≡ size
        old = rw e at v.counted

        at_end :
            (o : Bool)
            → s.opened ≡ o
            → s.pipe ≡ []
            → IsSound (if o then s else record s { child = measuring total })
        at_end true c empty = v
        at_end false c empty =
            let rest = nothing_left s.parent s.opened v.verdict c in
            let piped : length s.pipe ≡ 0 = ap (λ l. length l) empty in
            record { counted = omega (arith, old, rest, piped); verdict = v.verdict }

        read_from :
            (q : Bytes)
            → s.pipe ≡ q
            → IsSound (elim q [
              | [] ↦ if s.opened then s else record s { child = measuring total }
              | b ∷ bs ↦ record s {
                pipe = drop block_size (b ∷ bs);
                child = reading (total + length (take block_size (b ∷ bs)));
              }
            ])
        read_from [] c = at_end s.opened refl c
        read_from (b ∷ bs) c =
            let cut = length_cut block_size (b ∷ bs) in
            let piped : length s.pipe ≡ length (b ∷ bs) = ap (λ l. length l) c in
            record { counted = omega (arith, old, cut, piped); verdict = v.verdict }
    child_step-IsSound (measuring total) s e v =
        let old : total ≡ size = rw e at v.counted in
        elim (Option-cases file) [
          | inl gone ↦ rw (gone, child_step) (record { counted = omega arith; verdict = v.verdict })
          | inr (bytes, there) ↦
              let all : total ≡ length bytes = rw there at old in
              let same : (total == length bytes) ≡ true = ground (arith, all) in
              rw (there, child_step)
                (record { counted = rw same (omega arith); verdict = v.verdict })
        ]
    child_step-IsSound (ended status) s e v = v

    pub run_keeps-IsSound :
        (turns : List Turn) (s : State)
        → AllSucceed turns
        → IsSound s
        → IsSound (run file block_size capacity turns s)
    unfolding run step
    run_keeps-IsSound [] s h v = v
    run_keeps-IsSound (of_parent succeeds ∷ turns) s h v =
        run_keeps-IsSound turns (parent_step file block_size capacity succeeds s.parent s) h.1
          (rw h.0 (parent_step-IsSound s.parent s refl v))
    run_keeps-IsSound (of_child ∷ turns) s h v =
        run_keeps-IsSound turns (child_step file block_size capacity s.child s) h
          (child_step-IsSound s.child s refl v)
