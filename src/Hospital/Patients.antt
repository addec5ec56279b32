-- ===== src/Hospital/Patients.antt =====
-- Lab 10/zad1.c: how patients are counted, and where the count goes wrong.
use operating_systems_course.Common.{
  at_index, ℕ, zero, suc, ◌+◌, ◌<◌, ◌≡◌, ◌≢◌, refl, ◌⊎◌, Bool, true, false, List, [], ◌∷◌,
  if◌then◌else◌, ltb, ℤ, pos, negsuc, decrement, at_least, arith, inl, inr, Option-cases,
}
use operating_systems_course.Hospital.Defs.{
  Hospital, has_medicine, Doctor, resting, retired, doctor_wakes, end_consultation, end_delivery,
  doctor_step, Patient, outside, walking, waiting, home, patient_leaves, patient_stays, seated,
  patient_arrives, find_place, patient_woken, patient_step, Pharmacist, away, pharmacist_offers,
  pharmacist_queues, pharmacist_arrives, pharmacist_step, System, Turn, of_doctor, of_patient,
  of_pharmacist, closing, step, run,
}

-- The patient who takes the third place while there is medicine does not wait for the doctor: it
-- goes back outside untreated, with its place still taken.
pub third_patient_leaves :
    (id : ℕ) (h : Hospital)
    → at_least 1 h.patients_remaining ≡ true
    → h.patients_in_hospital ≡ 2
    → has_medicine h ≡ true
    → patient_arrives id h ≡ (seated id h, outside)
unfolding patient_arrives patient_stays patient_leaves
third_patient_leaves id h l two m = ground arith

abbrev pub is_home : Patient → Bool
is_home (home b) = true
is_home p = false

-- The patients among the first n that have not gone home.
abbrev pub still_out : ℕ → (ℕ → Patient) → ℕ
still_out zero f = 0
still_out (suc n) f = (if is_home (f n) then 0 else 1) + still_out n f

-- A step of a patient: it counts itself and goes home, or changes no count.
abbrev Counts : Patient → Hospital → Hospital × Patient → Type 0
Counts p h (h', p') =
    (is_home p ≡ false)
      × (is_home p' ≡ true)
      × (h'.patients_remaining ≡ decrement h.patients_remaining)
    ⊎ (is_home p ≡ true → is_home p' ≡ true) × (h'.patients_remaining ≡ h.patients_remaining)

patient_leaves-Counts :
    (i j : ℕ) (b : Bool) (h : Hospital) → Counts (waiting j) h (patient_leaves i b h)
unfolding patient_leaves
patient_leaves-Counts i j b h = ground arith

patient_stays-Counts : (i j : ℕ) (h : Hospital) → Counts (waiting j) h (patient_stays i h)
unfolding patient_stays
patient_stays-Counts i j h = ground (arith, patient_leaves-Counts i j false h)

patient_arrives-Counts : (id : ℕ) (h : Hospital) → Counts walking h (patient_arrives id h)
unfolding patient_arrives
patient_arrives-Counts id h =
    ground (arith, patient_stays-Counts h.patients_in_hospital 0 (seated id h))

patient_woken-Counts : (id i : ℕ) (h : Hospital) → Counts (waiting i) h (patient_woken id i h)
unfolding patient_woken
patient_woken-Counts id i h =
    elim (Option-cases (find_place h.patients_in_hospital 0 id h.patients_waiting)) [
      | inl n ↦ rw (n, patient_woken) (patient_leaves-Counts i i true h)
      | inr (j, n) ↦ rw (n, patient_woken) (patient_stays-Counts j i h)
    ]

patient_step-Counts : (id : ℕ) (p : Patient) (h : Hospital) → Counts p h (patient_step id p h)
unfolding patient_step
patient_step-Counts id outside h = ground arith
patient_step-Counts id walking h = patient_arrives-Counts id h
patient_step-Counts id (waiting i) h = patient_woken-Counts id i h
patient_step-Counts id (home b) h = inr (λ e. refl, refl)

-- Setting one patient among the first n.
still_out-at_index :
    (n : ℕ) (f : ℕ → Patient) (i : ℕ) (p : Patient)
    → still_out n (at_index f i p) + (if ltb i n then (if is_home (f i) then 0 else 1) else 0)
      ≡ still_out n f + (if ltb i n then (if is_home p then 0 else 1) else 0)
still_out-at_index zero f i p = ground arith
still_out-at_index (suc n) f i p = ground (arith, still_out-at_index n f i p)

-- The turns of a run with n patients.
abbrev pub IsScheduled : ℕ → List Turn → Type 0
IsScheduled n [] = Unit
IsScheduled n (of_patient i ∷ turns) = (i < n) × IsScheduled n turns
IsScheduled n (t ∷ turns) = IsScheduled n turns

-- More patients are counted as remaining than there are patients who have not gone home.
abbrev pub IsMiscounted : ℕ → System → Type 0
IsMiscounted n y = at_least (suc (still_out n y.patient)) y.hospital.patients_remaining ≡ true

pharmacist_keeps_count :
    (id : ℕ) (p : Pharmacist) (h : Hospital)
    → (pharmacist_step id p h).0.patients_remaining ≡ h.patients_remaining
unfolding pharmacist_step pharmacist_arrives pharmacist_queues pharmacist_offers
pharmacist_keeps_count id away h = ground arith
pharmacist_keeps_count id p h = ground arith

doctor_keeps_count :
    (d : Doctor) (h : Hospital) → (doctor_step d h).0.patients_remaining ≡ h.patients_remaining
unfolding doctor_step doctor_wakes end_consultation end_delivery
doctor_keeps_count resting h = ground arith
doctor_keeps_count d h = ground arith

doctor_works_on :
    (d : Doctor) (h : Hospital)
    → at_least 1 h.patients_remaining ≡ true
    → d ≢ retired
    → (doctor_step d h).1 ≢ retired
unfolding doctor_step doctor_wakes end_consultation end_delivery
doctor_works_on resting h r n = ground arith
doctor_works_on d h r n = ground arith

at_least-one : (k : ℕ) (z : ℤ) → at_least (suc k) z ≡ true → at_least 1 z ≡ true
at_least-one k (pos n) h = ground arith
at_least-one k (negsuc n) h = h

patient_keeps_miscount :
    (n i : ℕ) (y : System) → i < n → IsMiscounted n y → IsMiscounted n (step (of_patient i) y)
unfolding step
patient_keeps_miscount n i y lt m = ground (
  arith,
  patient_step-Counts (i + 1) (y.patient i) y.hospital,
  still_out-at_index n y.patient i (patient_step (i + 1) (y.patient i) y.hospital).1,
)

record IsStuck (n : ℕ) (y : System) : Type 0 where
  miscounted : IsMiscounted n y
  working : y.doctor ≢ retired

step-IsStuck :
    (n : ℕ) (t : Turn) (y : System) → IsScheduled n (t ∷ []) → IsStuck n y → IsStuck n (step t y)
unfolding step
step-IsStuck n of_doctor y a s = record {
  miscounted = rw (doctor_keeps_count y.doctor y.hospital) s.miscounted;
  working =
      doctor_works_on y.doctor y.hospital (at_least-one (still_out n y.patient) _ s.miscounted)
        s.working;
}
step-IsStuck n (of_patient i) y a s = record {
  miscounted = patient_keeps_miscount n i y a.0 s.miscounted;
  working = s.working;
}
step-IsStuck n (of_pharmacist i) y a s = record {
  miscounted = rw (pharmacist_keeps_count (i + 1) (y.pharmacist i) y.hospital) s.miscounted;
  working = s.working;
}
step-IsStuck n closing y a s = record { miscounted = s.miscounted; working = s.working }

run_keeps-IsStuck :
    (n : ℕ) (turns : List Turn) (y : System)
    → IsScheduled n turns
    → IsStuck n y
    → IsStuck n (run turns y)
unfolding run
run_keeps-IsStuck n [] y a s = s
run_keeps-IsStuck n (of_patient i ∷ turns) y a s =
    run_keeps-IsStuck n turns _ a.1 (step-IsStuck n (of_patient i) y (a.0, tt) s)
run_keeps-IsStuck n (of_doctor ∷ turns) y a s =
    run_keeps-IsStuck n turns _ a (step-IsStuck n of_doctor y tt s)
run_keeps-IsStuck n (of_pharmacist i ∷ turns) y a s =
    run_keeps-IsStuck n turns _ a (step-IsStuck n (of_pharmacist i) y tt s)
run_keeps-IsStuck n (closing ∷ turns) y a s =
    run_keeps-IsStuck n turns _ a (step-IsStuck n closing y tt s)

-- Once more patients are counted as remaining than have not gone home, as after a patient that was
-- not counted, the doctor never returns, however the threads go on: the program does not end.
pub doctor_never_retires :
    (n : ℕ) (turns : List Turn) (y : System)
    → IsScheduled n turns
    → IsMiscounted n y
    → y.doctor ≢ retired
    → (run turns y).doctor ≢ retired
doctor_never_retires n turns y a m w =
    (run_keeps-IsStuck n turns y a (record { miscounted = m; working = w })).working
