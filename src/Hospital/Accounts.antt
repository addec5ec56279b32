-- ===== src/Hospital/Accounts.antt =====
-- Lab 10/zad1.c: the medicine adds up, and the doctor's work ends with the patients.
use operating_systems_course.Common.{
  ℕ, ◌+◌, ◌*◌, ◌≡◌, refl, Bool, true, false, List, [], ◌∷◌, if◌then◌else◌, ℤ, pos, negsuc, arith,
  inl, inr, Option-cases,
}
use operating_systems_course.Hospital.Defs.{
  Hospital, is_over, Doctor, resting, consulting, receiving, retired, doctor_wakes,
  end_consultation, end_delivery, doctor_step, Patient, outside, walking, waiting, home,
  patient_leaves, patient_stays, patient_arrives, find_place, patient_woken, patient_step,
  Pharmacist, away, pharmacist_offers, pharmacist_queues, pharmacist_arrives, pharmacist_step,
  System, opening, Turn, of_doctor, of_patient, of_pharmacist, closing, step, run,
}
use operating_systems_course.Hospital.Invariant.{
  IsSafe, IsStock, patient_step-Gentle, pharmacist_step-Gentle, step-IsSafe,
}

abbrev is_consulting : Doctor → Bool
is_consulting consulting = true
is_consulting d = false

abbrev is_receiving : Doctor → Bool
is_receiving receiving = true
is_receiving d = false

abbrev ends : (Doctor → Bool) → Turn → System → ℕ
ends busy of_doctor y = if busy y.doctor then 1 else 0
ends busy t y = 0

-- The consultations that end in a run, and the deliveries.
pub consultations : List Turn → System → ℕ
consultations [] y = 0
consultations (t ∷ turns) y = ends is_consulting t y + consultations turns (step t y)

pub deliveries : List Turn → System → ℕ
deliveries [] y = 0
deliveries (t ∷ turns) y = ends is_receiving t y + deliveries turns (step t y)

-- The stock after a step, in terms of that before it.
abbrev Flows : ℕ → ℤ → ℕ → ℤ → Type 0
Flows used (pos m) brought (pos m') = m' + 3 * used ≡ m + 3 * brought
Flows used m brought m' = ⊥

doctor_step-Flows :
    (d : Doctor) (h : Hospital)
    → IsSafe d h
    → Flows
        (if is_consulting d then 1 else 0)
        h.medicine_in_stock
        (if is_receiving d then 1 else 0)
        (doctor_step d h).0.medicine_in_stock
unfolding doctor_step doctor_wakes end_consultation end_delivery
doctor_step-Flows resting h s = ground arith
doctor_step-Flows d h s = ground arith

same-Flows : (m m' : ℤ) → IsStock m → m' ≡ m → Flows 0 m 0 m'
same-Flows (pos m) (pos m') s e = ground arith
same-Flows (pos m) (negsuc m') s e = cc
same-Flows (negsuc m) m' s e = elim s [ ]

step-Flows :
    (t : Turn) (y : System)
    → IsSafe y.doctor y.hospital
    → Flows
        (ends is_consulting t y)
        y.hospital.medicine_in_stock
        (ends is_receiving t y)
        (step t y).hospital.medicine_in_stock
unfolding step
step-Flows of_doctor y s = doctor_step-Flows y.doctor y.hospital s
step-Flows (of_patient i) y s =
    same-Flows _ _ s.stock (patient_step-Gentle (i + 1) (y.patient i) y.hospital s.room).stock
step-Flows (of_pharmacist i) y s =
    same-Flows _ _ s.stock (pharmacist_step-Gentle (i + 1) (y.pharmacist i) y.hospital s.room).stock
step-Flows closing y s = same-Flows _ _ s.stock refl

Flows-trans :
    (a b c d : ℕ) (m m' m'' : ℤ) → Flows a m b m' → Flows c m' d m'' → Flows (a + c) m (b + d) m''
Flows-trans a b c d (pos m) (pos m') (pos m'') f g = omega arith
Flows-trans a b c d (pos m) (pos m') (negsuc m'') f g = elim g [ ]
Flows-trans a b c d (pos m) (negsuc m') m'' f g = elim f [ ]
Flows-trans a b c d (negsuc m) m' m'' f g = elim f [ ]

run-Flows :
    (turns : List Turn) (y : System)
    → IsSafe y.doctor y.hospital
    → Flows
        (consultations turns y)
        y.hospital.medicine_in_stock
        (deliveries turns y)
        (run turns y).hospital.medicine_in_stock
unfolding run consultations deliveries
run-Flows [] y s = same-Flows _ _ s.stock refl
run-Flows (t ∷ turns) y s =
    Flows-trans (ends is_consulting t y) (ends is_receiving t y) (consultations turns (step t y))
      (deliveries turns (step t y)) _ _ _ (step-Flows t y s)
      (run-Flows turns (step t y) (step-IsSafe t y s))

Flows-pos :
    (used brought : ℕ) (m' : ℤ)
    → Flows used (pos 6) brought m'
    → (m : ℕ) × (m' ≡ pos m) × (m + 3 * used ≡ 6 + 3 * brought)
Flows-pos used brought (pos m) f = (m, refl, f)
Flows-pos used brought (negsuc m) f = elim f [ ]

-- Whatever the interleaving, no medicine is lost and none appears: the stock, with three units for
-- each consultation, makes up the six of the beginning and three for each delivery.
pub medicine_balance :
    (n : ℕ) (turns : List Turn)
    → (m : ℕ) × ((run turns (opening n)).hospital.medicine_in_stock ≡ pos m)
      × (m + 3 * consultations turns (opening n) ≡ 6 + 3 * deliveries turns (opening n))
medicine_balance n turns = Flows-pos _ _ _ (
    run-Flows turns (opening n)
      (record { room = omega arith; places = refl; stock = omega arith; busy = tt }))

leaves_over :
    (i : ℕ) (b : Bool) (h : Hospital) → is_over h ≡ true → is_over (patient_leaves i b h).0 ≡ true
unfolding patient_leaves
leaves_over i b h o = ground arith

stays_over : (i : ℕ) (h : Hospital) → is_over h ≡ true → is_over (patient_stays i h).0 ≡ true
unfolding patient_stays
stays_over i h o = ground (arith, leaves_over i false h)

-- Nobody comes in once no patient remains.
patient_keeps_over :
    (id : ℕ) (p : Patient) (h : Hospital)
    → is_over h ≡ true
    → is_over (patient_step id p h).0 ≡ true
unfolding patient_step patient_arrives patient_woken
patient_keeps_over id outside h o = ground arith
patient_keeps_over id walking h o = ground arith
patient_keeps_over id (waiting i) h o =
    elim (Option-cases (find_place h.patients_in_hospital 0 id h.patients_waiting)) [
      | inl n ↦ rw (n, patient_woken) (leaves_over i true h o)
      | inr (j, n) ↦ rw (n, patient_woken) (stays_over j h o)
    ]
patient_keeps_over id (home b) h o = o

pharmacist_keeps_over :
    (id : ℕ) (p : Pharmacist) (h : Hospital) → is_over (pharmacist_step id p h).0 ≡ is_over h
unfolding pharmacist_step pharmacist_arrives pharmacist_queues pharmacist_offers
pharmacist_keeps_over id away h = ground arith
pharmacist_keeps_over id p h = ground arith

doctor_keeps_over :
    (d : Doctor) (h : Hospital)
    → (d ≡ retired → is_over h ≡ true)
    → (doctor_step d h).1 ≡ retired
    → is_over (doctor_step d h).0 ≡ true
unfolding doctor_step doctor_wakes end_consultation end_delivery
doctor_keeps_over resting h k e = ground arith
doctor_keeps_over d h k e = ground arith

step_keeps_over :
    (t : Turn) (y : System)
    → (y.doctor ≡ retired → is_over y.hospital ≡ true)
    → (step t y).doctor ≡ retired
    → is_over (step t y).hospital ≡ true
unfolding step
step_keeps_over of_doctor y k e = doctor_keeps_over y.doctor y.hospital k e
step_keeps_over (of_patient i) y k e = patient_keeps_over (i + 1) (y.patient i) y.hospital (k e)
step_keeps_over (of_pharmacist i) y k e =
    rw (pharmacist_keeps_over (i + 1) (y.pharmacist i) y.hospital) (k e)
step_keeps_over closing y k e = k e

run_keeps_over :
    (turns : List Turn) (y : System)
    → (y.doctor ≡ retired → is_over y.hospital ≡ true)
    → (run turns y).doctor ≡ retired
    → is_over (run turns y).hospital ≡ true
unfolding run
run_keeps_over [] y k e = k e
run_keeps_over (t ∷ turns) y k e = run_keeps_over turns (step t y) (step_keeps_over t y k) e

-- The doctor's thread returns only when no patient remains and nobody is inside, and both still hold
-- at any later time.
pub retired_when_over :
    (n : ℕ) (turns : List Turn)
    → (run turns (opening n)).doctor ≡ retired
    → is_over (run turns (opening n)).hospital ≡ true
retired_when_over n turns e = run_keeps_over turns (opening n) (λ d. cc) e
