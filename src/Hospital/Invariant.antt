-- ===== src/Hospital/Invariant.antt =====
-- Lab 10/zad1.c: what holds in the hospital under every interleaving.
use operating_systems_course.Common.{
  ℕ, ◌+◌, ◌≤◌, ◌<◌, ◌≡◌, refl, Bool, true, false, List, [], ◌∷◌, leb, ℤ, pos, negsuc, at_least,
  length, length-set, arith, Bool-cases, inl, inr, Option-cases,
}
use operating_systems_course.Hospital.Defs.{
  Hospital, has_medicine, Doctor, resting, entering, dozing, consulting, receiving, retired,
  doctor_wakes, end_consultation, end_delivery, doctor_step, Patient, outside, walking, waiting,
  home, patient_leaves, patient_stays, seated, patient_arrives, find_place, patient_woken,
  patient_step, Pharmacist, away, driving, queueing, delivering, gone, pharmacist_offers,
  pharmacist_queues, pharmacist_arrives, pharmacist_step, System, opening, Turn, of_doctor,
  of_patient, of_pharmacist, closing, step, run,
}

-- The stock is neither below 0 nor above the capacity of 6.
abbrev pub IsStock : ℤ → Type 0
IsStock (pos m) = m ≤ 6
IsStock (negsuc m) = ⊥

-- What holds while the doctor works without the mutex.
abbrev pub Busy : Doctor → Hospital → Type 0
Busy consulting h = (h.patients_in_hospital ≡ 3) × (has_medicine h ≡ true)
Busy receiving h = (h.pharmacist_waiting ≡ true) × (has_medicine h ≡ false)
Busy d h = Unit

pub record IsSafe (d : Doctor) (h : Hospital) : Type 0 where
  pub room : h.patients_in_hospital ≤ 3
  pub places : length h.patients_waiting ≡ 3
  pub stock : IsStock h.medicine_in_stock
  pub busy : Busy d h

doctor_wakes-IsSafe :
    (d : Doctor) (h : Hospital) → IsSafe d h → IsSafe (doctor_wakes h).1 (doctor_wakes h).0
unfolding doctor_wakes
doctor_wakes-IsSafe d h s = ground arith

doctor_step-IsSafe :
    (d : Doctor) (h : Hospital) → IsSafe d h → IsSafe (doctor_step d h).1 (doctor_step d h).0
unfolding doctor_step end_consultation end_delivery
doctor_step-IsSafe resting h s = ground arith
doctor_step-IsSafe entering h s = doctor_wakes-IsSafe entering h s
doctor_step-IsSafe dozing h s = doctor_wakes-IsSafe dozing h s
doctor_step-IsSafe consulting h s = ground arith
doctor_step-IsSafe receiving h s = ground arith
doctor_step-IsSafe retired h s = s

-- What a step of another thread may do: it leaves the stock alone, takes no place that is taken, and
-- does not withdraw a delivery.
pub record Gentle (h h' : Hospital) : Type 0 where
  pub stock : h'.medicine_in_stock ≡ h.medicine_in_stock
  pub places : length h'.patients_waiting ≡ length h.patients_waiting
  pub room : h'.patients_in_hospital ≤ 3
  pub full : h.patients_in_hospital ≡ 3 → h'.patients_in_hospital ≡ 3
  pub offered : h.pharmacist_waiting ≡ true → h'.pharmacist_waiting ≡ true

Gentle-IsSafe : (d : Doctor) (h h' : Hospital) → Gentle h h' → IsSafe d h → IsSafe d h'
Gentle-IsSafe consulting h h' g s = ground arith
Gentle-IsSafe receiving h h' g s = ground arith
Gentle-IsSafe d h h' g s = ground arith

patient_leaves-Gentle :
    (i : ℕ) (b : Bool) (h : Hospital)
    → h.patients_in_hospital ≤ 3
    → Gentle h (patient_leaves i b h).0
unfolding patient_leaves
patient_leaves-Gentle i b h r = ground arith

Gentle-trans : (h h' h'' : Hospital) → Gentle h h' → Gentle h' h'' → Gentle h h''
Gentle-trans h h' h'' g k = ground arith

Gentle-refl : (h : Hospital) → h.patients_in_hospital ≤ 3 → Gentle h h
Gentle-refl h r = ground arith

patient_stays-Gentle :
    (i : ℕ) (h : Hospital) → h.patients_in_hospital ≤ 3 → Gentle h (patient_stays i h).0
unfolding patient_stays
patient_stays-Gentle i h r = ground (arith, Gentle-refl h r, patient_leaves-Gentle i false h r)

seated-Gentle : (id : ℕ) (h : Hospital) → h.patients_in_hospital < 3 → Gentle h (seated id h)
seated-Gentle id h r = ground (arith, length-set h.patients_waiting h.patients_in_hospital id)

patient_arrives-Gentle :
    (id : ℕ) (h : Hospital) → h.patients_in_hospital ≤ 3 → Gentle h (patient_arrives id h).0
unfolding patient_arrives
patient_arrives-Gentle id h r = elim (Bool-cases (at_least 1 h.patients_remaining)) [
  | inl some_left ↦ elim (Bool-cases (leb 3 h.patients_in_hospital)) [
    | inl full ↦ rw (some_left, full, patient_arrives) (Gentle-refl h r)
    | inr room ↦
        rw (some_left, room, patient_arrives)
          (Gentle-trans h (seated id h) _ (seated-Gentle id h (ground arith))
            (patient_stays-Gentle h.patients_in_hospital (seated id h) (ground arith)))
  ]
  | inr nobody ↦ rw (nobody, patient_arrives) (Gentle-refl h r)
]

patient_woken-Gentle :
    (id i : ℕ) (h : Hospital) → h.patients_in_hospital ≤ 3 → Gentle h (patient_woken id i h).0
unfolding patient_woken
patient_woken-Gentle id i h r =
    elim (Option-cases (find_place h.patients_in_hospital 0 id h.patients_waiting)) [
      | inl n ↦ rw (n, patient_woken) (patient_leaves-Gentle i true h r)
      | inr (j, n) ↦ rw (n, patient_woken) (patient_stays-Gentle j h r)
    ]

pub patient_step-Gentle :
    (id : ℕ) (p : Patient) (h : Hospital)
    → h.patients_in_hospital ≤ 3
    → Gentle h (patient_step id p h).0
unfolding patient_step
patient_step-Gentle id outside h r = ground (arith, Gentle-refl h r)
patient_step-Gentle id walking h r = patient_arrives-Gentle id h r
patient_step-Gentle id (waiting i) h r = patient_woken-Gentle id i h r
patient_step-Gentle id (home b) h r = Gentle-refl h r

pharmacist_offers-Gentle :
    (id : ℕ) (h : Hospital) → h.patients_in_hospital ≤ 3 → Gentle h (pharmacist_offers id h).0
unfolding pharmacist_offers
pharmacist_offers-Gentle id h r = ground arith

pharmacist_queues-Gentle :
    (id : ℕ) (h : Hospital) → h.patients_in_hospital ≤ 3 → Gentle h (pharmacist_queues id h).0
unfolding pharmacist_queues
pharmacist_queues-Gentle id h r = ground (arith, Gentle-refl h r, pharmacist_offers-Gentle id h r)

pub pharmacist_step-Gentle :
    (id : ℕ) (p : Pharmacist) (h : Hospital)
    → h.patients_in_hospital ≤ 3
    → Gentle h (pharmacist_step id p h).0
unfolding pharmacist_step pharmacist_arrives
pharmacist_step-Gentle id away h r = ground (arith, Gentle-refl h r)
pharmacist_step-Gentle id driving h r =
    ground
      (arith, Gentle-refl h r, pharmacist_queues-Gentle id h r, pharmacist_offers-Gentle id h r)
pharmacist_step-Gentle id queueing h r = pharmacist_queues-Gentle id h r
pharmacist_step-Gentle id delivering h r = ground (arith, Gentle-refl h r)
pharmacist_step-Gentle id gone h r = Gentle-refl h r

pub step-IsSafe :
    (t : Turn) (y : System)
    → IsSafe y.doctor y.hospital
    → IsSafe (step t y).doctor (step t y).hospital
unfolding step
step-IsSafe of_doctor y s = doctor_step-IsSafe y.doctor y.hospital s
step-IsSafe (of_patient i) y s =
    Gentle-IsSafe y.doctor y.hospital _
      (patient_step-Gentle (i + 1) (y.patient i) y.hospital s.room) s
step-IsSafe (of_pharmacist i) y s =
    Gentle-IsSafe y.doctor y.hospital _
      (pharmacist_step-Gentle (i + 1) (y.pharmacist i) y.hospital s.room) s
step-IsSafe closing y s = Gentle-IsSafe y.doctor y.hospital _ (ground arith) s

run_keeps-IsSafe :
    (turns : List Turn) (y : System)
    → IsSafe y.doctor y.hospital
    → IsSafe (run turns y).doctor (run turns y).hospital
unfolding run
run_keeps-IsSafe [] y s = s
run_keeps-IsSafe (t ∷ turns) y s = run_keeps-IsSafe turns (step t y) (step-IsSafe t y s)

-- Whatever the number of patients and pharmacists and in whatever order the threads run and wake:
-- at most three patients are inside, the stock stays between 0 and 6, and while the doctor is in a
-- consultation or a delivery, which run without the mutex, what started it still holds: three
-- patients and medicine for them, or an offered delivery and too little medicine.
pub run-IsSafe :
    (n : ℕ) (turns : List Turn)
    → IsSafe (run turns (opening n)).doctor (run turns (opening n)).hospital
run-IsSafe n turns =
    run_keeps-IsSafe turns (opening n)
      (record { room = omega arith; places = refl; stock = omega arith; busy = tt })
