-- ===== src/Hospital/Defs.antt =====
-- Lab 10/zad1.c: the globals under `hospital_mutex`, and the three kinds of threads. A step of a
-- thread is what it does between two points at which it does not hold the mutex; `pthread_cond_wait`
-- is such a point, and may return at any time, as POSIX allows. Times and printing are left out.
use operating_systems_course.Common.{
  at_index, ℕ, zero, suc, ◌+◌, Bool, true, false, not, ◌&&◌, ◌||◌, Option, none, some, List, [],
  ◌∷◌, if◌then◌else◌, leb, ltb, ◌==◌, ℤ, pos, increment, decrement, at_least, set, replicate,
}

abbrev pub max_patients_in_hospital : ℕ
max_patients_in_hospital = 3

abbrev pub medicine_capacity : ℕ
medicine_capacity = 6

abbrev pub medicine_per_consultation : ℕ
medicine_per_consultation = 3

pub record Hospital : Type 0 where
  pub patients_in_hospital : ℕ
  pub medicine_in_stock : ℤ
  pub patients_remaining : ℤ
  pub patients_waiting : List ℕ
  pub pharmacist_waiting : Bool
  pub waiting_pharmacist_id : ℕ
  pub doctor_sleeping : Bool

-- `patients_remaining <= 0 && patients_in_hospital == 0`
abbrev pub is_over : Hospital → Bool
is_over h = not (at_least 1 h.patients_remaining) && h.patients_in_hospital == 0

abbrev pub has_medicine : Hospital → Bool
has_medicine h = at_least medicine_per_consultation h.medicine_in_stock

-- `patients_in_hospital >= 3 && medicine_in_stock >= MEDICINE_PER_CONSULTATION`
abbrev pub can_consult : Hospital → Bool
can_consult h = leb 3 h.patients_in_hospital && has_medicine h

abbrev pub can_receive : Hospital → Bool
can_receive h = h.pharmacist_waiting && not (has_medicine h)

-- Where the doctor stands: at the head of the loop, before the mutex, in the wait, in the two
-- sleeps without the mutex, or returned.
pub data Doctor : Type 0 where
  resting entering dozing consulting receiving retired : Doctor

-- From the inner `while` on, with the mutex.
unfoldable pub doctor_wakes : Hospital → Hospital × Doctor
doctor_wakes h =
    if h.doctor_sleeping && not (can_consult h || can_receive h)
    then (if is_over h then (h, retired) else (h, dozing))
    else if is_over h
    then (h, retired)
    else if can_consult h
    then (record h { doctor_sleeping = false }, consulting)
    else if can_receive h
    then (record h { doctor_sleeping = false }, receiving)
    else (record h { doctor_sleeping = true }, resting)

-- `medicine_in_stock -= MEDICINE_PER_CONSULTATION; patients_in_hospital = 0`
unfoldable pub end_consultation : Hospital → Hospital
end_consultation h = record h {
  medicine_in_stock = decrement (decrement (decrement h.medicine_in_stock));
  patients_in_hospital = 0;
  doctor_sleeping = true;
}

abbrev pub capped : ℤ → ℤ
capped m = if at_least (suc medicine_capacity) m then pos medicine_capacity else m

unfoldable pub end_delivery : Hospital → Hospital
end_delivery h = record h {
  medicine_in_stock = capped (increment (increment (increment h.medicine_in_stock)));
  pharmacist_waiting = false;
  doctor_sleeping = true;
}

unfoldable pub doctor_step : Doctor → Hospital → Hospital × Doctor
doctor_step resting h =
    if at_least 1 h.patients_remaining || ltb 0 h.patients_in_hospital
    then (h, entering)
    else (h, retired)
doctor_step entering h = doctor_wakes h
doctor_step dozing h = doctor_wakes h
doctor_step consulting h = (end_consultation h, resting)
doctor_step receiving h = (end_delivery h, resting)
doctor_step retired h = (h, retired)

-- Where a patient stands: before the test of its loop, on the way, in the wait with `my_position`,
-- or returned. `home b` returned with `treated` equal to b.
pub data Patient : Type 0 where
  outside : Patient
  walking : Patient
  waiting : ℕ → Patient
  home : Bool → Patient

-- Behind the inner `while`.
unfoldable pub patient_leaves : ℕ → Bool → Hospital → Hospital × Patient
patient_leaves my_position treated h =
    if ltb my_position 3 && h.patients_in_hospital == 0
    then (record h { patients_remaining = decrement h.patients_remaining }, home true)
    else if treated
    then (h, home true)
    else (h, outside)

-- The test of the inner `while`, and the `break` above the wait.
unfoldable pub patient_stays : ℕ → Hospital → Hospital × Patient
patient_stays my_position h =
    if ltb 0 h.patients_in_hospital
      && (leb 3 my_position || ltb h.patients_in_hospital 3 || not (has_medicine h))
    then (if at_least 1 h.patients_remaining
        then (h, waiting my_position)
        else patient_leaves my_position false h)
    else patient_leaves my_position false h

-- The patient takes the next place, and the third wakes the doctor.
abbrev pub seated : ℕ → Hospital → Hospital
seated id h = record h {
  patients_waiting = set h.patients_waiting h.patients_in_hospital id;
  patients_in_hospital = h.patients_in_hospital + 1;
  doctor_sleeping =
      if h.patients_in_hospital + 1 == 3 && has_medicine h then false else h.doctor_sleeping;
}

unfoldable pub patient_arrives : ℕ → Hospital → Hospital × Patient
patient_arrives id h =
    if not (at_least 1 h.patients_remaining)
    then (h, home false)
    else if leb max_patients_in_hospital h.patients_in_hospital
    then (h, outside)
    else patient_stays h.patients_in_hospital (seated id h)

-- `for (i < patients_in_hospital) if (patients_waiting[i] == patient_id)`
abbrev pub find_place : ℕ → ℕ → ℕ → List ℕ → Option ℕ
find_place zero i id places = none
find_place (suc n) i id [] = none
find_place (suc n) i id (p ∷ places) = if p == id then some i else find_place n (i + 1) id places

-- Behind the wait.
unfoldable pub patient_woken : ℕ → ℕ → Hospital → Hospital × Patient
patient_woken id my_position h = elim (find_place h.patients_in_hospital 0 id h.patients_waiting) [
  | none ↦ patient_leaves my_position true h
  | some i ↦ patient_stays i h
]

unfoldable pub patient_step : ℕ → Patient → Hospital → Hospital × Patient
patient_step id outside h =
    if at_least 1 h.patients_remaining then (h, walking) else (h, home false)
patient_step id walking h = patient_arrives id h
patient_step id (waiting my_position) h = patient_woken id my_position h
patient_step id (home treated) h = (h, home treated)

-- Where a pharmacist stands: before the test of its loop, on the way, in the first wait, in the
-- second, or returned.
pub data Pharmacist : Type 0 where
  away driving queueing delivering gone : Pharmacist

-- From `if (medicine_in_stock < MEDICINE_PER_CONSULTATION)` on.
unfoldable pub pharmacist_offers : ℕ → Hospital → Hospital × Pharmacist
pharmacist_offers id h = if has_medicine h then (h, away) else (
  record h { pharmacist_waiting = true; waiting_pharmacist_id = id; doctor_sleeping = false },
  delivering,
)

-- The test of the first waiting loop, and what is behind it.
unfoldable pub pharmacist_queues : ℕ → Hospital → Hospital × Pharmacist
pharmacist_queues id h =
    if has_medicine h && (at_least 1 h.patients_remaining || ltb 0 h.patients_in_hospital)
    then (h, queueing)
    else if is_over h
    then (h, gone)
    else pharmacist_offers id h

unfoldable pub pharmacist_arrives : ℕ → Hospital → Hospital × Pharmacist
pharmacist_arrives id h =
    if is_over h
    then (h, gone)
    else if has_medicine h
    then pharmacist_queues id h
    else pharmacist_offers id h

unfoldable pub pharmacist_step : ℕ → Pharmacist → Hospital → Hospital × Pharmacist
pharmacist_step id away h =
    if at_least 1 h.patients_remaining || ltb 0 h.patients_in_hospital
    then (h, driving)
    else (h, gone)
pharmacist_step id driving h = pharmacist_arrives id h
pharmacist_step id queueing h = pharmacist_queues id h
pharmacist_step id delivering h = if h.pharmacist_waiting then (h, delivering) else (h, away)
pharmacist_step id gone h = (h, gone)

-- All threads; patient i + 1 is `patient i`, and so for the pharmacists.
pub record System : Type 0 where
  pub hospital : Hospital
  pub doctor : Doctor
  pub patient : ℕ → Patient
  pub pharmacist : ℕ → Pharmacist

-- `main` up to the first `pthread_create`, for that many patients.
abbrev pub opening : ℕ → System
opening num_patients = record {
  hospital = record {
    patients_in_hospital = 0;
    medicine_in_stock = pos medicine_capacity;
    patients_remaining = pos num_patients;
    patients_waiting = replicate max_patients_in_hospital 0;
    pharmacist_waiting = false;
    waiting_pharmacist_id = 0;
    doctor_sleeping = true;
  };
  doctor = resting;
  patient = λ i. outside;
  pharmacist = λ i. away;
}

-- Which thread runs next. `closing` is what `main` does between its joins.
pub data Turn : Type 0 where
  of_doctor : Turn
  of_patient : ℕ → Turn
  of_pharmacist : ℕ → Turn
  closing : Turn

unfoldable pub step : Turn → System → System
step of_doctor y =
    let (h, d) = doctor_step y.doctor y.hospital in record y { hospital = h; doctor = d }
step (of_patient i) y =
    let (h, p) = patient_step (i + 1) (y.patient i) y.hospital in
    record y { hospital = h; patient = at_index y.patient i p }
step (of_pharmacist i) y =
    let (h, p) = pharmacist_step (i + 1) (y.pharmacist i) y.hospital in
    record y { hospital = h; pharmacist = at_index y.pharmacist i p }
step closing y = record y { hospital = record (y.hospital) { doctor_sleeping = false } }

unfoldable pub run : List Turn → System → System
run [] y = y
run (t ∷ turns) y = run turns (step t y)
