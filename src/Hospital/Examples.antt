-- ===== src/Hospital/Examples.antt =====
-- Lab 10/zad1.c: two runs of the hospital.
use operating_systems_course.Common.{
  ℕ, ◌+◌, ◌*◌, ◌≡◌, ◌≢◌, refl, true, List, [], ◌∷◌, ◌++◌, arith, pos,
}
use operating_systems_course.Hospital.Defs.{
  Hospital, is_over, retired, patient_arrives, patient_woken, opening, Turn, of_doctor, of_patient,
  of_pharmacist, step, run, doctor_step, doctor_wakes, end_consultation, end_delivery, patient_step,
  patient_stays, patient_leaves, pharmacist_step, pharmacist_arrives, pharmacist_offers,
}
use operating_systems_course.Hospital.Invariant.{IsSafe, run-IsSafe}
use operating_systems_course.Hospital.Accounts.{
  consultations, deliveries, medicine_balance, retired_when_over,
}
use operating_systems_course.Hospital.Patients.{doctor_never_retires}

-- The turns in which a patient comes from outside and asks for a place.
abbrev arrival : ℕ → List Turn
arrival i = of_patient i ∷ of_patient i ∷ []

-- The turns of the doctor for one consultation or delivery.
abbrev work : List Turn
work = of_doctor ∷ of_doctor ∷ of_doctor ∷ []

abbrev first_group : List Turn
first_group = arrival 0 ++ (arrival 1 ++ (arrival 2 ++ work))

-- Seven patients: the third and the fifth have to come twice, and all are treated.
abbrev seven : List Turn
seven =
    first_group
    ++ (of_patient 0
        ∷ of_patient 1
        ∷ (arrival 2
            ++ (arrival 3
                ++ (arrival 4
                    ++ (work
                        ++ (of_patient 2
                            ∷ of_patient 3
                            ∷ (arrival 4
                                ++ (arrival 5
                                    ++ (arrival 6
                                        ++ (of_pharmacist 0
                                            ∷ of_pharmacist 0
                                            ∷ (work
                                                ++ (work
                                                    ++ (of_patient 4
                                                        ∷ of_patient 5
                                                        ∷ of_patient 6
                                                        ∷ of_doctor
                                                        ∷ [])))))))))))))

seven_runs :
    ((run seven (opening 7)).doctor ≡ retired)
    × ((run seven (opening 7)).hospital.medicine_in_stock ≡ pos 0)
    × ((run seven (opening 7)).hospital.patients_remaining ≡ pos 0)
unfolding run step doctor_step doctor_wakes end_consultation end_delivery patient_step
    patient_arrives patient_stays patient_leaves patient_woken pharmacist_step pharmacist_arrives
    pharmacist_offers
seven_runs = (refl, refl, refl)

run-IsSafe_example : IsSafe (run seven (opening 7)).doctor (run seven (opening 7)).hospital
run-IsSafe_example = run-IsSafe 7 seven

medicine_balance_example :
    (m : ℕ) × ((run seven (opening 7)).hospital.medicine_in_stock ≡ pos m)
    × (m + 3 * consultations seven (opening 7) ≡ 6 + 3 * deliveries seven (opening 7))
medicine_balance_example = medicine_balance 7 seven

retired_when_over_example : is_over (run seven (opening 7)).hospital ≡ true
retired_when_over_example = retired_when_over 7 seven seven_runs.0

-- Four patients: the fourth comes in before the first wakes, and the first is not counted.
abbrev miscount : List Turn
miscount = first_group ++ (arrival 3 ++ of_patient 0 ∷ [])

abbrev two_inside : Hospital
two_inside = record ((opening 4).hospital) {
  patients_in_hospital = 2;
  patients_waiting = 1 ∷ 2 ∷ 0 ∷ [];
}

abbrev fourth_inside : Hospital
fourth_inside = record ((opening 4).hospital) {
  patients_in_hospital = 1;
  patients_waiting = 4 ∷ 2 ∷ 3 ∷ [];
}

doctor_never_retires_example :
    (run (of_patient 1 ∷ of_doctor ∷ of_doctor ∷ []) (run miscount (opening 4))).doctor ≢ retired
unfolding run step doctor_step doctor_wakes end_consultation end_delivery patient_step
    patient_arrives patient_stays patient_leaves patient_woken
doctor_never_retires_example =
    doctor_never_retires 4 (of_patient 1 ∷ of_doctor ∷ of_doctor ∷ []) (run miscount (opening 4))
      (omega arith, tt) refl (λ e. cc)
