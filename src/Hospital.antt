-- ===== src/Hospital.antt =====
-- Lab 10/zad1.c: the doctor, the patients and the pharmacists of a hospital.
pub mod Defs
pub mod Invariant
pub mod Patients
pub mod Accounts
mod Examples
