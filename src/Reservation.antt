-- ===== src/Reservation.antt =====
-- examples/reference/app/internal/features/reservation: the states and windows of a booking (Window),
-- the statements on its table (Store), what a command does besides (Effects), the commands
-- (Commands). Schema, Statements and Change relate the commands to the table's constraints, Reach and
-- History to sequences of commands; Outcome, Booking and Sweep are about single commands.
pub mod Store
pub mod Effects
pub mod Commands
pub mod Schema
pub mod Statements
pub mod Change
pub mod Reach
pub mod History
pub mod Outcome
pub mod Booking
pub mod Sweep
pub mod Examples
pub mod Window
