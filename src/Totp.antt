-- ===== src/Totp.antt =====
-- modules/totp: steps, codes and their verification (Code), which step a code verifies at (Window),
-- recovery codes (Recovery) and their way through a person's hands (Transcription).
pub mod Code
pub mod Window
pub mod Recovery
pub mod Transcription
pub mod Examples
