-- ===== src/Feedback.antt =====
-- internal/feedback: what a validator or a tool printed becomes structured feedback for the next
-- decision. Regular expressions, hashing and the Unicode tables are parameters.
pub mod Compress
pub mod Classify
pub mod Process
pub mod Laws
pub mod Printed
