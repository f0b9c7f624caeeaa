-- ===== src/Http.antt =====
-- src/http.c and src/main.c: the texts that the management API and its command line read and write.
mod Tests
pub mod Base64
pub mod RoundTrip
