-- ===== src/Ingestion/Middleware/Logged.antt =====
-- That the log line tells what was sent.
use fluffy_dollop.Base.{
  ℕ, ◌+◌, ◌^◌, ◌<◌, ◌≤◌, ◌≡◌, ◌≢◌, refl, false, some, List, [], ◌∷◌, All, arith,
}
use fluffy_dollop.Base.Int.{pos, ◌+ℤ◌, wrap64}
use fluffy_dollop.Base.Text.{Text, lit, eq_text, eq_text_iff}
use fluffy_dollop.Config.Types.{Duration}
use fluffy_dollop.Ingestion.Middleware.{
  is_informational, Sent, taken, Call, write_header, write, answered, ResponseWriter, call_writer,
  call_all, wrapped, logging_middleware,
}

abbrev pub IsWrite : Call → Type 0
IsWrite (write_header code) = ⊥
IsWrite (write n) = Unit

-- A status at most, which is final, and before the body.
abbrev pub HeaderFirst : List Call → Type 0
HeaderFirst [] = Unit
HeaderFirst (write_header code ∷ calls) = (is_informational code ≡ false) × All IsWrite calls
HeaderFirst (write n ∷ calls) = All IsWrite calls

abbrev pub total_bytes : List Call → ℕ
total_bytes [] = 0
total_bytes (write_header code ∷ calls) = total_bytes calls
total_bytes (write n ∷ calls) = n + total_bytes calls

-- What the writer says of the response.
pub record IsTold (w : ResponseWriter) (sent : ℕ) : Type 0 where
  pub status : w.status_code ≡ sent
  pub bytes : w.bytes_written ≡ pos w.inner.body_bytes

add_bytes : (m n : ℕ) → m + n < 2 ^ 63 → wrap64 (pos m +ℤ pos n) ≡ pos (m + n)
unfolding ◌+ℤ◌ wrap64
add_bytes m n h = ground arith

taken-le : (r : Sent) (n : ℕ) → taken r n ≤ n
taken-le r n = ground arith

writes-IsTold :
    (calls : List Call) (w : ResponseWriter) (code : ℕ)
    → All IsWrite calls
    → w.inner.is_head ≡ false
    → w.inner.status ≡ some code
    → w.inner.body_bytes + total_bytes calls < 2 ^ 63
    → IsTold w code
    → ((call_all calls w).inner.status ≡ some code) × IsTold (call_all calls w) code
unfolding call_all
writes-IsTold [] w code all body at few told = (at, told)
writes-IsTold (write_header c ∷ calls) w code (here, rest) body at few told = elim here [ ]
writes-IsTold (write n ∷ calls) w code (here, rest) body at few told =
    let small : taken w.inner n ≤ n = taken-le w.inner n in
    let added = add_bytes w.inner.body_bytes (taken w.inner n) (omega (arith, few, small)) in
    writes-IsTold calls (call_writer (write n) w) code rest body (ground arith)
      (rw body (omega (arith, few, small)))
      (record { status = told.status; bytes = rw (told.bytes, body) added })

-- For a handler that sends a status at most once, a final one, and before the body, the line that
-- the middleware logs has the status and the size of the answer that is sent, for a method
-- other than HEAD and a size that an int64 holds.
pub logging_middleware-answered :
    (method path : Text) (duration : Duration) (calls : List Call)
    → method ≢ lit "HEAD"
    → HeaderFirst calls
    → total_bytes calls < 2 ^ 63
    → let (sent, line) = logging_middleware method path duration calls in
      (line.status ≡ answered sent.status) × (line.size ≡ pos sent.body_bytes)
unfolding logging_middleware call_all call_writer
logging_middleware-answered method path duration [] other first few = (refl, refl)
logging_middleware-answered method path duration (write_header code ∷ calls) other (final, writes)
      few =
    let body : eq_text method (lit "HEAD") ≡ false =
      ground (arith, eq_text_iff method (lit "HEAD")) in
    let (sent, told) =
      writes-IsTold calls (call_writer (write_header code) (wrapped method)) code writes body
        (ground arith) (omega (arith, few)) (record { status = refl; bytes = refl }) in
    (rw sent told.status, told.bytes)
logging_middleware-answered method path duration (write n ∷ calls) other writes few =
    let body : eq_text method (lit "HEAD") ≡ false =
      ground (arith, eq_text_iff method (lit "HEAD")) in
    let (sent, told) =
      writes-IsTold calls (call_writer (write n) (wrapped method)) 200 writes body refl
        (rw body (omega (arith, few)))
        (record { status = refl; bytes = rw body (add_bytes 0 n (omega (arith, few))) }) in
    (rw sent told.status, told.bytes)
