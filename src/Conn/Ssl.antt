-- ===== src/Conn/Ssl.antt =====
-- crypto/ssl.cc: the loops that read and write all of a buffer.
pub mod Chunks
use udp_stuff.Base.{
  ℕ, zero, suc, ◌+◌, ◌-◌, ◌*◌, ◌/◌, ◌%◌, ◌^◌, Bool, true, false, not, ◌&&◌, ◌||◌, List, [], ◌∷◌,
  ◌++◌, Bytes, length, take, drop, ltb, leb, ◌==◌, if◌then◌else◌, Outcome, done, throws, fault,
  hangs, ssl_error, ◌>>=◌,
}

-- What `SSL_read` comes to: the bytes that it stored, or a result of 0 and below.
pub data ReadResult : Type 0 where
  read : Bytes → ReadResult
  read_failed : ReadResult

-- What `SSL_write` comes to: the number of bytes that it took, or a result of 0 and below.
pub data WriteResult : Type 0 where
  written : ℕ → WriteResult
  write_failed : WriteResult

-- The next results of `SSL_read` are a list; a call that has none does not return. A read of more bytes than
-- there is room for writes outside the buffer.
unfoldable pub ssl_read_all : List ReadResult → ℕ → Outcome (Bytes × List ReadResult)
ssl_read_all [] buf_len = if buf_len == 0 then done ([], []) else hangs
ssl_read_all (read_failed ∷ rs) buf_len =
    if buf_len == 0 then done ([], read_failed ∷ rs) else throws ssl_error
ssl_read_all (read bs ∷ rs) buf_len =
    let later = ssl_read_all rs (buf_len - length bs) in
    if buf_len == 0
    then done ([], read bs ∷ rs)
    else if length bs == 0
    then throws ssl_error
    else if leb (length bs) buf_len
    then (later >>= λ (more, left). done (bs ++ more, left))
    else fault

-- What goes out over the connection, call by call.
unfoldable pub ssl_write_all : List WriteResult → Bytes → Outcome (List Bytes × List WriteResult)
ssl_write_all [] buf = if length buf == 0 then done ([], []) else hangs
ssl_write_all (write_failed ∷ ws) buf =
    if length buf == 0 then done ([], write_failed ∷ ws) else throws ssl_error
ssl_write_all (written n ∷ ws) buf =
    let later = ssl_write_all ws (drop n buf) in
    if length buf == 0
    then done ([], written n ∷ ws)
    else if n == 0
    then throws ssl_error
    else if leb n (length buf)
    then (later >>= λ (more, left). done (take n buf ∷ more, left))
    else fault
