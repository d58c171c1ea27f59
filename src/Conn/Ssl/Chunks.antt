-- ===== src/Conn/Ssl/Chunks.antt =====
-- However the bytes are cut, a reader gets them all, and a writer sends them all.
use udp_stuff.Base.{
  ◌-◌, ◌<◌, ◌≡◌, inl, inr, refl, ap, sym, arith, ◌∙◌, true, false, List, [], ◌∷◌, ◌++◌, Bytes,
  length, length-append, take, drop, take-append-drop, >>=-eq-done, leb, ◌==◌, Outcome, done, ◌>>=◌,
  Bool-cases,
}
use udp_stuff.Conn.Ssl.{
  ReadResult, read, read_failed, WriteResult, written, write_failed, ssl_read_all, ssl_write_all,
}

abbrev pub concat : List Bytes → Bytes
concat [] = []
concat (c ∷ cs) = c ++ concat cs

abbrev pub NonEmpty : List Bytes → Type 0
NonEmpty [] = Unit
NonEmpty (c ∷ cs) = (0 < length c) × NonEmpty cs

abbrev pub reads : List Bytes → List ReadResult → List ReadResult
reads [] rest = rest
reads (c ∷ cs) rest = read c ∷ reads cs rest

stops_lem : (rest : List ReadResult) → ssl_read_all rest 0 ≡ done ([], rest)
unfolding ssl_read_all
stops_lem [] = refl
stops_lem (read bs ∷ rs) = refl
stops_lem (read_failed ∷ rs) = refl

-- Bytes that arrive in pieces, none of them empty, fill a buffer of their whole length, in order, and
-- `SSLReadAllData` takes nothing of what comes behind them.
pub ssl_read_all_lem :
    (chunks : List Bytes) (rest : List ReadResult)
    → NonEmpty chunks
    → ssl_read_all (reads chunks rest) (length (concat chunks)) ≡ done (concat chunks, rest)
unfolding ssl_read_all
ssl_read_all_lem [] rest h = stops_lem rest
ssl_read_all_lem (c ∷ cs) rest h =
    let n = length-append c (concat cs) in
    let left : length (c ++ concat cs) - length c ≡ length (concat cs) = omega arith in
    let ih = ssl_read_all_lem cs rest h.1 in
    let a : (length (c ++ concat cs) == 0) ≡ false = ground arith in
    let b : (length c == 0) ≡ false = ground arith in
    let d : leb (length c) (length (c ++ concat cs)) ≡ true = ground arith in
    rw (a, b, d, left, ih) refl

abbrev sent_of : Outcome (List Bytes × List WriteResult) → List Bytes
sent_of (done (sent, left)) = sent
sent_of _ = []

-- When `SSLWriteAllData` returns, the pieces that it sent are the buffer, in order.
pub ssl_write_all_lem :
    (ws left : List WriteResult) (buf : Bytes) (sent : List Bytes)
    → ssl_write_all ws buf ≡ done (sent, left)
    → concat sent ≡ buf
unfolding ssl_write_all
ssl_write_all_lem [] left [] sent e = sym (ap concat (ap sent_of e))
ssl_write_all_lem [] left (x ∷ xs) sent e = ground (arith, e)
ssl_write_all_lem (write_failed ∷ ws) left [] sent e = sym (ap concat (ap sent_of e))
ssl_write_all_lem (write_failed ∷ ws) left (x ∷ xs) sent e = ground (arith, e)
ssl_write_all_lem (written n ∷ ws) left [] sent e = sym (ap concat (ap sent_of e))
ssl_write_all_lem (written n ∷ ws) left (x ∷ xs) sent e = elim (Bool-cases (n == 0)) [
  | inl z ↦ ground (arith, e)
  | inr z ↦ elim (Bool-cases (leb n (length (x ∷ xs)))) [
    | inl f ↦
        let full : (length (x ∷ xs) == 0) ≡ false = ground arith in
        let e' : (ssl_write_all ws (drop n (x ∷ xs)) >>= λ (more, left).
        done (take n (x ∷ xs) ∷ more, left))
            ≡ done (sent, left) =
          rw (full, z, f) at e in
        let ((more, left'), m, whole) = >>=-eq-done (ssl_write_all ws (drop n (x ∷ xs))) _ e' in
        let ih = ssl_write_all_lem ws left' (drop n (x ∷ xs)) more m in
        sym (ap concat (ap sent_of whole))
        ∙ ap (λ t. take n (x ∷ xs) ++ t) ih
        ∙ take-append-drop n (x ∷ xs)
    | inr f ↦ ground (arith, e)
  ]
]
