-- ===== src/Wire/Serve.antt =====
-- `serve` of use-after-free/capstone/src/sessiond/sessiond.c and of
-- double-free/capstone/src/spoold/spoold.c, which have the same text but for the table of handlers:
-- the loop over the requests of one connection. `answer` is the call of a handler, with the state that
-- it changes and what it replies; `buffers` says which request's argument buffer is granted.
use native.Mathlib.Decide.{ℕ_discrete}
use bug_museum.Base.{
  ℕ, zero, suc, ◌≤◌, ◌<◌, ◌≡◌, sym, Bool, true, Option, none, some, List, [], ◌∷◌, ◌++◌, arith, leb,
  ltb, ◌==◌, if◌then◌else◌, length, ne→==, le→leb, ge→ltb, length-append, take-length-append,
  drop-length-append,
}
use bug_museum.Memory.Fault.{Result, ok, fault, no_end, ◌>>=◌, bind_cong}
use bug_museum.Memory.Bytes.{Bytes}
use bug_museum.Text.{codes}
use bug_museum.Wire.Read.{IsRecv, read_full, cut, read_full-cut, cut-zero}
use bug_museum.Wire.Request.{
  Header, header_of, Call, encode_onto, encode, header, header_of-encode_onto, drop-encode_onto,
  length-encode_onto,
}

module _ {S : Type 0} (answer : S → Header → Bytes → Result (S × Bytes)) (max_arg : ℕ) where
  -- The requests one after the other: what a loop over them should do.
  unfoldable pub run_calls : S → List Call → Result (S × Bytes)
  run_calls s [] = ok (s, [])
  run_calls s (c ∷ cs) = do
    (s, out) ← answer s (header c) c.arg
    (s, outs) ← run_calls s cs
    ok (s, out ++ outs)

  -- What the protocol admits.
  abbrev pub Admitted : List Call → Type 0
  Admitted [] = Unit {0}
  Admitted (c ∷ cs) = (length c.arg ≤ max_arg) × Admitted cs

  module _ (buffers : ℕ → Bool) (recv : ℕ → ℕ → ℕ) where
    -- The argument of the request number `k`, if its buffer is granted and it arrives.
    unfoldable pub read_arg : ℕ → ℕ → Bytes → Option (Bytes × Bytes)
    read_arg k len stream =
        if len == 0
        then some ([], stream)
        else if buffers k
        then read_full recv len stream
        else none

    -- The loop, with its rounds bounded, from the request number `k` on.
    unfoldable pub serve_rounds : ℕ → ℕ → S → Bytes → Result (S × Bytes)
    serve_rounds zero k s stream = fault no_end
    serve_rounds (suc rounds) k s stream = elim (read_full recv 8 stream) [
      | none ↦ ok (s, [])
      | some (head, stream) ↦
          let r = header_of head in
          if ltb max_arg r.arg_len
          then ok (s, codes "ERR big\n")
          else elim (read_arg k r.arg_len stream) [
            | none ↦ ok (s, [])
            | some (arg, stream) ↦ (do
              (s, out) ← answer s r arg
              (s, outs) ← serve_rounds rounds (suc k) s stream
              ok (s, out ++ outs))
          ]
    ]

    -- serve: a request has eight bytes at least, so the rounds are more than the requests
    unfoldable pub serve : S → Bytes → Result (S × Bytes)
    serve s stream = serve_rounds (suc (length stream)) 0 s stream

    module _ (granted : (k : ℕ) → buffers k ≡ true) (r : IsRecv recv) where
      read_arg-cut : (k len : ℕ) (stream : Bytes) → read_arg k len stream ≡ cut len stream
      unfolding read_arg
      read_arg-cut k len stream = elim (ℕ_discrete len 0) [
        | yes nothing ↦ rw nothing (sym (cut-zero stream))
        | no something ↦ rw (ne→== len 0 something, granted k) (read_full-cut recv r len stream)
      ]

      serve_rounds-encode :
          (rounds k : ℕ) (s : S) (cs : List Call)
          → Admitted cs
          → length (encode cs) < rounds
          → serve_rounds rounds k s (encode cs) ≡ run_calls s cs
      unfolding serve_rounds run_calls encode
      serve_rounds-encode zero k s cs a few = absurd (omega arith)
      serve_rounds-encode (suc rounds) k s [] a few = rw (serve_rounds, read_full-cut recv r 8 [])
      serve_rounds-encode (suc rounds) k s (c ∷ cs) a few =
          let stream = encode_onto c (encode cs) in
          let size = length-encode_onto c (encode cs) in
          let there : leb 8 (length stream) ≡ true =
            le→leb 8 (length stream) (omega (arith, size)) in
          let arg_there : leb (length c.arg) (length (c.arg ++ encode cs)) ≡ true =
            le→leb _ _ (omega (arith, length-append c.arg (encode cs))) in
          rw
            (
              serve_rounds,
              read_full-cut recv r 8 stream,
              there,
              header_of-encode_onto c (encode cs),
              drop-encode_onto c (encode cs),
              ge→ltb max_arg (length c.arg) a.0,
              read_arg-cut k (length c.arg) (c.arg ++ encode cs),
              arg_there,
              take-length-append c.arg (encode cs),
              drop-length-append c.arg (encode cs),
            )
            (rw (header_of-encode_onto c (encode cs)) (
              bind_cong (answer s (header c) c.arg) (λ (s', out).
                rw (serve_rounds-encode rounds (suc k) s' cs a.1 (omega (arith, size))))))

      -- A connection over which requests within the limit are sent, and then closed, is served as the
      -- calls of the handlers one after the other, with the replies in that order: however the bytes
      -- arrive, provided that the argument buffers are granted.
      pub serve-encode :
          (s : S) (cs : List Call) → Admitted cs → serve s (encode cs) ≡ run_calls s cs
      unfolding serve
      serve-encode s cs a = serve_rounds-encode (suc (length (encode cs))) 0 s cs a (omega arith)
