-- ===== src/Wire/Ends.antt =====
-- `serve` of use-after-free/capstone/src/sessiond/sessiond.c and of
-- double-free/capstone/src/spoold/spoold.c: the rounds of the loop, and the bytes that each takes.
use native.Mathlib.Decide.{ℕ_discrete}
use bug_museum.Base.{
  ℕ, zero, suc, ◌+◌, ◌≤◌, ◌<◌, ◌≡◌, refl, Bool, Option, none, some, [], ◌++◌, arith, length, take,
  drop, ne→==, le→leb, gt→leb, ge→ltb, lt→ltb, le_or_lt, ◌⊎◌, inl, inr, length-drop, Bool-cases,
}
use bug_museum.Memory.Fault.{Result, Ends, ok-Ends, bind-Ends}
use bug_museum.Memory.Bytes.{Bytes}
use bug_museum.Text.{codes}
use bug_museum.Wire.Read.{IsRecv, read_full, cut, read_full-cut}
use bug_museum.Wire.Request.{Header, header_of}
use bug_museum.Wire.Serve.{read_arg, serve_rounds, serve}

-- A read fails, or leaves `n` bytes fewer.
abbrev Shrinks : ℕ → Bytes → Option (Bytes × Bytes) → Type 0
Shrinks n stream o =
    (o ≡ none)
    ⊎ ((got : Bytes) × (rest : Bytes) × (o ≡ some (got, rest)) × (length rest + n ≤ length stream))

cut-Shrinks : (n : ℕ) (stream : Bytes) → Shrinks n stream (cut n stream)
cut-Shrinks n stream = elim (le_or_lt n (length stream)) [
  | inl enough ↦ inr (
    take n stream,
    drop n stream,
    rw (le→leb n (length stream) enough),
    omega (arith, length-drop n stream),
  )
  | inr short ↦ inl (rw (gt→leb n (length stream) short))
]

module _ {S : Type 0} (answer : S → Header → Bytes → Result (S × Bytes)) (max_arg : ℕ)
    (buffers : ℕ → Bool) (recv : ℕ → ℕ → ℕ) (r : IsRecv recv) where
  read_full-Shrinks : (n : ℕ) (stream : Bytes) → Shrinks n stream (read_full recv n stream)
  read_full-Shrinks n stream = rw (read_full-cut recv r n stream) (cut-Shrinks n stream)

  read_arg-Shrinks :
      (k len : ℕ) (stream : Bytes)
      → Shrinks 0 stream (read_arg answer max_arg buffers recv k len stream)
  unfolding read_arg
  read_arg-Shrinks k len stream = elim (ℕ_discrete len 0) [
    | yes nothing ↦ rw nothing (inr ([], stream, refl, omega arith))
    | no something ↦ elim (Bool-cases (buffers k)) [
      | inl there ↦ elim (read_full-Shrinks len stream) [
        | inl over ↦ rw (ne→== len 0 something, there, over) (inl refl)
        | inr (got, rest, e, le) ↦
            rw (ne→== len 0 something, there, e) (inr (got, rest, refl, omega (arith, le)))
      ]
      | inr refused ↦ rw (ne→== len 0 something, refused) (inl refl)
    ]
  ]

  module _ (answers : (s : S) (h : Header) (arg : Bytes) → Ends (answer s h arg)) where
    serve_rounds-Ends :
        (rounds k : ℕ) (s : S) (stream : Bytes)
        → length stream < rounds
        → Ends (serve_rounds answer max_arg buffers recv rounds k s stream)
    unfolding serve_rounds
    serve_rounds-Ends zero k s stream few = absurd (omega arith)
    serve_rounds-Ends (suc rounds) k s stream few = elim (read_full-Shrinks 8 stream) [
      | inl over ↦ rw (serve_rounds, over) (ok-Ends (s, []))
      | inr (head, behind, e, le) ↦
          let h = header_of head in
          elim (le_or_lt h.arg_len max_arg) [
            | inr large ↦
                rw (serve_rounds, e, lt→ltb max_arg h.arg_len large)
                  (ok-Ends (s, codes "ERR big\n"))
            | inl small ↦ elim (read_arg-Shrinks k h.arg_len behind) [
              | inl over ↦
                  rw (serve_rounds, e, ge→ltb max_arg h.arg_len small, over) (ok-Ends (s, []))
              | inr (arg, rest, e', le') ↦
                  rw (serve_rounds, e, ge→ltb max_arg h.arg_len small, e')
                    (bind-Ends (answers s h arg) (λ (s', out).
                      bind-Ends (serve_rounds-Ends rounds (suc k) s' rest (omega arith))
                        (λ (s'', outs). ok-Ends (s'', out ++ outs))))
            ]
          ]
    ]

    -- The bounded loop is never cut off when no call of a handler is: every round takes the eight bytes
    -- of a header off the stream.
    pub serve_with-Ends :
        (s : S) (stream : Bytes) → Ends (serve answer max_arg buffers recv s stream)
    unfolding serve
    serve_with-Ends s stream = serve_rounds-Ends (suc (length stream)) 0 s stream (omega arith)
