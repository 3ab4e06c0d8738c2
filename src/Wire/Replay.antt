-- ===== src/Wire/Replay.antt =====
-- `wmain` of use-after-free/capstone/src/sessreplay/sessreplay.c and of
-- double-free/capstone/src/spoolc/spoolc.c, which have the same text but for the magic number and the
-- operations: a recorded file of requests is replayed. A file is the list of its bytes; `answer` is
-- the switch over the operation, with what it prints; `buffers` says which record's argument buffer is
-- granted. A result is the exit code and what has been printed to stdout.
use native.Mathlib.Decide.{ℕ_discrete}
use bug_museum.Base.{
  ℕ, zero, suc, ◌+◌, ◌*◌, ◌/◌, ◌%◌, ◌≤◌, ◌≡◌, refl, sym, Bool, true, Option, none, some, List, [],
  ◌∷◌, ◌++◌, arith, leb, ltb, ◌==◌, if◌then◌else◌, length, take, drop, ne→==, le→leb, ge→ltb,
  length-append, take-length-append, drop-length-append,
}
use bug_museum.Memory.Fault.{Result, ok, ◌>>=◌, bind_cong}
use bug_museum.Memory.Bytes.{Bytes, same, same_refl}
use bug_museum.Config.Parse.{rd_u32}
use bug_museum.Wire.Read.{cut, cut-zero}
use bug_museum.Wire.Request.{
  Header, header_of, Call, encode_onto, encode, header, header_of-encode_onto, drop-encode_onto,
  length-encode_onto,
}
use bug_museum.Wire.Serve.{run_calls, Admitted}

abbrev pub max_records : ℕ
max_records = 65536

-- A recording of requests: the magic number, their count and the records.
unfoldable pub recorded : Bytes → List Call → Bytes
recorded magic cs =
    let n = length cs in
    magic ++ (n % 256 ∷ n / 256 % 256 ∷ n / 65536 % 256 ∷ n / 16777216 ∷ encode cs)

module _ {S : Type 0} (answer : S → Header → Bytes → Result (S × Bytes)) (max_arg : ℕ)
    (buffers : ℕ → Bool) where
  -- The argument of the record number `k`.
  unfoldable pub load_arg : ℕ → ℕ → Bytes → Option (Bytes × Bytes)
  load_arg k len file =
      if len == 0 then some ([], file) else if buffers k then cut len file else none

  -- The loop over the records: `rounds` are left, and the next is the number `k`.
  unfoldable pub replay_records : ℕ → ℕ → S → Bytes → Result (S × Bytes)
  replay_records zero k s file = ok (s, [])
  replay_records (suc rounds) k s file = elim (cut 8 file) [
    | none ↦ ok (s, [])
    | some (head, file) ↦
        let r = header_of head in
        if ltb max_arg r.arg_len then ok (s, []) else elim (load_arg k r.arg_len file) [
          | none ↦ ok (s, [])
          | some (arg, file) ↦ (do
            (s, out) ← answer s r arg
            (s, outs) ← replay_records rounds (suc k) s file
            ok (s, out ++ outs))
        ]
  ]

  -- The part behind the magic number and the count.
  unfoldable pub replay_counted : ℕ → S → Bytes → Result (ℕ × Bytes)
  replay_counted count s file =
      if ltb max_records count
      then ok (1, [])
      else (do (s, out) ← replay_records count 0 s file; ok (0, out))

  -- wmain, from the opened file on
  unfoldable pub replay : Bytes → S → Bytes → Result (ℕ × Bytes)
  unfolding replay_counted
  replay magic s file = elim (cut 8 file) [
    | none ↦ ok (1, [])
    | some (head, rest) ↦
        if same (take 4 head) magic
        then replay_counted (rd_u32 (drop 4 head)) s rest
        else ok (1, [])
  ]

  module _ (granted : (k : ℕ) → buffers k ≡ true) where
    load_arg-cut : (k len : ℕ) (file : Bytes) → load_arg k len file ≡ cut len file
    unfolding load_arg
    load_arg-cut k len file = elim (ℕ_discrete len 0) [
      | yes nothing ↦ rw nothing (sym (cut-zero file))
      | no something ↦ rw (ne→== len 0 something, granted k)
    ]

    replay_records-encode :
        (k : ℕ) (s : S) (cs : List Call)
        → Admitted answer max_arg cs
        → replay_records (length cs) k s (encode cs) ≡ run_calls answer max_arg s cs
    unfolding replay_records run_calls encode
    replay_records-encode k s [] a = refl
    replay_records-encode k s (c ∷ cs) a =
        let file = encode_onto c (encode cs) in
        let size = length-encode_onto c (encode cs) in
        let there : leb 8 (length file) ≡ true = le→leb 8 (length file) (omega (arith, size)) in
        let arg_there : leb (length c.arg) (length (c.arg ++ encode cs)) ≡ true =
          le→leb _ _ (omega (arith, length-append c.arg (encode cs))) in
        rw
          (
            replay_records,
            there,
            header_of-encode_onto c (encode cs),
            drop-encode_onto c (encode cs),
            ge→ltb max_arg (length c.arg) a.0,
            load_arg-cut k (length c.arg) (c.arg ++ encode cs),
            arg_there,
            take-length-append c.arg (encode cs),
            drop-length-append c.arg (encode cs),
          )
          (rw (header_of-encode_onto c (encode cs)) (
            bind_cong (answer s (header c) c.arg)
              (λ (s', out). rw (replay_records-encode (suc k) s' cs a.1))))

    -- A recording of at most 65536 requests within the limit, under the tool's magic number of four
    -- characters, is replayed as the calls one after the other, and the tool prints what they print
    -- and ends with the exit code 0, provided that the argument buffers are granted.
    pub replay-recorded :
        (magic : Bytes) (s : S) (cs : List Call)
        → length magic ≡ 4
        → length cs ≤ max_records
        → Admitted answer max_arg cs
        → replay magic s (recorded magic cs)
          ≡ (run_calls answer max_arg s cs >>= λ (s', out). ok (0, out))
    unfolding replay replay_counted recorded rd_u32
    replay-recorded [] s cs four few a = absurd (omega (arith, four))
    replay-recorded (m ∷ []) s cs four few a = absurd (omega (arith, four))
    replay-recorded (m ∷ i ∷ []) s cs four few a = absurd (omega (arith, four))
    replay-recorded (m ∷ i ∷ j ∷ []) s cs four few a = absurd (omega (arith, four))
    replay-recorded (m ∷ i ∷ j ∷ k ∷ x ∷ more) s cs four few a = absurd (omega (arith, four))
    replay-recorded (m ∷ i ∷ j ∷ k ∷ []) s cs four few a =
        let n = length cs in
        let file = recorded (m ∷ i ∷ j ∷ k ∷ []) cs in
        let there : leb 8 (length file) ≡ true = le→leb 8 (length file) (omega arith) in
        let count : n % 256 + 256 * (n / 256 % 256 + 256 * (n / 65536 % 256 + 256 * (n / 16777216)))
            ≡ n =
          omega arith in
        rw (
          replay,
          there,
          same_refl (m ∷ i ∷ j ∷ k ∷ []),
          count,
          ge→ltb max_records n few,
          replay_records-encode 0 s cs a,
        )
