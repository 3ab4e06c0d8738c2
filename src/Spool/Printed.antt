-- ===== src/Spool/Printed.antt =====
-- double-free/capstone/src/spoolcore/spoolcore.c: JobSubmit, JobAppend and JobRender one after another.
use bug_museum.Base.{
  ℕ, ◌+◌, ◌≤◌, ◌<◌, ◌≡◌, ◌≢◌, sym, ap, ◌∙◌, ◌⊎◌, inl, inr, true, some, ◌++◌, arith, length, take,
}
use bug_museum.Memory.Fault.{ok, Returns, Returns-result}
use bug_museum.Memory.Bytes.{Bytes}
use bug_museum.Spool.Filters.{Filter, run_filter}
use bug_museum.Spool.Types.{Job, queued, Store, spool_max, spool_recent, enc_max_doc}
use bug_museum.Spool.Store.{submit}
use bug_museum.Spool.Jobs.{render, append}
use bug_museum.Spool.Pump.{Borrows}
use bug_museum.Spool.View.{View, Entry, with_entry, with_entry-same}
use bug_museum.Spool.Resolves.{render-IsSound}
use bug_museum.Spool.Appends.{Stays, append-IsSound}
use bug_museum.Spool.Fresh.{SoundFor}
use bug_museum.Spool.Submits.{submit-IsSound}
use bug_museum.Spool.Calls.{Resolves}

-- The job `id` has the filter and the document of `e`.
abbrev Holds : Store → ℕ → Entry → Type 0
Holds s id e = (m : View) × (id < spool_max) × (m id ≡ some e) × SoundFor m s

submit-Holds :
    {m : View} {s s' : Store} (v : SoundFor m s) (fmt : ℕ) (f : Filter) (init : Bytes) {id : ℕ}
    → Borrows f
    → submit s fmt (some f) init ≡ ok (s', some id)
    → Holds s' id (record { state = queued; filter = f; document = take enc_max_doc init })
submit-Holds {m} (owner, (js, v)) fmt f init {id} borrows submitted =
    elim (Returns-result (submit-IsSound v fmt f init borrows) submitted) [
      | inl (refused, _, _) ↦ cc refused
      | inr (n, lt, _, given, w) ↦
          let same : n ≡ id = cc given in
          let new : Entry = record {
            state = queued;
            filter = f;
            document = take enc_max_doc init;
          } in
          (
            with_entry m n (some new),
            omega (arith, same),
            ap (with_entry m n (some new)) (sym same) ∙ with_entry-same m n (some new),
            w,
          )
    ]

append-Holds :
    {s s' : Store} {id : ℕ} {e : Entry}
    → Holds s id e
    → (arg : Bytes) → ((x : Job) → Resolves s id x → (x.len + length arg ≤ x.cap) ⊎ Stays s.heap)
    → append s id arg ≡ ok (s', true)
    → Holds s' id (record e { document = e.document ++ arg })
append-Holds {s' = s'} {id} {e} (m, lt, at, (owner, (js, v))) arg may appended =
    let plain : id ≢ spool_recent = omega arith in
    elim (Returns-result (append-IsSound v id arg may) appended) [
      | inl (_, refused, _) ↦ cc refused
      | inr (_, _, _, inr (refused, _, _)) ↦ cc refused
      | inr (i, e', (it, at'), inl (_, (js', w))) ↦
          let here : i ≡ id = it plain in
          let same : e' ≡ e = cc (at', ap m here, at) in
          let new : Entry = record e' { document = e'.document ++ arg } in
          (
            with_entry m i (some new),
            lt,
            ap (with_entry m i (some new)) (sym here)
                ∙ with_entry-same m i (some new)
                ∙ ap (λ (e : Entry). some (record e { document = e.document ++ arg })) same,
            (owner, (js', w)),
          )
    ]

render-Holds :
    {s : Store} {id : ℕ} {e : Entry}
    → Holds s id e
    → (out_cap : ℕ)
    → Returns (λ r. r.1 ≡ some (run_filter e.filter e.document out_cap)) (render s id out_cap)
render-Holds {s} {id} {e} (m, lt, at, (owner, (js, v))) out_cap =
    let (r, run, w) = render-IsSound v id out_cap in
    let plain : id ≢ spool_recent = omega arith in
    (
      r,
      run,
      elim w [
        | inl (gone, _, _) ↦ elim (gone plain) [
          | inl outside ↦ absurd (omega arith)
          | inr nothing ↦ cc (nothing, at)
        ]
        | inr (i, e', (it, at'), out, _) ↦
            let same : some e' ≡ some e = sym at' ∙ ap m (it plain) ∙ at in
            let same' : e' ≡ e = cc same in
            out ∙ ap (λ (e : Entry). some (run_filter e.filter e.document out_cap)) same'
      ],
    )

-- A document that has been submitted to a store that stands for a map, with a filter that borrows it, is
-- what its job prints: JobRender on the number that JobSubmit returned gives the filter's preview of the
-- document, cut to ENC_MAX_DOC bytes.
pub submit-render :
    {m : View} {s s' : Store} (v : SoundFor m s) (fmt : ℕ) (f : Filter) (init : Bytes) {id : ℕ}
    (out_cap : ℕ)
    → Borrows f
    → submit s fmt (some f) init ≡ ok (s', some id)
    → Returns
        (λ r. r.1 ≡ some (run_filter f (take enc_max_doc init) out_cap))
        (render s' id out_cap)
submit-render v fmt f init out_cap borrows submitted =
    render-Holds (submit-Holds v fmt f init borrows submitted) out_cap

-- What JobAppend has accepted in between, within the capacity of the document or where realloc does not
-- move it, is printed behind the document.
pub append-render :
    {m : View} {s s' s'' : Store} (v : SoundFor m s) (fmt : ℕ) (f : Filter) (init : Bytes) {id : ℕ}
    (arg : Bytes) (out_cap : ℕ)
    → Borrows f
    → submit s fmt (some f) init ≡ ok (s', some id)
    → ((x : Job) → Resolves s' id x → (x.len + length arg ≤ x.cap) ⊎ Stays s'.heap)
    → append s' id arg ≡ ok (s'', true)
    → Returns
        (λ r. r.1 ≡ some (run_filter f (take enc_max_doc init ++ arg) out_cap))
        (render s'' id out_cap)
append-render v fmt f init arg out_cap borrows submitted may appended =
    render-Holds (append-Holds (submit-Holds v fmt f init borrows submitted) arg may appended)
      out_cap
