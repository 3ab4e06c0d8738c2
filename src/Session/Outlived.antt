-- ===== src/Session/Outlived.antt =====
-- The deferred-write batch: SessFlush after a session that the batch leads to has been closed.
use Prim.Native.Nat.{min}
use bug_museum.Base.{
  ℕ, ◌≤◌, ◌<◌, ◌≡◌, ◌≢◌, ◌⊎◌, inl, inr, sym, List, [], ◌∷◌, arith, length, take, length-take, ne→==,
}
use native.Mathlib.Decide.{ℕ_discrete}
use bug_museum.Memory.Fault.{ok, fault, use_after_free}
use bug_museum.Memory.Bytes.{Bytes, splice, length-splice, blit-ok}
use bug_museum.Memory.Heap.{
  Ptr, null, released, live, Heap, put, assign-live, deref-live, deref-released,
}
use bug_museum.Session.Types.{Object, bytes, Store, sess_max, bytes_at}
use bug_museum.Session.Store.{flush, flush_batch}
use bug_museum.Session.Invariant.{Owns}
use bug_museum.Session.Safety.{AllCaptured, IsSafe}
use bug_museum.Session.Closes.{closed}
use bug_museum.Session.Batch.{holder}

bytes_at-released :
    (h : Heap Object) (p : Ptr)
    → p ≢ null
    → h.cell p ≡ released
    → bytes_at h p ≡ fault use_after_free
unfolding bytes_at
bytes_at-released h p ne e = rw (deref-released h p ne e)

bytes_at-live :
    (h : Heap Object) (p : Ptr) {b : Bytes}
    → p ≢ null
    → h.cell p ≡ live (bytes b)
    → bytes_at h p ≡ ok b
unfolding bytes_at
bytes_at-live h p ne e = rw (deref-live h p ne e)

-- Each captured block is live and large enough, or has been released.
abbrev Entry : Heap Object → Ptr → ℕ → Type 0
Entry h d len =
    (d ≢ null)
    × ((h.cell d ≡ released) ⊎ ((b : Bytes) × (h.cell d ≡ live (bytes b)) × (len ≤ length b)))

abbrev Entries : Heap Object → List (Ptr × ℕ) → Type 0
Entries h [] = Unit {0}
Entries h ((d, len) ∷ rest) = Entry h d len × Entries h rest

-- Some captured pointer is the address `d`.
abbrev pub Aimed : Ptr → List (Ptr × ℕ) → Type 0
Aimed d [] = ⊥
Aimed d ((p, len) ∷ rest) = (p ≡ d) ⊎ Aimed d rest

-- A write into a live block leaves the state of every entry as it was.
module _ (h : Heap Object) (d : Ptr) {b : Bytes} (here : h.cell d ≡ live (bytes b)) (b' : Bytes)
    (size : length b' ≡ length b) where
  abbrev overwritten : Heap Object
  overwritten = record h { cell = put h.cell d (live (bytes b')) }

  Entry-overwritten : (p len : ℕ) → Entry h p len → Entry overwritten p len
  Entry-overwritten p len (ne, st) = (
    ne,
    elim (ℕ_discrete p d) [
      | yes same ↦ inr (
        b',
        ground arith,
        elim st [
          | inl gone ↦ ground (arith, gone, here)
          | inr (b'', here', fit) ↦ ground (arith, here, here', fit, size)
        ],
      )
      | no other ↦ rw (ne→== p d other) st
    ],
  )

  Entries-overwritten : (batch : List (Ptr × ℕ)) → Entries h batch → Entries overwritten batch
  Entries-overwritten [] c = tt
  Entries-overwritten ((p, len) ∷ rest) c =
      (Entry-overwritten p len c.0, Entries-overwritten rest c.1)

flush_batch-faults :
    (batch : List (Ptr × ℕ)) (h : Heap Object) (arg : Bytes) (d : Ptr)
    → Entries h batch
    → h.cell d ≡ released
    → Aimed d batch
    → flush_batch h batch arg ≡ fault use_after_free
unfolding flush_batch
flush_batch-faults [] h arg d c gone aim = elim aim [ ]
flush_batch-faults ((p, len) ∷ rest) h arg d c gone aim = elim c.0.1 [
  | inl gone' ↦ rw (bytes_at-released h p c.0.0 gone')
  | inr (b, here, fit) ↦
      let n = min (length arg) len in
      let small : length (take n arg) ≤ length b = omega (arith, length-take n arg) in
      let b' = splice b 0 (take n arg) in
      let size : length b' ≡ length b = length-splice b 0 (take n arg) (omega arith) in
      let h' = record h { cell = put h.cell p (live (bytes b')) } in
      let other : p ≢ d = ground (arith, here, gone) in
      rw
        (
          bytes_at-live h p c.0.0 here,
          blit-ok b 0 (take n arg) (omega arith),
          assign-live h p c.0.0 {a = bytes b} (bytes b') here,
        )
        (flush_batch-faults rest h' arg d (Entries-overwritten h p here b' size rest c.1)
          (rw (ne→== d p (λ e. other (sym e))) gone)
          (elim aim [ inl same ↦ absurd (other same) | inr later ↦ later ]))
]

module _ {s : Store} (v : IsSafe s) (id : ℕ) (lt : id < sess_max)
    (o : Owns s.heap v.sound.owner id (s.slots id)) where
  Entries-closed :
      (batch : List (Ptr × ℕ))
      → AllCaptured s.heap s.slots batch
      → Entries (closed s id o.content).heap batch
  Entries-closed [] c = tt
  Entries-closed ((d, len) ∷ rest) c =
      let (i, ilt, o', aim, within) = holder v d len c.0 in
      (
        (
          ground (arith, o'.bytes_ne_null, aim),
          elim (ℕ_discrete d o.content.bytes) [
            | yes same ↦ inl (ground arith)
            | no other ↦
                inr (o'.space, ground (arith, o'.bytes_here, aim, o.here), omega (arith, o'.sized))
          ],
        ),
        Entries-closed rest c.1,
      )

  -- A flush after closing a session whose block was captured writes into the released block.
  pub close_captured-faults :
      Aimed o.content.bytes s.batch
      → (arg : Bytes) → flush (closed s id o.content) arg ≡ fault use_after_free
  unfolding flush
  close_captured-faults aim arg = rw (
      flush_batch-faults s.batch (closed s id o.content).heap arg o.content.bytes
        (Entries-closed s.batch v.captured) (ground (arith, o.here, o.bytes_here)) aim)
