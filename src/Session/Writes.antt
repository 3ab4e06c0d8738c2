-- ===== src/Session/Writes.antt =====
-- The operations that write through a resolved session: what they leave in its two blocks, and that
-- the store stays sound.
use Prim.Native.Nat.{min}
use bug_museum.Base.{
  ℕ, suc, ◌+◌, ◌-◌, ◌%◌, ◌≤◌, ◌<◌, ◌^◌, ◌≡◌, ◌≢◌, refl, sym, ◌∙◌, ap, true, false, arith, length,
  take, length-take, length-append, length-tabulate_from, tabulate_from, ge→ltb, lt→ltb, ne→==,
}
use bug_museum.Memory.Fault.{ok, fault, ◌>>=◌, Returns, use_after_free}
use bug_museum.Memory.Bytes.{Bytes, splice, blit-ok}
use bug_museum.Memory.Heap.{
  regrown, Ptr, unmapped, live, Heap, put, assign, free, deref, realloc, malloc, resized,
}
use bug_museum.Session.Types.{Session, Object, session, bytes, bytes_at}
use bug_museum.Session.Store.{overwrite, append_at, append_to, append_grow, append_need}
use bug_museum.Session.Invariant.{Owns, session_at-ok, bytes_at-ok}

-- `h'` is `h` with the session `x` at `p` and the bytes `b` in its data block.
pub record Rewritten (h h' : Heap Object) (p : Ptr) (x : Session) (b : Bytes) : Type 0 where
  pub session_here : h'.cell p ≡ live (session x)
  pub bytes_here : h'.cell x.bytes ≡ live (bytes b)
  pub same : (q : Ptr) → q ≢ p → q ≢ x.bytes → h'.cell q ≡ h.cell q
  pub issued : h.requests ≤ h'.requests

module _ {h : Heap Object} {owner : Ptr → ℕ} {i : ℕ} {p : Ptr} (o : Owns h owner i p) where
  unfoldable pub Rewritten-Owns :
      {h' : Heap Object} {x : Session} {b : Bytes}
      → Rewritten h h' p x b
      → x.id ≡ i
      → x.bytes ≡ o.content.bytes
      → length b ≡ x.cap
      → x.len ≤ x.cap
      → Owns h' owner i p
  Rewritten-Owns {x} {b} r e d size fit = record {
    content = x;
    space = b;
    ne_null = o.ne_null;
    here = r.session_here;
    numbered = e;
    bytes_ne_null = λ none. o.bytes_ne_null (sym d ∙ none);
    bytes_here = r.bytes_here;
    sized = size;
    fits = fit;
    owned = ap owner d ∙ o.owned;
  }

  -- Both writes of a data block and its session succeed.
  write_back :
      (x : Session) (b : Bytes)
      → x.bytes ≡ o.content.bytes
      → Returns
          (λ h'. Rewritten h h' p x b)
          (assign h o.content.bytes (bytes b) >>= λ h'. assign h' p (session x))
  unfolding assign
  write_back x b d =
      let d' = o.content.bytes in
      (
        record h { cell = put (put h.cell d' (live (bytes b))) p (live (session x)) },
        ground (arith, o.here, o.bytes_here, o.ne_null, o.bytes_ne_null),
        record {
          session_here = ground arith;
          bytes_here = ground (arith, o.here, o.bytes_here);
          same = λ q ne ne'. ground arith;
          issued = omega arith;
        },
      )

  pub overwrite-Rewritten :
      (arg : Bytes)
      → let x = o.content in
        let n = min (length arg) x.cap in
        Returns
          (λ h'. Rewritten h h' p (record x { len = n }) (splice o.space 0 (take n arg)))
          (overwrite h p arg)
  unfolding overwrite
  overwrite-Rewritten arg =
      let n = min (length arg) o.content.cap in
      let room : length (take n arg) ≤ length o.space = omega (arith, length-take n arg, o.sized) in
      rw (session_at-ok o, bytes_at-ok o, blit-ok o.space 0 (take n arg) (omega arith))
        (write_back (record o.content { len = n }) (splice o.space 0 (take n arg)) refl)

  pub append_at-Rewritten :
      (arg : Bytes) (need : ℕ)
      → let x = o.content in
        x.len + length arg ≤ x.cap
        → Returns
            (λ h'. Rewritten h h' p (record x { len = need }) (splice o.space x.len arg))
            (append_at h p x x.bytes arg need)
  unfolding append_at
  append_at-Rewritten arg need room =
      rw (bytes_at-ok o, blit-ok o.space o.content.len arg (omega (arith, o.sized)))
        (write_back (record o.content { len = need }) (splice o.space o.content.len arg) refl)

module _ {h : Heap Object} {owner : Ptr → ℕ} {i : ℕ} {p : Ptr} (o : Owns h owner i p) where
  module _ (arg : Bytes) (small : o.content.len + length arg < 2 ^ 32) where
    abbrev need : ℕ
    need = o.content.len + length arg

    append_to-need : append_to h p arg ≡ append_need h p o.content arg need
    unfolding append_to
    append_to-need = let e : need % 2 ^ 32 ≡ need = omega arith in rw (session_at-ok o, e)

    -- An append that fits in the block writes behind the bytes in use.
    pub append_to-fits :
        need ≤ o.content.cap
        → Returns
            (λ (h', done).
              (done ≡ true)
              × Rewritten h h' p
                  (record o.content { len = need })
                  (splice o.space o.content.len arg))
            (append_to h p arg)
    unfolding append_need
    append_to-fits room =
        let (h', run, r) = append_at-Rewritten o arg need room in
        rw (append_to-need, ge→ltb o.content.cap need room, run) ((h', true), refl, (refl, r))

    module _ (grows : o.content.cap < need) where
      append_to-grow : append_to h p arg ≡ append_grow h p o.content arg need
      unfolding append_need
      append_to-grow = rw (append_to-need, lt→ltb o.content.cap need grows)

      grown : Heap Object
      grown = record h {
        cell = put h.cell o.content.bytes (live (bytes (regrown h o.space need)));
        requests = suc h.requests;
      }

      realloc-in_place :
          h.grants h.requests ≡ true
          → h.moves h.requests ≡ false
          → realloc h o.content.bytes (bytes (regrown h o.space need)) ≡ ok (grown, o.content.bytes)
      unfolding realloc free resized grown
      realloc-in_place granted stays = ground (arith, o.bytes_here, o.bytes_ne_null)

      -- A growth that the allocator refuses changes no block.
      pub append_to-refused :
          h.grants h.requests ≡ false
          → append_to h p arg ≡ ok (record h { requests = suc h.requests }, false)
      unfolding append_grow realloc free resized
      append_to-refused refused =
          rw (append_to-grow, bytes_at-ok o) (ground (arith, o.bytes_here, o.bytes_ne_null))

      -- One that moves the block writes through the pointer from before the move.
      pub append_to-moved :
          h.cell (suc h.requests) ≡ unmapped
          → h.grants h.requests ≡ true
          → h.moves h.requests ≡ true
          → append_to h p arg ≡ fault use_after_free
      unfolding append_grow realloc free resized malloc assign append_at bytes_at deref
      append_to-moved unused granted moved =
          rw (append_to-grow, append_grow, bytes_at-ok o)
            (ground (arith, o.bytes_here, o.bytes_ne_null, o.here, o.ne_null))

      enlarged : Session
      enlarged = record o.content { cap = need }

      relinked : Heap Object
      unfolding grown enlarged
      relinked = record grown { cell = put grown.cell p (live (session enlarged)) }

      pub length-regrown : length (regrown h o.space need) ≡ need
      length-regrown =
          let b = o.space in
          let more = tabulate_from (length b) (need - length b) (h.junk h.requests) in
          omega (
            arith,
            o.sized,
            length-append (take need b) more,
            length-take need b,
            length-tabulate_from (length b) (need - length b) (h.junk h.requests),
          )

      assign-relinked : assign grown p (session enlarged) ≡ ok relinked
      unfolding assign relinked
      assign-relinked = ground (arith, o.here, o.ne_null, o.bytes_here)

      relinked-Owns : Owns relinked owner i p
      unfolding relinked
      relinked-Owns = record {
        content = enlarged;
        space = regrown h o.space need;
        ne_null = o.ne_null;
        here = ground arith;
        numbered = o.numbered;
        bytes_ne_null = o.bytes_ne_null;
        bytes_here = ground (arith, o.here, o.bytes_here);
        sized = length-regrown;
        fits = omega (arith, o.fits);
        owned = o.owned;
      }

      -- One that grows the block in place appends.
      pub append_to-in_place :
          h.grants h.requests ≡ true
          → h.moves h.requests ≡ false
          → Returns
              (λ (h', done).
                (done ≡ true)
                × Rewritten h h' p
                    (record o.content { len = need; cap = need })
                    (splice (regrown h o.space need) o.content.len arg))
              (append_to h p arg)
      unfolding append_grow relinked relinked-Owns enlarged
      append_to-in_place granted stays =
          let (h', run, r) = append_at-Rewritten relinked-Owns arg need (omega arith) in
          rw
            (
              append_to-grow,
              bytes_at-ok o,
              realloc-in_place granted stays,
              ne→== _ _ o.bytes_ne_null,
              assign-relinked,
              run,
            )
            (
              (h', true),
              refl,
              (
                refl,
                record {
                  session_here = r.session_here;
                  bytes_here = r.bytes_here;
                  same = λ q ne ne'. ground (arith, r.same q);
                  issued = omega (arith, r.issued);
                },
              ),
            )
