-- ===== src/Config/Bounds.antt =====
-- stack-overflow/capstone/src/cfgcore/cfgcore.c: which inputs the fixed buffers on the stack take.
use native.Mathlib.Nat.{zero-add}
use bug_museum.Base.{
  length-set, ℕ, suc, ◌+◌, ◌≤◌, ◌<◌, ◌≡◌, refl, ap, sym, ◌∙◌, none, some, List, [], ◌∷◌, ◌++◌,
  arith, lt→ltb, ge→ltb, length, set, drop, tabulate_from, length-tabulate_from, length-append,
}
use bug_museum.Memory.Fault.{ok, fault, overflow, over_read, Returns}
use bug_museum.Memory.Bytes.{
  length-splice, Bytes, blit-ok, blit-overflow, splice, padded, length-padded, padded-length,
  strcpy, strncpy, store-ok, c_string,
}
use bug_museum.Memory.Loop.{copy_loop-overflow, copy_loop-over_read}
use bug_museum.Text.{codes, decimal}
use bug_museum.Config.Strings.{
  Lacks, text_of-plain, c_string-append, c_string-closed, set-append, c_string-padded,
}
use bug_museum.Config.Lookups.{IsFirstNamed, find_entry-IsFirstNamed}
use bug_museum.Config.Templates.{Unreferenced, resolve_template-literal}
use bug_museum.Config.Types.{Entry}
use bug_museum.Config.Parse.{decode_field}
use bug_museum.Config.Query.{
  find_entry, normalize_key, lookup, format_label, reply_line, expand_template,
}

-- decode_field overflows its array for every integer value of at least sixteen bytes, when another
-- byte follows in the blob; a value at the very end of the blob, of at most fifteen bytes, is read one
-- byte past the end.
pub decode_field-faults :
    (junk : ℕ → ℕ) (atoi64 : Bytes → ℕ) (src : Bytes) (value_len : ℕ)
    → (16 ≤ value_len → 17 ≤ length src → decode_field junk atoi64 src value_len ≡ fault overflow)
      × (value_len ≤ 15
          → length src ≡ value_len
          → decode_field junk atoi64 src value_len ≡ fault over_read)
unfolding decode_field
decode_field-faults junk atoi64 src value_len =
    let n = length-tabulate_from 0 16 junk in
    (
      (λ long more. rw (
        ge→ltb value_len 16 long,
        copy_loop-overflow 17 0 (tabulate_from 0 16 junk) src (omega arith) (omega arith)
            (omega arith),
      )),
      (λ short last. rw (
        lt→ltb value_len 16 (omega arith),
        copy_loop-over_read (suc value_len) 0 (tabulate_from 0 16 junk) src (omega arith)
            (omega arith) (omega arith),
      )),
    )

module _ (junk : ℕ → ℕ) where
  normalize_key-full :
      (key : Bytes)
      → length key ≡ 31
      → normalize_key key (tabulate_from 0 32 junk) ≡ ok (key ++ 0 ∷ [])
  unfolding normalize_key strncpy
  normalize_key-full key full =
      let buf = tabulate_from 0 32 junk in
      let copied : splice buf 0 key ≡ key ++ junk 31 ∷ [] =
        ap (λ n. key ++ drop n buf) (zero-add (length key) ∙ full) in
      let room : 31 < length (key ++ junk 31 ∷ []) =
        omega (arith, length-append key (junk 31 ∷ [])) in
      let ended : set (key ++ junk 31 ∷ []) 31 0 ≡ key ++ 0 ∷ [] =
        ap (λ n. set (key ++ junk 31 ∷ []) n 0) (sym full) ∙ set-append key (junk 31) 0 [] in
      rw (
        lt→ltb (length key) 64 (omega arith),
        padded-length key,
        blit-ok buf 0 key (omega arith),
        copied,
        store-ok (key ++ junk 31 ∷ []) 31 0 room,
        ended,
      )

  -- The lookup of a key of 31 characters, none of them a NUL, returns the first entry of the profile
  -- with exactly that name, and none when no entry has it; one of 33 to 63 characters overflows the
  -- normalised key.
  pub lookup-by_length :
      (p : List Entry) (key : Bytes)
      → Lacks 0 key
      → (length key ≡ 31 → Returns (IsFirstNamed key p) (lookup junk p key))
        × (32 < length key → length key < 64 → lookup junk p key ≡ fault overflow)
  unfolding lookup normalize_key strncpy
  lookup-by_length p key plain = (
    (λ full.
        rw (normalize_key-full key full, c_string-append key [] plain)
          (find_entry p key, refl, find_entry-IsFirstNamed p key)),
    (λ long short. rw (
      lt→ltb (length key) 64 short,
      blit-overflow (tabulate_from 0 32 junk) 0 (padded key (length key))
          (omega (arith, length-padded key (length key))),
    )),
  )

  -- A label is printed for every name of at most 31 characters; any longer name, which the reader
  -- accepts up to 1024, overflows the label.
  pub format_label-exact :
      (e : Entry)
      → Lacks 0 e.name
      → (length e.name < 32
          → format_label junk e
            ≡ ok (
                codes "["
                ++ (e.name
                    ++ (codes "] type="
                        ++ (decimal e.kind ++ (codes " len=" ++ decimal e.value_len))))))
        × (32 ≤ length e.name → format_label junk e ≡ fault overflow)
  unfolding format_label strcpy
  format_label-exact e plain =
      let buf = tabulate_from 0 32 junk in
      let src = e.name ++ 0 ∷ [] in
      let n : length src ≡ suc (length e.name) = omega (arith, length-append e.name (0 ∷ [])) in
      (
        (λ short. rw (
          text_of-plain e.name plain,
          blit-ok buf 0 src (omega arith),
          c_string-closed e.name (drop (0 + length src) buf) plain,
        )),
        (λ long. rw (text_of-plain e.name plain, blit-overflow buf 0 src (omega arith))),
      )

  -- The same for the line that a template is resolved to: 127 characters at most.
  reply_line-exact :
      (resolved out : Bytes)
      → Lacks 0 resolved
      → length out ≡ 256
      → (length resolved < 128
          → Returns
              (λ reply. (length reply ≡ 256) × (c_string reply ≡ ok resolved))
              (reply_line junk resolved out))
        × (128 ≤ length resolved → reply_line junk resolved out ≡ fault overflow)
  unfolding reply_line strcpy strncpy
  reply_line-exact resolved out plain size =
      let buf = tabulate_from 0 128 junk in
      let src = resolved ++ 0 ∷ [] in
      let n : length src ≡ suc (length resolved) = omega (arith, length-append resolved (0 ∷ [])) in
      let reply = splice out 0 (padded resolved 255) in
      let m = length-padded resolved 255 in
      let k : length reply ≡ 256 = length-splice out 0 (padded resolved 255) (omega arith) ∙ size in
      (
        (λ short.
            rw
              (
                text_of-plain resolved plain,
                blit-ok buf 0 src (omega arith),
                c_string-closed resolved (drop (0 + length src) buf) plain,
                blit-ok out 0 (padded resolved 255) (omega arith),
                store-ok reply 255 0 (omega arith),
              )
              (
                set reply 255 0,
                refl,
                (
                  length-set reply 255 0 ∙ k,
                  c_string-padded resolved 255 255 (drop (0 + length (padded resolved 255)) out)
                      plain (omega arith) (omega arith),
                ),
              )),
        (λ long. rw (text_of-plain resolved plain, blit-overflow buf 0 src (omega arith))),
      )

-- A template in which no `${` has a `}` behind it, and which has no NUL, is answered with its own text,
-- in the 256 bytes of the reply buffer, when it has at most 127 characters; from 128 to 511 it
-- overflows the line, although the reply buffer takes 255.
pub expand_template-literal :
    (junk : ℕ → ℕ) (p : List Entry) (e : Entry) (s out : Bytes)
    → e.value ≡ some s
    → Unreferenced s
    → Lacks 0 s
    → length out ≡ 256
    → (length s < 128
        → Returns
            (λ (reply, error). (length reply ≡ 256) × (c_string reply ≡ ok s) × (error ≡ none))
            (expand_template junk p (some e) out))
      × (128 ≤ length s → length s ≤ 511 → expand_template junk p (some e) out ≡ fault overflow)
unfolding expand_template
expand_template-literal junk p e s out has literal plain size =
    let (short_lines, long_lines) = reply_line-exact junk s out plain size in
    (
      (λ short.
          let (reply, run, n) = short_lines short in
          rw
            (
              has,
              resolve_template-literal (length s) p s [] literal (omega arith) (omega arith),
              run,
            )
            ((reply, none), refl, (n.0, n.1, refl))),
      (λ long fits. rw (
        has,
        resolve_template-literal (length s) p s [] literal (omega arith) (omega arith),
        long_lines long,
      )),
    )
