-- ===== src/Cache/Snapshots.antt =====
-- heap-overflow/capstone/src/cachecore/cachecore.c: CacheDecodeId on the identifiers that
-- heap-overflow/capstone/src/cacheload/cacheload.c reads from a snapshot.
use bug_museum.Base.{
  suc, ◌≤◌, ◌<◌, ◌≡◌, true, arith, ltb, if◌then◌else◌, length, tabulate_from, le_or_lt, inl, inr,
  lt→ltb, ge→ltb, length-tabulate_from,
}
use bug_museum.Memory.Fault.{fault, over_read, overflow}
use bug_museum.Memory.Bytes.{Bytes}
use bug_museum.Memory.Loop.{copy_loop-over_read, copy_loop-overflow}
use bug_museum.Cache.Types.{Cache}
use bug_museum.Cache.Store.{decode_id}

module _ (c : Cache) (id : Bytes) (granted : c.grants c.requests ≡ true) where
  -- The loop runs one round too far: up to sixteen bytes, it reads behind the identifier.
  decode_id-short : length id ≤ 16 → decode_id c id (length id) ≡ fault over_read
  unfolding decode_id
  decode_id-short short =
      let block = tabulate_from 0 16 (c.junk c.requests) in
      let room = length-tabulate_from 0 16 (c.junk c.requests) in
      let count : (if ltb (length id) 16 then length id else 16) ≡ length id =
        ground (arith, short) in
      rw (
        decode_id,
        granted,
        count,
        copy_loop-over_read (suc (length id)) 0 block id (omega arith) (omega arith)
            (omega (arith, room, short)),
      )

  -- Above, it writes behind the block of sixteen bytes.
  decode_id-long : 16 < length id → decode_id c id (length id) ≡ fault overflow
  unfolding decode_id
  decode_id-long long =
      let block = tabulate_from 0 16 (c.junk c.requests) in
      let room = length-tabulate_from 0 16 (c.junk c.requests) in
      rw (
        decode_id,
        granted,
        ge→ltb (length id) 16 (omega arith),
        copy_loop-overflow 17 0 block id (omega arith) (omega (arith, room)) (omega (arith, room)),
      )

-- CacheDecodeId on an identifier whose bytes are all that its block holds faults, whenever its buffer
-- is granted.
pub decode_id-faults :
    (c : Cache) (id : Bytes)
    → c.grants c.requests ≡ true
    → decode_id c id (length id) ≡ fault (if ltb 16 (length id) then overflow else over_read)
decode_id-faults c id granted = elim (le_or_lt (length id) 16) [
  | inl short ↦ rw (ge→ltb 16 (length id) short) (decode_id-short c id granted short)
  | inr long ↦ rw (lt→ltb 16 (length id) long) (decode_id-long c id granted long)
]
