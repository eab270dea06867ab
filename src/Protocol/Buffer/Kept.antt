-- ===== src/Protocol/Buffer/Kept.antt =====
-- What the bounded buffer of pkg/protocol/protocol.go keeps of a run of writes.
use uni_chat_sdk.Prelude.{
  ℕ, ◌+◌, ◌-◌, ◌≤◌, ltb, leb, Bytes, Bool, true, false, ◌||◌, ◌≡◌, List, [], ◌∷◌, ◌++◌, length,
  take, length-append, length-take, take-append_short, take-append_long, take_all, arith, ◌∙◌, sym,
  Bool-cases, inl, inr,
}
use mathlib.Core.List.{append_assoc, append-nil}
use uni_chat_sdk.Protocol.Buffer.{BoundedBuffer, new_bounded_buffer, write, write_all}

unfoldable pub concat : List Bytes → Bytes
concat [] = []
concat (p ∷ ps) = p ++ concat ps

-- A write that begins when the buffer is full marks it truncated, were it empty.
unfoldable pub overflows : ℕ → ℕ → List Bytes → Bool
overflows limit written [] = false
overflows limit written (p ∷ ps) =
    leb limit written || ltb limit (written + length p) || overflows limit (written + length p) ps

-- The buffer that `new_bounded_buffer limit` becomes by writing `all`.
IsKept : ℕ → Bytes → BoundedBuffer → Type 0
IsKept limit all b =
    (b.limit ≡ limit)
    × (b.buf ≡ take limit all)
    × (b.truncated ≡ true → limit ≤ length all)
    × (b.truncated ≡ false → length all ≤ limit)

write-IsKept :
    (limit : ℕ) (all p : Bytes) (b : BoundedBuffer)
    → IsKept limit all b
    → IsKept limit (all ++ p) (write b p).0
      × ((write b p).0.truncated
          ≡ (b.truncated || (leb limit (length all) || ltb limit (length all + length p))))
unfolding IsKept write
write-IsKept limit all p b (l, e, t, f) = elim (Bool-cases b.truncated) [
  | inl cut ↦ ground (arith, cut, take-append_short limit all p, length-append all p)
  | inr whole ↦
      let small = take_all limit all (f whole) in
      ground (
        arith,
        whole,
        small,
        take-append_long limit all p (f whole),
        length-append all p,
        take_all (limit - length all) p,
        append-nil all,
      )
]

write_all-IsKept :
    (limit : ℕ) (all : Bytes) (ps : List Bytes) (b : BoundedBuffer)
    → IsKept limit all b
    → IsKept limit (all ++ concat ps) (write_all b ps)
      × ((write_all b ps).truncated ≡ (b.truncated || overflows limit (length all) ps))
unfolding write_all concat overflows
write_all-IsKept limit all [] b k = (rw (append-nil all) k, ground arith)
write_all-IsKept limit all (p ∷ ps) b k =
    let (k2, t) = write-IsKept limit all p b k in
    let (k3, t3) = write_all-IsKept limit (all ++ p) ps (write b p).0 k2 in
    (rw (sym (append_assoc all p (concat ps))) k3, ground (arith, t, t3, length-append all p))

new-IsKept : (limit : ℕ) → IsKept limit [] (new_bounded_buffer limit)
unfolding new_bounded_buffer IsKept
new-IsKept limit = ground (arith, take_all {A = ℕ} limit [])

write-length : (b : BoundedBuffer) (p : Bytes) → (write b p).1 ≡ length p
unfolding write
write-length b p = ground arith

-- However an engine's output is cut into writes, the buffer keeps the first `limit` bytes of all of
-- it, and it is marked as truncated exactly if some write went past the limit or began at it.
pub write_all_lem :
    (limit : ℕ) (ps : List Bytes)
    → let b = write_all (new_bounded_buffer limit) ps in
      (b.buf ≡ take limit (concat ps)) × (b.truncated ≡ overflows limit 0 ps)
unfolding IsKept overflows new_bounded_buffer
write_all_lem limit ps =
    let (k, t) = write_all-IsKept limit [] ps (new_bounded_buffer limit) (new-IsKept limit) in
    (k.1, t)

-- A buffer that is not marked as truncated holds all that was written, every write reported its whole
-- length, and a buffer never holds more than its limit.
pub write_all-whole :
    (limit : ℕ) (ps : List Bytes)
    → let b = write_all (new_bounded_buffer limit) ps in
      (b.truncated ≡ false → b.buf ≡ concat ps)
      × ((p : Bytes) → (write b p).1 ≡ length p)
      × (length b.buf ≤ limit)
unfolding IsKept
write_all-whole limit ps =
    let (k, t) = write_all-IsKept limit [] ps (new_bounded_buffer limit) (new-IsKept limit) in
    let b = write_all (new_bounded_buffer limit) ps in
    (
      (λ whole. k.1 ∙ take_all limit (concat ps) (k.3 whole)),
      write-length b,
      rw k.1 (omega (arith, length-take limit (concat ps))),
    )
