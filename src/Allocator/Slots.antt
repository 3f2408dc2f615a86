-- ===== src/Allocator/Slots.antt =====
-- Where the slots are: no call of the allocator loses a slot or hands one out twice.
use sglang_mlx.Prelude.{
  ℕ, zero, suc, ◌+◌, ◌-◌, ◌≤◌, ◌<◌, List, [], ◌++◌, ◌≡◌, refl, ltb, leb, length, take, drop, ok,
  raise, arith, memory_error, ◌⊎◌, inl, inr, take-append-drop, length-drop, Bool-cases, append-nil,
  ap, count, count-append, if◌then◌else◌, ◌&&◌,
}
use sglang_mlx.Allocator.{
  TokenPoolAllocator, range_down, new_allocator, alloc, free, available_size, clear,
}

-- What `alloc` promises: with enough slots it succeeds, hands out `n` slots, which are the end of
-- the free list, and keeps the rest in order; without it raises `MemoryError`.
pub alloc_lem :
    (a : TokenPoolAllocator) (n : ℕ)
    → ((s : List ℕ) × (b : TokenPoolAllocator) × (alloc a n ≡ ok (s, b))
        × (n ≤ available_size a)
        × (length s ≡ n)
        × (b.free_slots ++ s ≡ a.free_slots)
        × (b.pool_size ≡ a.pool_size))
      ⊎ ((alloc a n ≡ raise memory_error) × (available_size a < n))
unfolding alloc available_size
alloc_lem a n = elim (Bool-cases (leb n 0)) [
  | inl z ↦ inl (([], a, rw z, ground arith, ground arith, append-nil a.free_slots, refl))
  | inr nz ↦ rw nz (elim (Bool-cases (ltb (length a.free_slots) n)) [
    | inl short ↦ inr ((rw short, ground arith))
    | inr enough ↦ inl (
        (
          drop (length a.free_slots - n) a.free_slots,
          record a { free_slots = take (length a.free_slots - n) a.free_slots },
          rw enough,
          ground arith,
          ground (arith, length-drop (length a.free_slots - n) a.free_slots),
          take-append-drop (length a.free_slots - n) a.free_slots,
          refl,
        ))
  ])
]

pub alloc_parts :
    (a b : TokenPoolAllocator) (n : ℕ) (s : List ℕ)
    → alloc a n ≡ ok (s, b)
    → (b.free_slots ++ s ≡ a.free_slots) × (b.pool_size ≡ a.pool_size) × (length s ≡ n)
alloc_parts a b n s e = ground (arith, alloc_lem a n)

-- `free` gives back what `alloc` took: the free list is as before, in the same order.
pub free-alloc :
    (a b : TokenPoolAllocator) (n : ℕ) (s : List ℕ) → alloc a n ≡ ok (s, b) → free b s ≡ a
unfolding free
free-alloc a b n s e = ground (arith, alloc_parts a b n s e)

-- The allocator with a client that holds slots. It may take slots, give back some that it holds,
-- and reset the pool, which takes all that it holds.
pub record Shared : Type 0 where
  pub allocator : TokenPoolAllocator
  pub held : List ℕ

pub data Step : Shared → Shared → Type 0 where
  takes :
      (c : Shared) (n : ℕ) (s : List ℕ) (b : TokenPoolAllocator)
      → alloc c.allocator n ≡ ok (s, b)
      → Step c (record { allocator = b; held = s ++ c.held })
  gives :
      (c : Shared) (s rest : List ℕ)
      → ((i : ℕ) → count i c.held ≡ count i s + count i rest)
      → Step c (record { allocator = free c.allocator s; held = rest })
  clears : (c : Shared) → Step c (record { allocator = clear c.allocator; held = [] })

pub data Reach (c : Shared) : Shared → Type 0 where
  here : Reach c c
  next : {d e : Shared} → Reach c d → Step d e → Reach c e

-- One for each slot that may be handed out, and zero for any other number.
abbrev pub once_within : ℕ → ℕ → ℕ
once_within n i = if leb 1 i && leb i n then 1 else 0

pub count-range_down : (n i : ℕ) → count i (range_down n) ≡ once_within n i
unfolding count range_down
count-range_down zero i = ground arith
count-range_down (suc n) i = ground (arith, count-range_down n i)

pub record Accounted (n : ℕ) (c : Shared) : Type 0 where
  pub size : c.allocator.pool_size ≡ n
  pub once : (i : ℕ) → count i c.allocator.free_slots + count i c.held ≡ once_within n i

Step-Accounted : (n : ℕ) {c d : Shared} → Step c d → Accounted n c → Accounted n d
unfolding free clear count
Step-Accounted n (takes c k s b e) v =
    let parts = alloc_parts c.allocator b k s e in
    record {
      size = omega (arith, parts.1, v.size);
      once = λ i. omega (
        arith,
        v.once i,
        ap (count i) parts.0,
        count-append i b.free_slots s,
        count-append i s c.held,
      );
    }
Step-Accounted n (gives c s rest h) v = record {
  size = v.size;
  once = λ i. omega (arith, v.once i, count-append i c.allocator.free_slots s, h i);
}
Step-Accounted n (clears c) v = record {
  size = v.size;
  once = λ i. rw v.size (omega (arith, count-range_down n i));
}

Reach-Accounted : (n : ℕ) {c d : Shared} → Reach c d → Accounted n c → Accounted n d
Reach-Accounted n here v = v
Reach-Accounted n (next r st) v = Step-Accounted n st (Reach-Accounted n r v)

new_allocator-free :
    (n : ℕ) (a : TokenPoolAllocator)
    → new_allocator n ≡ ok a
    → (a.free_slots ≡ range_down n) × (a.pool_size ≡ n)
unfolding new_allocator
new_allocator-free n a e = ground arith

-- After any history of calls in which the client frees slots only while it holds them, and gives up
-- all it holds at a `clear`: each of the slots 1 to `pool_size` is in the free list or with the
-- client, once, and no other number is, so slot 0 is never handed out.
pub slots_once :
    (n : ℕ) (a : TokenPoolAllocator) (c : Shared)
    → new_allocator n ≡ ok a
    → Reach (record { allocator = a; held = [] }) c
    → (i : ℕ) → count i c.allocator.free_slots + count i c.held ≡ once_within n i
unfolding count
slots_once n a c e r =
    let fresh = new_allocator-free n a e in
    (Reach-Accounted n r (record {
      size = fresh.1;
      once = λ i. rw fresh.0 (omega (arith, count-range_down n i));
    })).once
