-- ===== src/ModelRunner/PlanLaws.antt =====
-- What step 2 of `forward_prefill` settles: the slots of the prompt.
use sglang_mlx.Prelude.{
  count, count-append, ℕ, zero, suc, ◌+◌, ◌-◌, ◌<◌, ◌&&◌, List, [], ◌∷◌, ◌++◌, ◌≡◌, refl, sym, ◌∙◌,
  ap, arith, length, take, drop, get_or, ltb, leb, Bool-cases, inl, inr, Result, ok, raise,
  length-append, length-drop, append-nil, memory_error,
}
use sglang_mlx.Allocator.{available_size}
use sglang_mlx.Allocator.Slots.{alloc_lem}
use sglang_mlx.KvPool.{Mlx}
use sglang_mlx.Radix.Cache.{RadixCache, set_allocator}
use sglang_mlx.Radix.Refine.{cached}
use sglang_mlx.Radix.InsertPrefix.{length-cached_children-le}
use sglang_mlx.ModelRunner.State.{RequestState, ModelRunner, seq_len, total_cached_len}
use sglang_mlx.ModelRunner.Prefill.{Plan, plan_prefill}
use sglang_mlx.Radix.SlotSums.{held}
use sglang_mlx.ModelRunner.Ready.{IsReady, set_allocator-IsReady}

-- A request has a slot for each of its tokens.
abbrev pub HasSlots : RequestState → Type 0
HasSlots s = total_cached_len s ≡ seq_len s

-- What a plan settles: a slot for each token of the prompt, first those that the cache has.
pub record IsPlan (c : RadixCache) (prompt : List ℕ) (plan : Plan) (rest : List ℕ) : Type 0 where
  pub paired : length (plan.prefix_indices ++ plan.new_slot_indices) ≡ length prompt
  pub cached_first : plan.prefix_indices ++ plan.new_slot_indices ≡ cached c prompt ++ rest

-- A list is its entries but the last, and the last.
take-last : (l : List ℕ) (n : ℕ) → length l ≡ suc n → take n l ++ (get_or l n 0 ∷ []) ≡ l
take-last [] n e = absurd (omega (arith, e))
take-last (x ∷ l) zero e = ap (◌∷◌ x) (nil l (omega (arith, e)))
  where
    nil : (l : List ℕ) → length l ≡ zero → [] ≡ l
    nil [] e = refl
    nil (y ∷ l) e = absurd (omega (arith, e))
take-last (x ∷ l) (suc n) e = ap (◌∷◌ x) (take-last l n (omega (arith, e)))

abbrev pub Planned :
    (m : Mlx) → ModelRunner m → RadixCache → List ℕ → Result Plan × ModelRunner m → Type 0
Planned m r c prompt (raise e, after) =
    (after ≡ r)
    × (e ≡ memory_error)
    × (available_size r.allocator < length prompt - length (cached c prompt))
Planned m r c prompt (ok plan, after) =
    (rest : List ℕ) × IsReady after.radix_cache
    × IsPlan c prompt plan rest
    × ((q : List ℕ) → cached after.radix_cache q ≡ cached c q)
    × (available_size after.allocator + (length prompt - length (cached c prompt))
        ≡ available_size r.allocator)
    × ((i : ℕ)
        → (held i after.radix_cache ≡ held i c)
          × (count i after.allocator.free_slots + count i rest ≡ count i r.allocator.free_slots))

pub plan_prefill_lem :
    (m : Mlx) (r : ModelRunner m) (prompt : List ℕ)
    → IsReady r.radix_cache
    → Planned m r r.radix_cache prompt (plan_prefill m r prompt (cached r.radix_cache prompt))
unfolding plan_prefill available_size
plan_prefill_lem m r prompt v =
    let l = cached r.radix_cache prompt in
    let small = length-cached_children-le r.radix_cache.children prompt (v.kept.leaves 0).shape in
    elim (Bool-cases (leb (length prompt) (length l) && ltb 0 (length l))) [
      | inl hit ↦
          let n : length l ≡ suc (length l - 1) = ground arith in
          let whole : length l ≡ length prompt = ground arith in
          rw hit (
            [],
            v,
            record {
              paired = ap length (take-last l (length l - 1) n) ∙ whole;
              cached_first = take-last l (length l - 1) n ∙ sym (append-nil l);
            },
            λ q. refl,
            omega (arith, whole),
            λ i. (refl, unfold count in omega arith),
          )
      | inr miss ↦ rw miss (elim (alloc_lem r.allocator (length (drop (length l) prompt))) [
        | inl (s, b, e, enough, size, parts, _) ↦ rw e (
          s,
          set_allocator-IsReady r.radix_cache b v,
          record {
            paired = omega (arith, length-append l s, size, length-drop (length l) prompt, small);
            cached_first = refl;
          },
          λ q. unfold set_allocator in refl,
          omega (
            arith,
            ap length parts,
            length-append b.free_slots s,
            size,
            length-drop (length l) prompt,
          ),
          λ i. (
            unfold held set_allocator in refl,
            omega (arith, ap (count i) parts, count-append i b.free_slots s),
          ),
        )
        | inr (e, few) ↦ rw e (refl, refl, omega (arith, few, length-drop (length l) prompt))
      ])
    ]

pub drop-append : (l rest : List ℕ) → drop (length l) (l ++ rest) ≡ rest
drop-append [] rest = refl
drop-append (x ∷ l) rest = drop-append l rest
