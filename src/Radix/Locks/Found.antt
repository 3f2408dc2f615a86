-- ===== src/Radix/Locks/Found.antt =====
-- The last node of a match can be locked.
use sglang_mlx.Prelude.{ℕ, ◌≤◌, false, List, ◌≡◌, arith, length, take, inl, inr, ◌⊎◌}
use sglang_mlx.Radix.Leaves.{is_id, ids}
use sglang_mlx.Radix.Lock.{inc_node}
use sglang_mlx.Radix.Refine.{IsWellFormed}
use sglang_mlx.Radix.Cache.{RadixCache, match_prefix, inc_lock_ref}
use sglang_mlx.Radix.Locks.Matched.{EndsAt}
use sglang_mlx.Radix.Locks.Cut.{end-weighs}
use sglang_mlx.Radix.Locks.Calls.{ends}
use sglang_mlx.Radix.Locks.Owned.{match_prefix-EndsAt, root-match}
use sglang_mlx.Radix.Found.{Returns, climb-Returns}

place-EndsAt :
    (d : RadixCache) (q : List ℕ) (root m last : ℕ)
    → d.root.id ≡ root
    → EndsAt root m last q (ends d)
    → (last ≡ d.root.id) ⊎ (1 ≤ ids last d.children)
place-EndsAt d q root m last same (inl (nothing, e)) = inl (omega (arith, e, same))
place-EndsAt d q root m last same (inr (some_found, e)) =
    inr (
      end-weighs (is_id last) 1 d.children (take m q) last (λ k at. unfold is_id in ground arith) e)

-- On an enabled well-formed cache, the node that a match returns can be locked.
pub match_prefix-lockable :
    (c : RadixCache) (q : List ℕ)
    → IsWellFormed c
    → c.disable ≡ false
    → let (found, d) = match_prefix c q in Returns (inc_lock_ref d found.last_node)
unfolding inc_lock_ref
match_prefix-lockable c q w on =
    let (found, d) = match_prefix c q in
    climb-Returns inc_node d found.last_node (
      place-EndsAt d q c.root.id (length found.device_indices) found.last_node (root-match c q)
        (match_prefix-EndsAt c q w on))
