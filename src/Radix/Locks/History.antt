-- ===== src/Radix/Locks/History.antt =====
-- Clients of the cache over whole histories: the slots that a lock guards stay what they were.
use sglang_mlx.Prelude.{false, List, [], ◌∷◌, ◌++◌, ◌≡◌, refl, sym, ◌∙◌, ap, count, length}
use sglang_mlx.Radix.Refine.{match_prefix-cached}
use sglang_mlx.Radix.Cache.{RadixCache, reset, match_prefix}
use sglang_mlx.Radix.Service.{reset-IsKept}
use sglang_mlx.Radix.Locks.Counts.{LockedChildren}
use sglang_mlx.Radix.Locks.Clients.{Lock, Clients, nodes, Reach, here, next, Owns}
use sglang_mlx.Radix.Locks.Owned.{place-whole}
use sglang_mlx.Radix.Locks.Served.{AllOwn, AreServed, Step-AreServed}

pub reset-AreServed :
    (c : RadixCache) → c.disable ≡ false → AreServed (record { cache = reset c; locks = [] })
reset-AreServed c on = record {
  held = record {
    kept = reset-IsKept c;
    enabled = unfold reset in on;
    counted = unfold reset LockedChildren in tt;
    old = λ i later. unfold count in refl;
  };
  owned = tt;
}

pub Reach-AreServed :
    (c : RadixCache) (w : Clients)
    → c.disable ≡ false
    → Reach (record { cache = reset c; locks = [] }) w
    → AreServed w
Reach-AreServed c _ on here = reset-AreServed c on
Reach-AreServed c _ on (next {x} {y} r s) = Step-AreServed x y s (Reach-AreServed c x on r)

pub AllOwn-at :
    (c : RadixCache) (before behind : List Lock) (x : Lock)
    → AllOwn c (before ++ (x ∷ behind))
    → Owns c x
AllOwn-at c [] behind x o = o.0
AllOwn-at c (y ∷ before) behind x o = AllOwn-at c before behind x o.1

pub AreServed-match_prefix :
    (d : RadixCache) (before behind : List Lock) (x : Lock)
    → AreServed (record { cache = d; locks = before ++ (x ∷ behind) })
    → ((match_prefix d x.key).0.device_indices ≡ x.slots) × (length x.slots ≡ length x.key)
AreServed-match_prefix d before behind x v =
    let o = AllOwn-at d before behind x v.owned in
    (
      match_prefix-cached d x.key (v.held.kept.leaves 0).shape v.held.enabled ∙ o.slots,
      ap length (sym o.slots)
          ∙ place-whole (nodes (before ++ (x ∷ behind))) d x.key x.node v.held o.place,
    )

-- After `reset` of an enabled cache, whatever matches, paired stores and evictions there were, and
-- whatever locks were taken at the last nodes of matches and released once each: while a lock is
-- held, a match of its tokens returns the slots that the match before the lock returned, one for
-- each token.
pub Reach-match_prefix :
    (c d : RadixCache) (before behind : List Lock) (x : Lock)
    → c.disable ≡ false
    → Reach
        (record { cache = reset c; locks = [] })
        (record { cache = d; locks = before ++ (x ∷ behind) })
    → ((match_prefix d x.key).0.device_indices ≡ x.slots) × (length x.slots ≡ length x.key)
Reach-match_prefix c d before behind x on r =
    AreServed-match_prefix d before behind x
      (Reach-AreServed c (record { cache = d; locks = before ++ (x ∷ behind) }) on r)
