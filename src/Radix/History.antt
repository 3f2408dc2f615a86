-- ===== src/Radix/History.antt =====
-- Whole histories of calls: the cache answers what a flat list of the stored entries would.
use sglang_mlx.Prelude.{
  ℕ, false, Option, none, some, List, [], ◌∷◌, ◌≡◌, refl, ◌∙◌, ap, length, ℤ, subst,
}
use sglang_mlx.Radix.Lock.{Body, inc_node, dec_node}
use sglang_mlx.Radix.LockView.{Keeps, inc_node-Keeps, dec_node-Keeps}
use sglang_mlx.Radix.View.{cached_children, overlay}
use sglang_mlx.Radix.Cache.{
  RadixCache, reset, match_prefix, insert, climb, inc_lock_ref, dec_lock_ref,
}
use sglang_mlx.Radix.Refine.{
  cached, IsWellFormed, match_prefix-cached, cached-match_prefix, cached-insert, cached-climb_cache,
  disable-match, disable-insert,
}

-- A call on the cache. Keys are stored with a list of slots.
pub data Call : Type 0 where
  matches : List ℕ → Call
  stores : List ℕ → List ℕ → ℤ → Call
  locks unlocks : ℕ → Call

-- The cache that a lock call leaves; `none` where the node is not in the tree.
abbrev pub locked_at : Option (ℤ × RadixCache) → Option RadixCache
locked_at none = none
locked_at (some (delta, d)) = some d

-- The cache after a call. Lock calls are modelled at the nodes of the tree: a call at a node that
-- was evicted, or that stood before a `reset`, has no result here.
unfoldable pub step : RadixCache → Call → Option RadixCache
step c (matches key) = some (match_prefix c key).1
step c (stores key value p) =
    some (insert c (record { key = key; value = some value; priority = p })).1
step c (locks node) = locked_at (inc_lock_ref c node)
step c (unlocks node) = locked_at (dec_lock_ref c node)

-- Where a call has a result, `next` of it.
abbrev pub after : Option RadixCache → (RadixCache → Option RadixCache) → Option RadixCache
after none next = none
after (some c) next = next c

unfoldable pub run : RadixCache → List Call → Option RadixCache
run c [] = some c
run c (call ∷ calls) = after (step c call) (λ d. run d calls)

-- What holds of a cache if there is one.
abbrev pub IfAny : (RadixCache → Type 0) → Option RadixCache → Type 0
IfAny P none = Unit
IfAny P (some c) = P c

pub after-IfAny :
    (P Q : RadixCache → Type 0) (r : Option RadixCache) (next : RadixCache → Option RadixCache)
    → IfAny P r
    → ((c : RadixCache) → P c → IfAny Q (next c))
    → IfAny Q (after r next)
after-IfAny P Q none next v goes = tt
after-IfAny P Q (some c) next v goes = goes c v

-- What a lock call keeps.
pub locked_at-IfAny :
    (P : RadixCache → Type 0) (body : Body) (c : RadixCache) (node : ℕ)
    (r : Option (ℤ × RadixCache))
    → climb body c node ≡ r
    → ((d : RadixCache) (delta : ℤ) → climb body c node ≡ some (delta, d) → P d)
    → IfAny P (locked_at r)
locked_at-IfAny P body c node none e keeps = tt
locked_at-IfAny P body c node (some (delta, d)) e keeps = keeps d delta e

-- What each call keeps is kept by a history.
pub run-IfAny :
    (P : RadixCache → Type 0)
    → ((c : RadixCache) (call : Call) → P c → IfAny P (step c call))
    → (c : RadixCache) (calls : List Call) → P c
    → IfAny P (run c calls)
unfolding run
run-IfAny P keeps c [] v = v
run-IfAny P keeps c (call ∷ calls) v =
    after-IfAny P P (step c call) (λ d. run d calls) (keeps c call v)
      (λ d w. run-IfAny P keeps d calls w)

-- Each stored key comes with one slot for each token.
abbrev pub IsPaired : Call → Type 0
IsPaired (stores key value p) = length value ≡ length key
IsPaired (matches key) = Unit
IsPaired (locks node) = Unit
IsPaired (unlocks node) = Unit

abbrev pub ArePaired : List Call → Type 0
ArePaired [] = Unit
ArePaired (call ∷ calls) = IsPaired call × ArePaired calls

-- The answers of a flat history: only stores count, and an earlier one wins.
abbrev pub note : (List ℕ → List ℕ) → Call → List ℕ → List ℕ
note answer (stores key value p) q = overlay key value (answer q) q
note answer (matches key) q = answer q
note answer (locks node) q = answer q
note answer (unlocks node) q = answer q

unfoldable pub answers : (List ℕ → List ℕ) → List Call → List ℕ → List ℕ
answers answer [] q = answer q
answers answer (call ∷ calls) q = answers (note answer call) calls q

abbrev Follows : RadixCache → (List ℕ → List ℕ) → Type 0
Follows c answer = IsWellFormed c × (c.disable ≡ false) × ((q : List ℕ) → cached c q ≡ answer q)

climb-Follows :
    (body : Body) (c : RadixCache) (node : ℕ) (answer : List ℕ → List ℕ)
    → Keeps body
    → Follows c answer
    → (d : RadixCache) (delta : ℤ) → climb body c node ≡ some (delta, d)
    → Follows d answer
climb-Follows body c node answer k f d delta e =
    let after = cached-climb_cache body c d node delta k f.0 e in
    (after.0, after.2 ∙ f.1, λ q. after.1 q ∙ f.2 q)

step-Follows :
    (c : RadixCache) (call : Call) (answer : List ℕ → List ℕ)
    → IsPaired call
    → Follows c answer
    → IfAny (λ d. Follows d (note answer call)) (step c call)
unfolding step inc_lock_ref dec_lock_ref
step-Follows c (matches key) answer paired f =
    let after = cached-match_prefix c key f.0 in
    (after.0, disable-match c key ∙ f.1, λ q. after.1 q ∙ f.2 q)
step-Follows c (stores key value p) answer paired f =
    let after = cached-insert c _ f.0 f.1 paired in
    (after.0, disable-insert c _ ∙ f.1, λ q. after.1 q ∙ ap (λ w. overlay key value w q) (f.2 q))
step-Follows c (locks node) answer paired f =
    locked_at-IfAny (λ d. Follows d answer) inc_node c node _ refl
      (climb-Follows inc_node c node answer inc_node-Keeps f)
step-Follows c (unlocks node) answer paired f =
    locked_at-IfAny (λ d. Follows d answer) dec_node c node _ refl
      (climb-Follows dec_node c node answer dec_node-Keeps f)

run-Follows :
    (c : RadixCache) (calls : List Call) (answer : List ℕ → List ℕ)
    → ArePaired calls
    → Follows c answer
    → IfAny (λ d. Follows d (answers answer calls)) (run c calls)
unfolding run answers
run-Follows c [] answer paired f = f
run-Follows c (call ∷ calls) answer paired f =
    after-IfAny (λ d. Follows d (note answer call))
      (λ d. Follows d (answers (note answer call) calls)) (step c call) (λ d. run d calls)
      (step-Follows c call answer paired.0 f)
      (λ d g. run-Follows d calls (note answer call) paired.1 g)

-- After `reset`, whatever matches and stores follow, with a slot for each token that is stored, and
-- whatever locks and unlocks of nodes of the tree, a match on the enabled cache returns what the
-- flat history of the stored entries answers, in which earlier entries win.
pub match_prefix-run :
    (c d : RadixCache) (calls : List Call) (q : List ℕ)
    → c.disable ≡ false
    → ArePaired calls
    → run (reset c) calls ≡ some d
    → (match_prefix d q).0.device_indices ≡ answers (λ _. []) calls q
match_prefix-run c d calls q on paired ran =
    let f =
      subst (IfAny (λ d. Follows d (answers (λ _. []) calls))) ran
        (run-Follows (reset c) calls (λ _. []) paired (begins c on)) in
    match_prefix-cached d q f.0 f.1 ∙ f.2 q
  where
    begins : (c : RadixCache) → c.disable ≡ false → Follows (reset c) (λ _. [])
    begins c on = unfold reset cached_children in (tt, on, λ q. refl)
